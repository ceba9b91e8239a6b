-- ===== src/Ring/System.antt =====
-- One producer and one consumer over one ring, interleaved between any two accesses to shared
-- memory. A counter has one writer, so a load by the other side gives a value that it has had since
-- the loading side last looked; acquire and release order the slots with the counters.
use lowlatency_exec_core.Ring.{
  check_room, publish_head, read_slot, publish_tail, write_slot, check_items, put, Ring,
  looks_empty, empty_ring, looks_full,
}
use lowlatency_exec_core.Common.{if◌then◌else◌, ◌^◌, ◌≡◌, ◌≤◌, ℕ, ◌+◌, ◌%◌}

-- Where the producer stands in `emplace_impl`.
pub data Producer (A : Type 0) : Type 0 where
  idle : Producer A
  writing : A → Producer A
  publishing : A → Producer A

-- Where the consumer stands in `try_pop`.
pub data Consumer (A : Type 0) : Type 0 where
  waiting : Consumer A
  reading : Consumer A
  releasing : A → Consumer A

-- The ring, both threads, and what has happened: how many items were pushed and popped, what each
-- side knows of the other's count, and the items by their numbers.
pub record System (A : Type 0) : Type 0 where
  pub ring : Ring A
  pub producer : Producer A
  pub consumer : Consumer A
  pub pushed : ℕ
  pub popped : ℕ
  pub known_popped : ℕ
  pub known_pushed : ℕ
  pub sent : ℕ → A
  pub received : ℕ → A

-- A counter of the ring.
abbrev pub word : ℕ → ℕ
word n = n % 2 ^ 64

module _ {A : Type 0} (k : ℕ) where
  abbrev pub after_check_room : A → ℕ → System A → System A
  after_check_room item h s = record s {
    ring = (check_room k (word h) s.ring).1;
    producer = if (check_room k (word h) s.ring).0 then writing item else idle;
    known_popped = if looks_full k s.ring then h else s.known_popped;
  }

  abbrev pub after_write : A → System A → System A
  after_write item s = record s { ring = write_slot k item s.ring; producer = publishing item }

  abbrev pub after_publish_tail : A → System A → System A
  after_publish_tail item s = record s {
    ring = publish_tail k s.ring;
    producer = idle;
    pushed = s.pushed + 1;
    sent = put s.sent s.pushed item;
  }

  abbrev pub after_check_items : ℕ → System A → System A
  after_check_items t s = record s {
    ring = (check_items k (word t) s.ring).1;
    consumer = if (check_items k (word t) s.ring).0 then reading else waiting;
    known_pushed = if looks_empty k s.ring then t else s.known_pushed;
  }

  abbrev pub after_read : System A → System A
  after_read s = record s { consumer = releasing (read_slot k s.ring) }

  abbrev pub after_publish_head : A → System A → System A
  after_publish_head v s = record s {
    ring = publish_head k s.ring;
    consumer = waiting;
    popped = s.popped + 1;
    received = put s.received s.popped v;
  }

  pub data Step (s : System A) : System A → Type 0 where
    push_starts :
        (item : A) (h : ℕ)
        → s.producer ≡ idle
        → s.known_popped ≤ h
        → h ≤ s.popped
        → Step s (after_check_room item h s)
    push_writes : (item : A) → s.producer ≡ writing item → Step s (after_write item s)
    push_ends : (item : A) → s.producer ≡ publishing item → Step s (after_publish_tail item s)
    pop_starts :
        (t : ℕ)
        → s.consumer ≡ waiting
        → s.known_pushed ≤ t
        → t ≤ s.pushed
        → Step s (after_check_items t s)
    pop_reads : s.consumer ≡ reading → Step s (after_read s)
    pop_ends : (v : A) → s.consumer ≡ releasing v → Step s (after_publish_head v s)

  abbrev pub start : A → System A
  start fill = record {
    ring = empty_ring fill;
    producer = idle;
    consumer = waiting;
    pushed = 0;
    popped = 0;
    known_popped = 0;
    known_pushed = 0;
    sent = λ _. fill;
    received = λ _. fill;
  }

  pub data Reach (fill : A) : System A → Type 0 where
    here : Reach fill (start fill)
    next : {s t : System A} → Reach fill s → Step s t → Reach fill t
