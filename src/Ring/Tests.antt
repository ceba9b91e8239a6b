-- ===== src/Ring/Tests.antt =====
-- The theorems of the ring at concrete runs, with a capacity of two.
use lowlatency_exec_core.Common.{
  ℕ, ◌≡◌, ◌≢◌, ◌<◌, ◌≤◌, ◌+◌, ◌↔◌, ◌⊎◌, arith, refl, false, ◌^◌, some, ◌-◌, true, ◌*◌,
}
use lowlatency_exec_core.Ring.RoundTrip.{IsDrained, try_push-try_pop}
use lowlatency_exec_core.Ring.{
  publish_head, accepts_capacity, capacity, looks_full, looks_empty, check_room, check_items, slot,
  write_slot, read_slot, publish_tail, try_pop, try_push, Ring, empty_ring,
}
use lowlatency_exec_core.Ring.System.{
  writing, reading, System, word, start, Reach, here, next, push_starts, push_writes, push_ends,
  pop_starts, pop_reads, pop_ends, after_check_room, after_write, after_publish_tail,
  after_check_items, after_read, after_publish_head,
}
use lowlatency_exec_core.Ring.Progress.{consumer_progress, producer_progress}
use lowlatency_exec_core.Ring.Threads.{the_consumer, the_producer, Runs, starts, goes_on, GoesOn}
use lowlatency_exec_core.Ring.Safety.{received-sent, no_race, checks_exact}
use lowlatency_exec_core.Ring.Capacity.{accepts_capacity-capacity}

-- The producer pushes 7.
abbrev sending : System ℕ
sending = after_check_room 1 7 0 (start 1 0)

sending-writing : sending.producer ≡ writing 7
unfolding check_room
sending-writing = refl

abbrev sent_one : System ℕ
sent_one = after_publish_tail 1 7 (after_write 1 7 sending)

sent_one-Reach : Reach 1 0 sent_one
unfolding check_room write_slot
sent_one-Reach =
    next (next (next here (push_starts 7 0 refl (omega arith) (omega arith))) (push_writes 7 refl))
      (push_ends 7 refl)

-- Then it is about to write 8 while the consumer is about to read 7.
abbrev both : System ℕ
both = after_check_items 1 1 (after_check_room 1 8 0 sent_one)

both-Reach : Reach 1 0 both
unfolding check_room check_items write_slot publish_tail
both-Reach =
    next (next sent_one-Reach (push_starts 8 0 refl (omega arith) (omega arith)))
      (pop_starts 1 refl (omega arith) (omega arith))

both-writing : both.producer ≡ writing 8
unfolding check_room check_items write_slot publish_tail
both-writing = refl

both-reading : both.consumer ≡ reading
unfolding check_room check_items write_slot publish_tail
both-reading = refl

no_race_example : slot 1 both.ring.tail ≢ slot 1 both.ring.head
no_race_example = no_race 1 (omega arith) both-Reach 8 both-writing both-reading

-- The consumer takes 7.
abbrev taken : System ℕ
taken = after_publish_head 1 7 (after_read 1 (after_check_items 1 1 sent_one))

taken-Reach : Reach 1 0 taken
unfolding check_room check_items write_slot publish_tail read_slot
taken-Reach =
    next
      (next (next sent_one-Reach (pop_starts 1 refl (omega arith) (omega arith))) (pop_reads refl))
      (pop_ends 7 refl)

received-sent_example :
    ((i : ℕ) → i < taken.popped → taken.received i ≡ taken.sent i)
    × (taken.popped ≤ taken.pushed)
    × (taken.pushed ≤ taken.popped + capacity 1)
received-sent_example = received-sent 1 (omega arith) taken-Reach

known_room : (taken.known_popped ≤ 1) × (1 ≤ taken.popped)
unfolding looks_full looks_empty publish_tail write_slot check_room
known_room = (omega arith, omega arith)

known : taken.known_pushed ≤ 1
unfolding looks_empty publish_tail write_slot check_room
known = omega arith

checks_exact_example :
    (((check_room 1 (word 1) taken.ring).0 ≡ false) ↔ (taken.pushed ≡ 1 + capacity 1))
    × (((check_items 1 (word 1) taken.ring).0 ≡ false) ↔ (taken.popped ≡ 1))
checks_exact_example =
    checks_exact 1 (omega arith) taken-Reach 1 1 known_room.0 known_room.1 known (omega arith)

accepts_capacity-capacity_example :
    (accepts_capacity 1024 ≡ true) ↔ ((k : ℕ) × (k ≤ 63) × (1024 ≡ capacity k))
accepts_capacity-capacity_example = accepts_capacity-capacity 1024 (omega arith)

-- The counters are about to wrap, and the consumer has seen every push.
abbrev drained : Ring ℕ
drained = record (empty_ring 0) { tail = 2 ^ 64 - 1; head = 2 ^ 64 - 1; tail_cached = 2 ^ 64 - 1 }

try_push-try_pop_example :
    (r' : Ring ℕ) × (r'' : Ring ℕ) × (try_push 2 drained.head 7 drained ≡ (true, r'))
    × (try_pop 2 r'.tail r' ≡ (some 7, r''))
    × IsDrained r''
try_push-try_pop_example =
    try_push-try_pop 2 7 drained (record { bounded = omega arith; popped = refl; seen = refl })

-- The consumer takes 7, and the producer starts to push 8 between two of its steps.
abbrev looked : System ℕ
looked = after_check_items 1 1 sent_one

abbrev met : System ℕ
met = after_read 1 (after_check_room 1 8 0 looked)

pop_of_7 : Runs 1 the_consumer 1 sent_one 3 (after_publish_head 1 7 met)
unfolding check_room check_items write_slot publish_tail read_slot looks_empty
pop_of_7 =
    goes_on
      (goes_on
        (goes_on (goes_on starts (pop_starts 1 refl (omega arith) (omega arith)) refl)
          (push_starts 8 0 refl (omega arith) (omega arith)) refl)
        (pop_reads refl) refl)
      (pop_ends 7 refl) refl

consumer_progress_example :
    ((3 + 3 * 0 ≤ 3 * 1 + 2) ⊎ (1 ≤ 1)) × GoesOn 1 the_consumer 1 (after_publish_head 1 7 met)
consumer_progress_example =
    consumer_progress 1 (omega arith) 1 sent_one-Reach (omega arith) pop_of_7

-- The producer pushes 9 after the pop of 7.
abbrev pushed_again : System ℕ
pushed_again = after_publish_tail 1 9 (after_write 1 9 (after_check_room 1 9 1 taken))

push_of_9 : Runs 1 the_producer 1 taken 3 pushed_again
unfolding check_room check_items write_slot publish_tail read_slot looks_empty looks_full
    publish_head
push_of_9 =
    goes_on
      (goes_on (goes_on starts (push_starts 9 1 refl (omega arith) (omega arith)) refl)
        (push_writes 9 refl) refl)
      (push_ends 9 refl) refl

producer_progress_example :
    ((3 + 3 * 1 ≤ 3 * 2 + 2) ⊎ (1 + capacity 1 ≤ 2)) × GoesOn 1 the_producer 1 pushed_again
producer_progress_example = producer_progress 1 (omega arith) 1 taken-Reach (omega arith) push_of_9
