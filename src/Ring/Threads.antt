-- ===== src/Ring/Threads.antt =====
-- Runs of the two threads over the ring of include/exec_core/ring_buffer.hpp, as one of them counts
-- them: its own steps, its calls that succeed, and what its loads of the other one's counter give.
use lowlatency_exec_core.Ring.{capacity, looks_full, looks_empty}
use lowlatency_exec_core.Ring.System.{
  System, Producer, Consumer, idle, writing, publishing, waiting, reading, releasing, Step, Reach,
  next, push_starts, push_writes, push_ends, pop_starts, pop_reads, pop_ends,
}
use lowlatency_exec_core.Common.{◌&&◌, ltb, ℕ, ◌+◌, ◌≤◌, ◌≡◌, Bool, false, arith}

pub data Thread : Type 0 where
  the_producer : Thread
  the_consumer : Thread

-- One where the two threads are the same.
abbrev pub own : Thread → Thread → ℕ
own the_producer the_producer = 1
own the_producer the_consumer = 0
own the_consumer the_producer = 0
own the_consumer the_consumer = 1

-- How many accesses of its call a thread has behind it.
abbrev pub pushing : {A : Type 0} → Producer A → ℕ
pushing idle = 0
pushing (writing item) = 1
pushing (publishing item) = 2

abbrev pub popping : {A : Type 0} → Consumer A → ℕ
popping waiting = 0
popping reading = 1
popping (releasing v) = 2

abbrev pub phase : {A : Type 0} → Thread → System A → ℕ
phase the_producer s = pushing s.producer
phase the_consumer s = popping s.consumer

-- The calls of a thread that have succeeded, and those of the other one.
abbrev pub done : {A : Type 0} → Thread → System A → ℕ
done the_producer s = s.pushed
done the_consumer s = s.popped

abbrev pub done_across : {A : Type 0} → Thread → System A → ℕ
done_across the_producer s = s.popped
done_across the_consumer s = s.pushed

pub phase_bound : {A : Type 0} (who : Thread) (s : System A) → phase who s ≤ 2
phase_bound the_producer s = pushing_bound s.producer
  where
    pushing_bound : {B : Type 0} (p : Producer B) → pushing p ≤ 2
    pushing_bound idle = omega arith
    pushing_bound (writing item) = omega arith
    pushing_bound (publishing item) = omega arith
phase_bound the_consumer s = popping_bound s.consumer
  where
    popping_bound : {B : Type 0} (c : Consumer B) → popping c ≤ 2
    popping_bound waiting = omega arith
    popping_bound reading = omega arith
    popping_bound (releasing v) = omega arith

-- The count that a thread reaches before it needs the other one to have done more than `m` calls.
abbrev pub limit : ℕ → Thread → ℕ → ℕ
limit k the_producer m = m + capacity k
limit k the_consumer m = m

module _ {A : Type 0} (k : ℕ) where
  -- The thread that takes a step.
  abbrev pub taken_by : {s t : System A} → Step k s t → Thread
  taken_by (push_starts item h e lo hi) = the_producer
  taken_by (push_writes item e) = the_producer
  taken_by (push_ends item e) = the_producer
  taken_by (pop_starts t e lo hi) = the_consumer
  taken_by (pop_reads e) = the_consumer
  taken_by (pop_ends v e) = the_consumer

  -- The step loads the other side's counter for the thread, and the value is that of less than `m`
  -- calls. Where the cached copy suffices, nothing is loaded.
  abbrev pub loads_less : Thread → ℕ → {s t : System A} → Step k s t → Bool
  loads_less the_producer m {s} (push_starts item h e lo hi) = looks_full k s.ring && ltb h m
  loads_less the_producer m (push_writes item e) = false
  loads_less the_producer m (push_ends item e) = false
  loads_less the_producer m (pop_starts t e lo hi) = false
  loads_less the_producer m (pop_reads e) = false
  loads_less the_producer m (pop_ends v e) = false
  loads_less the_consumer m (push_starts item h e lo hi) = false
  loads_less the_consumer m (push_writes item e) = false
  loads_less the_consumer m (push_ends item e) = false
  loads_less the_consumer m {s} (pop_starts t e lo hi) = looks_empty k s.ring && ltb t m
  loads_less the_consumer m (pop_reads e) = false
  loads_less the_consumer m (pop_ends v e) = false

  -- A run of both threads, of which `who` takes `n` steps, and in which each of its loads gives at
  -- least `m`.
  pub data Runs (who : Thread) (m : ℕ) (s : System A) : ℕ → System A → Type 0 where
    starts : Runs who m s 0 s
    goes_on :
        {n : ℕ} {t u : System A}
        → Runs who m s n t
        → (st : Step k t u) → loads_less who m st ≡ false
        → Runs who m s (n + own who (taken_by st)) u

  -- The thread can take a step that such a run allows.
  abbrev pub GoesOn : Thread → ℕ → System A → Type 0
  GoesOn who m t =
      (u : System A) × (st : Step k t u) × (taken_by st ≡ who) × (loads_less who m st ≡ false)

  pub Runs-Reach :
      {who : Thread} {m : ℕ} {fill : A} {s t : System A} {n : ℕ}
      → Reach k fill s
      → Runs who m s n t
      → Reach k fill t
  Runs-Reach r starts = r
  Runs-Reach r (goes_on a st fresh) = next (Runs-Reach r a) st

  pub counts_grow : {s t : System A} → Step k s t → (s.pushed ≤ t.pushed) × (s.popped ≤ t.popped)
  counts_grow (push_starts item h e lo hi) = (omega arith, omega arith)
  counts_grow (push_writes item e) = (omega arith, omega arith)
  counts_grow (push_ends item e) = (omega arith, omega arith)
  counts_grow (pop_starts t e lo hi) = (omega arith, omega arith)
  counts_grow (pop_reads e) = (omega arith, omega arith)
  counts_grow (pop_ends v e) = (omega arith, omega arith)

  pub done_grows : (who : Thread) {s t : System A} → Step k s t → done who s ≤ done who t
  done_grows the_producer st = (counts_grow st).0
  done_grows the_consumer st = (counts_grow st).1

  pub across_grows :
      (who : Thread) (m : ℕ) {s t : System A} {n : ℕ}
      → Runs who m s n t
      → done_across who s ≤ done_across who t
  across_grows who m starts = omega arith
  across_grows the_producer m (goes_on a st fresh) =
      let before = across_grows the_producer m a in omega (arith, before, counts_grow st)
  across_grows the_consumer m (goes_on a st fresh) =
      let before = across_grows the_consumer m a in omega (arith, before, counts_grow st)
