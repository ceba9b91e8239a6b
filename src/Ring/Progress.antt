-- ===== src/Ring/Progress.antt =====
-- What the steps of one side of include/exec_core/ring_buffer.hpp achieve, whatever the other side
-- does between them, while the counter that it loads is recent enough: `try_pop` and `emplace_impl`
-- have no loop, and a call fails only where the counter loaded shows no item, or no room.
use lowlatency_exec_core.Ring.{capacity, check_room, check_items, looks_full, looks_empty}
use lowlatency_exec_core.Ring.System.{
  System, Producer, Consumer, idle, writing, publishing, waiting, reading, releasing, Step, Reach,
  push_starts, push_writes, push_ends, pop_starts, pop_reads, pop_ends, word,
}
use lowlatency_exec_core.Ring.Safety.{check_room_full, check_items_empty}
use lowlatency_exec_core.Ring.Steps.{Reach-Inv}
use lowlatency_exec_core.Common.{
  le_trans, ◌&&◌, ltb, ℕ, ◌+◌, ◌*◌, ◌<◌, ◌≤◌, ◌≡◌, refl, true, false, arith, Bool-cases, ◌⊎◌, inl,
  inr, dec_lt,
}
use lowlatency_exec_core.Ring.Threads.{
  Thread, the_producer, the_consumer, own, phase, done, done_across, phase_bound, limit, taken_by,
  loads_less, Runs, starts, goes_on, GoesOn, Runs-Reach, done_grows, across_grows,
}

module _ {A : Type 0} (k : ℕ) where
  module _ (small : k ≤ 63) {fill : A} {s : System A} (r : Reach k fill s) (m : ℕ) where
    item_there :
        (t : ℕ)
        → s.known_pushed ≤ t
        → t ≤ s.pushed
        → (looks_empty k s.ring && ltb t m) ≡ false
        → s.popped < m
        → (check_items k (word t) s.ring).0 ≡ true
    unfolding check_items
    item_there t lo hi fresh more = elim (Bool-cases (looks_empty k s.ring)) [
      | inr cached ↦ rw cached refl
      | inl empty ↦ elim (Bool-cases (check_items k (word t) s.ring).0) [
        | inl there ↦ there
        | inr none_there ↦
            let caught_up = (check_items_empty k small r t lo hi).0 none_there in
            let recent : ltb t m ≡ false = rw empty at fresh in
            absurd (ground (arith, caught_up, recent, more))
      ]
    ]

    room_there :
        (h : ℕ)
        → s.known_popped ≤ h
        → h ≤ s.popped
        → (looks_full k s.ring && ltb h m) ≡ false
        → s.pushed < m + capacity k
        → (check_room k (word h) s.ring).0 ≡ true
    unfolding check_room
    room_there h lo hi fresh more = elim (Bool-cases (looks_full k s.ring)) [
      | inr cached ↦ rw cached refl
      | inl full ↦ elim (Bool-cases (check_room k (word h) s.ring).0) [
        | inl there ↦ there
        | inr none_there ↦
            let caught_up = (check_room_full k small r h lo hi).0 none_there in
            let recent : ltb h m ≡ false = rw full at fresh in
            absurd (ground (arith, caught_up, recent, more))
      ]
    ]

    -- Below its limit, each step of a thread takes it on in its call, or ends a call that succeeds.
    moves_on :
        (who : Thread) {t : System A} (st : Step k s t)
        → loads_less k who m st ≡ false
        → done who s < limit k who m
        → own who (taken_by k st) + phase who s + 3 * done who s ≤ phase who t + 3 * done who t
    moves_on the_producer (push_starts item h e lo hi) fresh more =
        rw (e, room_there h lo hi fresh more) (omega arith)
    moves_on the_producer (push_writes item e) fresh more = rw e (omega arith)
    moves_on the_producer (push_ends item e) fresh more = rw e (omega arith)
    moves_on the_producer (pop_starts t e lo hi) fresh more = omega arith
    moves_on the_producer (pop_reads e) fresh more = omega arith
    moves_on the_producer (pop_ends v e) fresh more = omega arith
    moves_on the_consumer (push_starts item h e lo hi) fresh more = omega arith
    moves_on the_consumer (push_writes item e) fresh more = omega arith
    moves_on the_consumer (push_ends item e) fresh more = omega arith
    moves_on the_consumer (pop_starts t e lo hi) fresh more =
        rw (e, item_there t lo hi fresh more) (omega arith)
    moves_on the_consumer (pop_reads e) fresh more = rw e (omega arith)
    moves_on the_consumer (pop_ends v e) fresh more = rw e (omega arith)

  module _ (small : k ≤ 63) (who : Thread) (m : ℕ) {fill : A} where
    moves_far :
        {s t : System A} {n : ℕ}
        → Reach k fill s
        → Runs k who m s n t
        → (n + phase who s + 3 * done who s ≤ phase who t + 3 * done who t)
          ⊎ (limit k who m ≤ done who t)
    moves_far r starts = inl (omega arith)
    moves_far r (goes_on {t} a st fresh) = elim (moves_far r a) [
      | inr stopped ↦ inr (omega (arith, stopped, done_grows k who st))
      | inl so_far ↦ elim (dec_lt (done who t) (limit k who m)) [
        | no reached ↦ inr (omega (arith, reached, done_grows k who st))
        | yes more ↦
            let one = moves_on small (Runs-Reach k r a) m who st fresh more in
            inl (omega (arith, so_far, one))
      ]
    ]

  can_go_on :
      (small : k ≤ 63) (who : Thread) (m : ℕ) {fill : A} {t : System A}
      → Reach k fill t
      → m ≤ done_across who t
      → GoesOn k who m t
  can_go_on small the_producer m {fill} {t} r enough = go t.producer refl
    where
      go : (p : Producer A) → t.producer ≡ p → GoesOn k the_producer m t
      go idle e =
          let v = Reach-Inv k small r in
          let fresh : (looks_full k t.ring && ltb t.popped m) ≡ false = ground (arith, enough) in
          (_, push_starts fill t.popped e (omega (arith, v.order)) (omega arith), refl, fresh)
      go (writing item) e = (_, push_writes item e, refl, refl)
      go (publishing item) e = (_, push_ends item e, refl, refl)
  can_go_on small the_consumer m {fill} {t} r enough = go t.consumer refl
    where
      go : (c : Consumer A) → t.consumer ≡ c → GoesOn k the_consumer m t
      go waiting e =
          let v = Reach-Inv k small r in
          let fresh : (looks_empty k t.ring && ltb t.pushed m) ≡ false = ground (arith, enough) in
          (_, pop_starts t.pushed e (omega (arith, v.order)) (omega arith), refl, fresh)
      go reading e = (_, pop_reads e, refl, refl)
      go (releasing v) e = (_, pop_ends v e, refl, refl)

  module _ (small : k ≤ 63) (m : ℕ) {fill : A} {s : System A} (r : Reach k fill s) where
    progress :
        (who : Thread) {t : System A} {n : ℕ}
        → m ≤ done_across who s
        → Runs k who m s n t
        → ((n + 3 * done who s ≤ 3 * done who t + 2) ⊎ (limit k who m ≤ done who t))
          × GoesOn k who m t
    progress who {t} enough a = (
      elim (moves_far small who m r a) [
        | inl steps ↦ let bound = phase_bound who t in inl (omega (arith, steps, bound))
        | inr reached ↦ inr reached
      ],
      can_go_on small who m (Runs-Reach k r a) (le_trans enough (across_grows k who m a)),
    )

    -- From every state that the two threads reach, for a capacity of 2 ^ k with k at most 63, where
    -- at least m items have been pushed, and in every run of both threads from there, whatever
    -- their interleaving, in which each load that the consumer makes of the tail shows at least m
    -- pushes: the steps that the consumer takes are at most three for each pop of the run that
    -- gives an item, and two more, or m items have been popped at its end; and the consumer can
    -- take one more step that such a run allows.
    pub consumer_progress :
        {t : System A} {n : ℕ}
        → m ≤ s.pushed
        → Runs k the_consumer m s n t
        → ((n + 3 * s.popped ≤ 3 * t.popped + 2) ⊎ (m ≤ t.popped)) × GoesOn k the_consumer m t
    consumer_progress = progress the_consumer

    -- From every state that the two threads reach, for a capacity of 2 ^ k with k at most 63, where
    -- at least m items have been popped, and in every run of both threads from there, whatever
    -- their interleaving, in which each load that the producer makes of the head shows at least m
    -- pops: the steps that the producer takes are at most three for each push of the run that
    -- stores its item, and two more, or m plus Capacity items have been pushed at its end; and the
    -- producer can take one more step that such a run allows.
    pub producer_progress :
        {t : System A} {n : ℕ}
        → m ≤ s.popped
        → Runs k the_producer m s n t
        → ((n + 3 * s.pushed ≤ 3 * t.pushed + 2) ⊎ (m + capacity k ≤ t.pushed))
          × GoesOn k the_producer m t
    producer_progress = progress the_producer
