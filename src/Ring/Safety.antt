-- ===== src/Ring/Safety.antt =====
-- What holds of the ring in every state that its two threads can reach.
use lowlatency_exec_core.Ring.Steps.{Reach-Inv}
use lowlatency_exec_core.Ring.Counters.{looks_empty-eq, looks_full-eq}
use lowlatency_exec_core.Ring.{capacity, check_room, check_items, slot}
use lowlatency_exec_core.Ring.System.{writing, Reach, System, word, reading}
use lowlatency_exec_core.Ring.Invariant.{HasItem, slots_apart, HasRoom, slot-word}
use lowlatency_exec_core.Common.{
  ◌^◌, ◌+◌, ◌∙◌, ◌↔◌, sym, ◌≢◌, false, ◌≡◌, arith, ap, ℕ, subst, ◌<◌, ◌≤◌, refl,
}

module _ {A : Type 0} (k : ℕ) (small : k ≤ 63) {fill : A} {s : System A} (r : Reach k fill s) where
  -- In every state that one producer and one consumer reach, whatever the interleaving of their
  -- accesses and for a capacity of 2 ^ k with k at most 63: the item popped as number i is the one
  -- pushed as number i, no item is popped before it is pushed, and at most Capacity items are
  -- between the two.
  pub received-sent :
      ((i : ℕ) → i < s.popped → s.received i ≡ s.sent i)
      × (s.popped ≤ s.pushed)
      × (s.pushed ≤ s.popped + capacity k)
  unfolding capacity
  received-sent =
      let v = Reach-Inv k small r in (v.fifo, omega (arith, v.order), omega (arith, v.order))

  -- In every state that the two threads reach, for a capacity of 2 ^ k with k at most 63: where the
  -- producer is about to write a slot and the consumer is about to read one, the slots differ.
  pub no_race :
      (item : A)
      → s.producer ≡ writing item
      → s.consumer ≡ reading
      → slot k s.ring.tail ≢ slot k s.ring.head
  no_race item at_write at_read =
      let v = Reach-Inv k small r in
      let room : s.pushed < s.known_popped + 2 ^ k =
        subst (HasRoom k s.pushed s.known_popped s.ring.buffer) at_write v.room in
      let ready : s.popped < s.known_pushed =
        subst (HasItem s.popped s.known_pushed s.sent) at_read v.item in
      let apart =
        slots_apart (2 ^ k) s.popped s.pushed (omega (arith, v.order)) (omega (arith, v.order)) in
      λ same. apart (
        sym (ap (slot k) v.head ∙ slot-word k s.popped small)
        ∙ (sym same ∙ (ap (slot k) v.tail ∙ slot-word k s.pushed small)))

  -- `check_room` against the counts.
  pub check_room_full :
      (h : ℕ)
      → s.known_popped ≤ h
      → h ≤ s.popped
      → ((check_room k (word h) s.ring).0 ≡ false) ↔ (s.pushed ≡ h + capacity k)
  unfolding check_room capacity
  check_room_full h lo hi =
      let v = Reach-Inv k small r in
      let now =
        looks_full-eq k small s.ring s.pushed s.known_popped v.tail v.head_cached
          (omega (arith, v.order)) (omega (arith, v.order)) in
      let fresh =
        looks_full-eq k small (record (s.ring) { head_cached = word h }) s.pushed h v.tail refl
          (omega (arith, v.order)) (omega (arith, v.order)) in
      rw now (rw fresh (ground (arith, v.order)))

  -- `check_items` against the counts.
  pub check_items_empty :
      (t : ℕ)
      → s.known_pushed ≤ t
      → t ≤ s.pushed
      → ((check_items k (word t) s.ring).0 ≡ false) ↔ (s.popped ≡ t)
  unfolding check_items
  check_items_empty t lo hi =
      let v = Reach-Inv k small r in
      let now =
        looks_empty-eq k small s.ring s.popped s.known_pushed v.head v.tail_cached
          (omega (arith, v.order)) (omega (arith, v.order)) in
      let fresh =
        looks_empty-eq k small (record (s.ring) { tail_cached = word t }) s.popped t v.head refl
          (omega (arith, v.order)) (omega (arith, v.order)) in
      rw now (rw fresh (ground (arith, v.order)))

  -- In every state that the two threads reach, for a capacity of 2 ^ k with k at most 63, for each
  -- count h of pops that the producer can load and each count t of pushes that the consumer can
  -- load: try_push finds no room exactly where the pushes are Capacity ahead of h, and try_pop
  -- finds no item exactly where t items have been popped.
  pub checks_exact :
      (h t : ℕ)
      → s.known_popped ≤ h
      → h ≤ s.popped
      → s.known_pushed ≤ t
      → t ≤ s.pushed
      → (((check_room k (word h) s.ring).0 ≡ false) ↔ (s.pushed ≡ h + capacity k))
        × (((check_items k (word t) s.ring).0 ≡ false) ↔ (s.popped ≡ t))
  checks_exact h t lo hi lo' hi' = (check_room_full h lo hi, check_items_empty t lo' hi')
