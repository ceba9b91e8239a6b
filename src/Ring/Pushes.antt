-- ===== src/Ring/Pushes.antt =====
-- The producer's steps keep the invariant of the ring.
use lowlatency_exec_core.Ring.Invariant.{Inv, slots_apart, HasItem, slot-word, HasRoom}
use lowlatency_exec_core.Words.{add64}
use lowlatency_exec_core.Ring.{check_room, publish_tail, looks_full, write_slot, put, slot}
use lowlatency_exec_core.Ring.System.{
  after_write, after_publish_tail, publishing, word, after_check_room, System, writing, waiting,
  reading, Consumer, releasing,
}
use lowlatency_exec_core.Common.{
  ℕ, ◌≤◌, refl, ◌+◌, ◌≡◌, ◌^◌, arith, subst, ap, ◌∙◌, ◌%◌, inr, ◌<◌, Bool-cases, inl,
}
use lowlatency_exec_core.Ring.Counters.{looks_full-eq, add64-word}

-- What the consumer holds is older than the item that is sent next.
HasItem-put :
    {A : Type 0} (popped known pushed : ℕ) (sent : ℕ → A) (item : A) (c : Consumer A)
    → known ≤ pushed
    → HasItem popped known sent c
    → HasItem popped known (put sent pushed item) c
HasItem-put popped known pushed sent item waiting le h = tt
HasItem-put popped known pushed sent item reading le h = h
HasItem-put popped known pushed sent item (releasing v) le h = (h.0, ground (arith, h.0, h.1))

module _ {A : Type 0} (k : ℕ) (small : k ≤ 63) (s : System A) (v : Inv k s) where
  pub push_starts-Inv :
      (item : A) (h : ℕ) → s.known_popped ≤ h → h ≤ s.popped → Inv k (after_check_room k item h s)
  unfolding check_room
  push_starts-Inv item h lo hi =
      let now =
        looks_full-eq k small s.ring s.pushed s.known_popped v.tail v.head_cached
          (omega (arith, v.order)) (omega (arith, v.order)) in
      let then' =
        looks_full-eq k small (record (s.ring) { head_cached = word h }) s.pushed h v.tail refl
          (omega (arith, v.order)) (omega (arith, v.order)) in
      elim (Bool-cases (looks_full k s.ring)) [
        | inr room ↦ rw room (record {
          tail = v.tail;
          head = v.head;
          head_cached = v.head_cached;
          tail_cached = v.tail_cached;
          order = v.order;
          room = ground (arith, now, v.order);
          item = v.item;
          stored = v.stored;
          fifo = v.fifo;
        })
        | inl full ↦
            rw full (elim (Bool-cases (looks_full k (record (s.ring) { head_cached = word h }))) [
              | inl still ↦ rw still (record {
                tail = v.tail;
                head = v.head;
                head_cached = refl;
                tail_cached = v.tail_cached;
                order = omega (arith, v.order);
                room = tt;
                item = v.item;
                stored = v.stored;
                fifo = v.fifo;
              })
              | inr freed ↦ rw freed (record {
                tail = v.tail;
                head = v.head;
                head_cached = refl;
                tail_cached = v.tail_cached;
                order = omega (arith, v.order);
                room = ground (arith, then', v.order);
                item = v.item;
                stored = v.stored;
                fifo = v.fifo;
              })
            ])
      ]

  pub push_writes-Inv : (item : A) → s.producer ≡ writing item → Inv k (after_write k item s)
  unfolding write_slot
  push_writes-Inv item at =
      let room : s.pushed < s.known_popped + 2 ^ k =
        subst (HasRoom k s.pushed s.known_popped s.ring.buffer) at v.room in
      let here : slot k s.ring.tail ≡ s.pushed % 2 ^ k =
        ap (slot k) v.tail ∙ slot-word k s.pushed small in
      record {
        tail = v.tail;
        head = v.head;
        head_cached = v.head_cached;
        tail_cached = v.tail_cached;
        order = v.order;
        room = (room, ground (arith, here));
        item = v.item;
        stored = λ i lo hi. ground (
          arith,
          here,
          v.stored i lo hi,
          slots_apart (2 ^ k) i s.pushed hi (omega (arith, v.order)),
        );
        fifo = v.fifo;
      }

  pub push_ends-Inv :
      (item : A) → s.producer ≡ publishing item → Inv k (after_publish_tail k item s)
  unfolding publish_tail
  push_ends-Inv item at =
      let room = subst (HasRoom k s.pushed s.known_popped s.ring.buffer) at v.room in
      record {
        tail = ap (λ t. add64 t 1) v.tail ∙ add64-word s.pushed;
        head = v.head;
        head_cached = v.head_cached;
        tail_cached = v.tail_cached;
        order = omega (arith, v.order, room.0);
        room = tt;
        item =
            HasItem-put s.popped s.known_pushed s.pushed s.sent item s.consumer
              (omega (arith, v.order)) v.item;
        stored = λ i lo hi. ground (arith, room.1, v.stored i lo);
        fifo = λ i h. ground (arith, v.fifo i h, v.order);
      }
