-- ===== src/Ring/Pops.antt =====
-- The consumer's steps keep the invariant of the ring.
use lowlatency_exec_core.Ring.Invariant.{Inv, HasItem, slot-word}
use lowlatency_exec_core.Words.{add64}
use lowlatency_exec_core.Ring.{looks_empty, slot, publish_head, check_items, read_slot}
use lowlatency_exec_core.Ring.System.{
  word, System, reading, releasing, after_check_items, after_publish_head, after_read,
}
use lowlatency_exec_core.Common.{
  ℕ, ◌≤◌, refl, ◌≡◌, ◌^◌, arith, subst, ap, ◌∙◌, ◌%◌, inr, ◌<◌, Bool-cases, inl,
}
use lowlatency_exec_core.Ring.Counters.{looks_empty-eq, add64-word}

module _ {A : Type 0} (k : ℕ) (small : k ≤ 63) (s : System A) (v : Inv k s) where
  pub pop_starts-Inv : (t : ℕ) → s.known_pushed ≤ t → t ≤ s.pushed → Inv k (after_check_items k t s)
  unfolding check_items
  pop_starts-Inv t lo hi =
      let now =
        looks_empty-eq k small s.ring s.popped s.known_pushed v.head v.tail_cached
          (omega (arith, v.order)) (omega (arith, v.order)) in
      let fresh =
        looks_empty-eq k small (record (s.ring) { tail_cached = word t }) s.popped t v.head refl
          (omega (arith, v.order)) (omega (arith, v.order)) in
      elim (Bool-cases (looks_empty k s.ring)) [
        | inr some_left ↦ rw some_left (record {
          tail = v.tail;
          head = v.head;
          head_cached = v.head_cached;
          tail_cached = v.tail_cached;
          order = v.order;
          room = v.room;
          item = ground (arith, now, v.order);
          stored = v.stored;
          fifo = v.fifo;
        })
        | inl none_left ↦
            rw none_left
              (elim (Bool-cases (looks_empty k (record (s.ring) { tail_cached = word t }))) [
                | inl still ↦ rw still (record {
                  tail = v.tail;
                  head = v.head;
                  head_cached = v.head_cached;
                  tail_cached = refl;
                  order = omega (arith, v.order);
                  room = v.room;
                  item = tt;
                  stored = v.stored;
                  fifo = v.fifo;
                })
                | inr arrived ↦ rw arrived (record {
                  tail = v.tail;
                  head = v.head;
                  head_cached = v.head_cached;
                  tail_cached = refl;
                  order = omega (arith, v.order);
                  room = v.room;
                  item = ground (arith, fresh, v.order);
                  stored = v.stored;
                  fifo = v.fifo;
                })
              ])
      ]

  pub pop_reads-Inv : s.consumer ≡ reading → Inv k (after_read k s)
  unfolding read_slot
  pop_reads-Inv at =
      let item : s.popped < s.known_pushed =
        subst (HasItem s.popped s.known_pushed s.sent) at v.item in
      let here : slot k s.ring.head ≡ s.popped % 2 ^ k =
        ap (slot k) v.head ∙ slot-word k s.popped small in
      record {
        tail = v.tail;
        head = v.head;
        head_cached = v.head_cached;
        tail_cached = v.tail_cached;
        order = v.order;
        room = v.room;
        item = (
          item,
          ap s.ring.buffer here ∙ v.stored s.popped (omega arith) (omega (arith, v.order)),
        );
        stored = v.stored;
        fifo = v.fifo;
      }

  pub pop_ends-Inv : (w : A) → s.consumer ≡ releasing w → Inv k (after_publish_head k w s)
  unfolding publish_head
  pop_ends-Inv w at =
      let item = subst (HasItem s.popped s.known_pushed s.sent) at v.item in
      record {
        tail = v.tail;
        head = ap (λ t. add64 t 1) v.head ∙ add64-word s.popped;
        head_cached = v.head_cached;
        tail_cached = v.tail_cached;
        order = omega (arith, v.order, item.0);
        room = v.room;
        item = tt;
        stored = λ i lo hi. v.stored i (omega arith) hi;
        fifo = λ i h. ground (arith, v.fifo i, item.1);
      }
