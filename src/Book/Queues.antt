-- ===== src/Book/Queues.antt =====
-- The queue of a side with one order more, and without it.

use lowlatency_exec_core.Common.{
  ◌≡◌, ◌∙◌, refl, sym, ap, subst, true, false, none, some, List, [], ◌∷◌, ◌++◌, ◌==◌, ◌||◌, map,
  map-append, append_assoc, if◌then◌else◌, arith, Bool-cases, Option-cases, inl, inr,
}
use lowlatency_exec_core.Types.{Side, OrderId, Price, RestingOrder}
use lowlatency_exec_core.Slab.{Ptr}
use lowlatency_exec_core.Slab.Pool.{has}
use lowlatency_exec_core.Levels.{PriceLevel, Levels, find, unlink, is_empty, before, same_price}
use lowlatency_exec_core.Locations.Keys.{keys}
use lowlatency_exec_core.Book.Valid.{IsSorted, same_price-eq, All-find}
use lowlatency_exec_core.Book.Priority.{Queue, queue, queue_level}
use lowlatency_exec_core.Book.Tracked.{entries, side_entries}
use lowlatency_exec_core.Book.Untracked.{without, has-append}
use lowlatency_exec_core.Book.Restored.{without_first, without_later}

-- A queue without the order `id`.
abbrev pub withdraw : OrderId → Queue → Queue
withdraw id [] = []
withdraw id ((p, o) ∷ q) = if o.id == id then withdraw id q else (p, o) ∷ withdraw id q

abbrev pub ids : Queue → List OrderId
ids q = map (λ e. e.1.id) q

ids-queue_level :
    (s : Side) (p : Price) (ns : PriceLevel) → ids (queue_level p ns) ≡ keys (entries s p ns)
ids-queue_level s p [] = refl
ids-queue_level s p (n ∷ ns) = ap (λ xs. n.order.id ∷ xs) (ids-queue_level s p ns)

pub ids-queue : (s : Side) (ls : Levels) → ids (queue ls) ≡ keys (side_entries s ls)
ids-queue s [] = refl
ids-queue s ((p, level) ∷ ls) =
    map-append (λ e. e.1.id) (queue_level p level) (queue ls)
    ∙ (rw (ids-queue_level s p level, ids-queue s ls) refl
        ∙ sym (map-append (λ entry. entry.0) (entries s p level) (side_entries s ls)))

-- The queue `q` has one order more than `q'`, between two parts of it.
pub record OneMore (q q' : Queue) : Type 0 where
  pub front : Queue
  pub order : Price × RestingOrder
  pub back : Queue
  pub more : q ≡ front ++ order ∷ back
  pub less : q' ≡ front ++ back

under : (e : Price × RestingOrder) {q q' : Queue} → OneMore q q' → OneMore (e ∷ q) (e ∷ q')
under e v = record {
  front = e ∷ v.front;
  order = v.order;
  back = v.back;
  more = ap (λ xs. e ∷ xs) v.more;
  less = ap (λ xs. e ∷ xs) v.less;
}

behind : (xs : Queue) {q q' : Queue} → OneMore q q' → OneMore (xs ++ q) (xs ++ q')
behind [] v = v
behind (e ∷ xs) v = under e (behind xs v)

ahead : (ys : Queue) {q q' : Queue} → OneMore q q' → OneMore (q ++ ys) (q' ++ ys)
ahead ys v = record {
  front = v.front;
  order = v.order;
  back = v.back ++ ys;
  more = ap (λ xs. xs ++ ys) v.more ∙ append_assoc v.front (v.order ∷ v.back) ys;
  less = ap (λ xs. xs ++ ys) v.less ∙ append_assoc v.front v.back ys;
}

unlink-OneMore :
    (p : Price) (at : Ptr) (level rest : PriceLevel)
    → unlink at level ≡ some rest
    → OneMore (queue_level p level) (queue_level p rest)
unfolding unlink
unlink-OneMore p at [] rest h = absurd (nothing h)
  where
    nothing : {A : Type 0} {x : A} → none ≡ some x → ⊥
    nothing e = cc
unlink-OneMore p at (n ∷ ns) rest h = elim (Bool-cases (n.at == at)) [
  | inl here ↦
      let same : some ns ≡ some rest = rw here at h in
      let tail : ns ≡ rest = cc in
      subst (λ ms. OneMore ((p, n.order) ∷ queue_level p ns) (queue_level p ms)) tail
        (record {
          front = [];
          order = (p, n.order);
          back = queue_level p ns;
          more = refl;
          less = refl;
        })
  | inr past ↦ elim (Option-cases (unlink at ns)) [
    | inl gone ↦ let clash : none ≡ some rest = rw (past, gone) at h in cc
    | inr (ms, e) ↦
        let same : some (n ∷ ms) ≡ some rest = rw (past, e) at h in
        let tail : n ∷ ms ≡ rest = cc in
        subst (λ xs. OneMore ((p, n.order) ∷ queue_level p ns) (queue_level p xs)) tail
          (under (p, n.order) (unlink-OneMore p at ns ms e))
  ]
]

-- The side without the node has one order less.
pub without-OneMore :
    (s : Side) (p : Price) (at : Ptr) (level rest : PriceLevel) (ls : Levels)
    → IsSorted s ls
    → find p ls ≡ some level
    → unlink at level ≡ some rest
    → OneMore (queue ls) (queue (without s p rest ls))
unfolding find
without-OneMore s p at level rest [] v h out = absurd (nothing h)
  where
    nothing : {A : Type 0} {x : A} → none ≡ some x → ⊥
    nothing e = cc
without-OneMore s p at level rest ((q, m) ∷ ls) v h out = elim (Bool-cases (same_price p q)) [
  | inl here ↦
      let found : some m ≡ some level = rw here at h in
      let same : m ≡ level = cc in
      subst (λ r. OneMore (queue ((r, m) ∷ ls)) (queue (without s p rest ((r, m) ∷ ls))))
        (same_price-eq p q here)
        (subst (OneMore (queue ((p, m) ∷ ls)))
          (sym (ap queue (without_first s p rest m ls) ∙ first_queue rest))
          (subst (λ l. OneMore (queue_level p l ++ queue ls) (queue_level p rest ++ queue ls))
            (sym same) (ahead (queue ls) (unlink-OneMore p at level rest out))))
  | inr past ↦
      let found : find p ls ≡ some level = rw past at h in
      let later = All-find (λ entry. before s q entry.0 ≡ true) p ls found v.0 in
      subst (OneMore (queue ((q, m) ∷ ls))) (sym (ap queue (without_later s p rest q m ls later)))
        (behind (queue_level q m) (without-OneMore s p at level rest ls v.1 found out))
]
  where
    first_queue :
        (r : PriceLevel)
        → queue (if is_empty r then ls else (p, r) ∷ ls) ≡ queue_level p r ++ queue ls
    first_queue [] = refl
    first_queue (n ∷ ns) = refl

pub withdraw_absent : (id : OrderId) (q : Queue) → has id (ids q) ≡ false → withdraw id q ≡ q
withdraw_absent id [] h = refl
withdraw_absent id ((p, o) ∷ q) h =
    let other : (o.id == id) ≡ false = ground (arith, h) in
    rw (other, withdraw_absent id q (ground (arith, h))) refl

withdraw-append :
    (id : OrderId) (xs ys : Queue) → withdraw id (xs ++ ys) ≡ withdraw id xs ++ withdraw id ys
withdraw-append id [] ys = refl
withdraw-append id ((p, o) ∷ xs) ys = elim (Bool-cases (o.id == id)) [
  | inl here ↦ rw (here, withdraw-append id xs ys) refl
  | inr past ↦ rw (past, withdraw-append id xs ys) refl
]

has-ids-append :
    (id : OrderId) (xs ys : Queue) → has id (ids (xs ++ ys)) ≡ (has id (ids xs) || has id (ids ys))
has-ids-append id xs ys =
    ap (has id) (map-append (λ e. e.1.id) xs ys) ∙ has-append id (ids xs) (ids ys)

-- The one order more is that of `id`.
pub withdraw-OneMore :
    (id : OrderId) (q q' : Queue)
    → OneMore q q'
    → has id (ids q) ≡ true
    → has id (ids q') ≡ false
    → withdraw id q ≡ q'
withdraw-OneMore id q q' v there gone =
    let split : (has id (ids v.front) || has id (ids v.back)) ≡ false =
      sym (ap (λ x. has id (ids x)) v.less ∙ has-ids-append id v.front v.back) ∙ gone in
    let whole : (has id (ids v.front) || has id (ids (v.order ∷ v.back))) ≡ true =
      sym (ap (λ x. has id (ids x)) v.more ∙ has-ids-append id v.front (v.order ∷ v.back))
      ∙ there in
    let itself : (v.order.1.id == id) ≡ true = ground (arith, split, whole) in
    ap (withdraw id) v.more
    ∙ (withdraw-append id v.front (v.order ∷ v.back)
        ∙ (rw
              (
                itself,
                withdraw_absent id v.front (ground (arith, split)),
                withdraw_absent id v.back (ground (arith, split)),
              )
              refl
            ∙ sym v.less))
