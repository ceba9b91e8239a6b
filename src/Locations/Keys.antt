-- ===== src/Locations/Keys.antt =====
-- The index with distinct ids: what it answers does not depend on the order of its entries.
use mathlib.Core.List.Permᴰ
use lowlatency_exec_core.Common.{
  Permᴰ, map, [], none, List, ◌≡◌, ◌∷◌, ◌∙◌, arith, refl, false, ◌==◌, inl, Bool-cases, inr,
}
use lowlatency_exec_core.Slab.Pool.{has, Distinct}
use lowlatency_exec_core.Slab.Used.{Distinct-Permᴰ}
use lowlatency_exec_core.Types.{OrderId}
use lowlatency_exec_core.Locations.{OrderLocation, Locations, lookup, forget}

abbrev pub keys : Locations → List OrderId
keys m = map (λ entry. entry.0) m

pub lookup_absent : (id : OrderId) (m : Locations) → has id (keys m) ≡ false → lookup id m ≡ none
unfolding lookup
lookup_absent id [] h = refl
lookup_absent id ((k, v) ∷ m) h = ground (arith, lookup_absent id m)

pub lookup-none : (id : OrderId) (m : Locations) → lookup id m ≡ none → has id (keys m) ≡ false
unfolding lookup
lookup-none id [] h = refl
lookup-none id ((k, v) ∷ m) h = ground (arith, lookup-none id m)

pub lookup-forget :
    (id k : OrderId) (m : Locations) → (k == id) ≡ false → lookup k (forget id m) ≡ lookup k m
unfolding lookup forget
lookup-forget id k [] h = refl
lookup-forget id k ((j, v) ∷ m) h = elim (Bool-cases (j == id)) [
  | inl here ↦
      let other : (j == k) ≡ false = ground (arith, here, h) in
      rw (here, other) (lookup-forget id k m h)
  | inr past ↦ rw (past, lookup-forget id k m h) refl
]

pub forget_absent : (id : OrderId) (m : Locations) → has id (keys m) ≡ false → forget id m ≡ m
unfolding forget
forget_absent id [] h = refl
forget_absent id ((k, v) ∷ m) h = ground (arith, forget_absent id m)

pub forget_head :
    (id : OrderId) (loc : OrderLocation) (m : Locations)
    → has id (keys m) ≡ false
    → forget id ((id, loc) ∷ m) ≡ m
unfolding forget
forget_head id loc m h = ground (arith, forget_absent id m)

pub forget-Permᴰ :
    (id : OrderId) {m m' : Locations} → Permᴰ m m' → Permᴰ (forget id m) (forget id m')
unfolding forget
forget-Permᴰ id Permᴰ.nil = Permᴰ.nil
forget-Permᴰ id (Permᴰ.cons {a} {b} e r) = rw e (elim (Bool-cases (b.0 == id)) [
  | inl here ↦ rw here (forget-Permᴰ id r)
  | inr on ↦ rw on (Permᴰ.cons refl (forget-Permᴰ id r))
])
forget-Permᴰ id (Permᴰ.swap {a} {b} {a'} {b'} e f) =
    rw (e, f)
      (elim (Bool-cases (a'.0 == id)) [
        | inl first ↦ rw first (Permᴰ.refl _)
        | inr no_first ↦ elim (Bool-cases (b'.0 == id)) [
          | inl second ↦ rw (no_first, second) (Permᴰ.refl _)
          | inr neither ↦ rw (no_first, neither) (Permᴰ.swap refl refl)
        ]
      ])
forget-Permᴰ id (Permᴰ.trans q r) = Permᴰ.trans (forget-Permᴰ id q) (forget-Permᴰ id r)

pub lookup-Permᴰ :
    (id : OrderId) {m m' : Locations} → Permᴰ m m' → Distinct (keys m) → lookup id m ≡ lookup id m'
unfolding lookup
lookup-Permᴰ id Permᴰ.nil h = refl
lookup-Permᴰ id (Permᴰ.cons e r) h = rw (e, lookup-Permᴰ id r h.1) refl
lookup-Permᴰ id (Permᴰ.swap {a} {b} {a'} {b'} {l} e f) h =
    let apart : (b'.0 == a'.0) ≡ false = rw (← e, ← f) (ground (arith, h.0)) in
    rw (e, f) (ground (arith, apart))
lookup-Permᴰ id (Permᴰ.trans q r) h =
    lookup-Permᴰ id q h ∙ lookup-Permᴰ id r (Distinct-Permᴰ (Permᴰ.map (λ entry. entry.0) q) h)
