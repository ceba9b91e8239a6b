-- ===== src/LinkedBook/Stands.antt =====
-- When the linked levels of a side of src/order_book.cpp are the lists of nodes that `Book` has, and
-- what writes to other nodes leave of that.
use lowlatency_exec_core.Common.{
  ◌≡◌, refl, ◌∙◌, subst, true, false, none, some, List, [], ◌∷◌, ◌++◌, arith, Bool-cases, inl, inr,
  Option-cases, ◌==◌,
}
use lowlatency_exec_core.Types.{Price}
use lowlatency_exec_core.Slab.{Ptr, null}
use lowlatency_exec_core.Slab.Pool.{has, Distinct}
use lowlatency_exec_core.Levels.{Levels, find, put_level, erase_level, before, same_price}
use lowlatency_exec_core.Levels
use lowlatency_exec_core.Nodes.{Nodes, PriceLevel}
use lowlatency_exec_core.Nodes.Linked.{IsQueue, addresses}
use lowlatency_exec_core.Nodes.Writes.{Linked-agree}
use lowlatency_exec_core.Book.Untracked.{has-append}
use lowlatency_exec_core.LinkedBook.{SideLevels, empty_level, level_at}

-- The levels stand at the same prices, and each is the queue of its list.
abbrev pub Stands : Nodes → SideLevels → Levels → Type 0
Stands m [] [] = Unit
Stands m [] (l ∷ ls) = ⊥
Stands m (k ∷ ks) [] = ⊥
Stands m ((p, level) ∷ ks) ((q, ns) ∷ ls) = (p ≡ q) × IsQueue m level ns × Stands m ks ls

-- The addresses of all nodes of a side.
abbrev pub places : Levels → List Ptr
places [] = []
places ((p, ns) ∷ ls) = addresses ns ++ places ls

-- All nodes outside `ps` are as they were.
abbrev pub Keeps : List Ptr → Nodes → Nodes → Type 0
Keeps ps m m' = (q : Ptr) → has q ps ≡ false → m' q ≡ m q

abbrev pub Within : List Ptr → List Ptr → Type 0
Within ps qs = (q : Ptr) → has q ps ≡ true → has q qs ≡ true

abbrev pub Apart : List Ptr → List Ptr → Type 0
Apart ps qs = (q : Ptr) → has q ps ≡ true → has q qs ≡ false

pub Apart-sym : (ps qs : List Ptr) → Apart ps qs → Apart qs ps
Apart-sym ps qs a q h = elim (Bool-cases (has q ps)) [
  | inr out ↦ out
  | inl inside ↦ let clash = a q inside in absurd (ground (arith, clash, h))
]

pub Within-out : (ps qs : List Ptr) → Within ps qs → (q : Ptr) → has q qs ≡ false → has q ps ≡ false
Within-out ps qs w q out = elim (Bool-cases (has q ps)) [
  | inr h ↦ h
  | inl inside ↦ let clash = w q inside in absurd (ground (arith, clash, out))
]

pub Within-left : (ps qs : List Ptr) → Within ps (ps ++ qs)
Within-left ps qs q h = has-append q ps qs ∙ rw h refl

pub Within-right : (ps qs : List Ptr) → Within qs (ps ++ qs)
Within-right ps qs q h = has-append q ps qs ∙ ground (arith, h)

pub Distinct-Apart : (ps qs : List Ptr) → Distinct (ps ++ qs) → Apart ps qs
Distinct-Apart [] qs d q h = cc
Distinct-Apart (p ∷ ps) qs d q h = elim (Bool-cases (q == p)) [
  | inr on ↦ Distinct-Apart ps qs d.1 q (ground (arith, h, on))
  | inl here ↦
      let same : q ≡ p = ground (arith, here) in
      let out : has p (ps ++ qs) ≡ false = d.0 in rw same (ground (arith, has-append p ps qs, out))
]

pub Distinct_join :
    (ps qs : List Ptr) → Distinct ps → Distinct qs → Apart ps qs → Distinct (ps ++ qs)
Distinct_join [] qs d e a = e
Distinct_join (p ∷ ps) qs d e a =
    let out : has p qs ≡ false = a p (ground arith) in
    (
      has-append p ps qs ∙ ground (arith, d.0, out),
      Distinct_join ps qs d.1 e (λ q h. a q (ground (arith, h))),
    )

module _ (m m' : Nodes) where
  pub IsQueue-agree :
      (level : PriceLevel) (ns : Levels.PriceLevel)
      → ((q : Ptr) → has q (addresses ns) ≡ true → m' q ≡ m q)
      → IsQueue m level ns
      → IsQueue m' level ns
  IsQueue-agree level ns same v = record {
    linked = Linked-agree m m' null level.head ns level.tail same v.linked;
    distinct = v.distinct;
  }

  pub Stands-agree :
      (ks : SideLevels) (ls : Levels)
      → ((q : Ptr) → has q (places ls) ≡ true → m' q ≡ m q)
      → Stands m ks ls
      → Stands m' ks ls
  Stands-agree [] [] same v = tt
  Stands-agree [] (l ∷ ls) same v = v
  Stands-agree (k ∷ ks) [] same v = v
  Stands-agree ((p, level) ∷ ks) ((q, ns) ∷ ls) same v = (
    v.0,
    IsQueue-agree level ns (λ x h. same x (Within-left (addresses ns) (places ls) x h)) v.1,
    Stands-agree ks ls (λ x h. same x (Within-right (addresses ns) (places ls) x h)) v.2,
  )

-- Writes inside `ps` leave a side that stands apart from it.
pub Stands-Keeps :
    (m m' : Nodes) (ps : List Ptr) (ks : SideLevels) (ls : Levels)
    → Apart (places ls) ps
    → Keeps ps m m'
    → Stands m ks ls
    → Stands m' ks ls
Stands-Keeps m m' ps ks ls a k v = Stands-agree m m' ks ls (λ q h. k q (a q h)) v

-- A queue has a head exactly where its list has one.
pub head-is_empty :
    (m : Nodes) (level : PriceLevel) (ns : Levels.PriceLevel)
    → IsQueue m level ns
    → (level.head == null) ≡ Levels.is_empty ns
head-is_empty m level [] v = rw (v.linked.0) refl
head-is_empty m level (n ∷ ns) v = rw (v.linked.0) (v.linked.1)

module _ (m : Nodes) where
  pub empty_level-IsQueue : IsQueue m empty_level []
  empty_level-IsQueue = record { linked = (refl, refl); distinct = tt }

  -- A level stands on the links at the price exactly where it stands in the list.
  pub find-none :
      (p : Price) (ks : SideLevels) (ls : Levels)
      → Stands m ks ls
      → find p ls ≡ none
      → find p ks ≡ none
  unfolding find
  find-none p [] ls v h = refl
  find-none p (k ∷ ks) [] v h = absurd v
  find-none p ((q, level) ∷ ks) ((q', ns) ∷ ls) v h =
      rw (v.0) (elim (Bool-cases (same_price p q')) [
        | inl here ↦ let clash : some ns ≡ none = rw here at h in cc
        | inr past ↦
            let later : find p ls ≡ none = rw past at h in rw past (find-none p ks ls v.2 later)
      ])

  pub find-IsQueue :
      (p : Price) (ks : SideLevels) (ls : Levels) (ns : Levels.PriceLevel)
      → Stands m ks ls
      → find p ls ≡ some ns
      → (level : PriceLevel) × (find p ks ≡ some level) × IsQueue m level ns
  unfolding find
  find-IsQueue p [] [] ns v h = cc
  find-IsQueue p [] (l ∷ ls) ns v h = absurd v
  find-IsQueue p (k ∷ ks) [] ns v h = absurd v
  find-IsQueue p ((q, level) ∷ ks) ((q', ns') ∷ ls) ns v h = elim (Bool-cases (same_price p q')) [
    | inl here ↦
        let same : some ns' ≡ some ns = rw here at h in
        let named : ns' ≡ ns = cc in (level, rw (v.0, here), subst (IsQueue m level) named v.1)
    | inr past ↦
        let later : find p ls ≡ some ns = rw past at h in
        let (found, e, w) = find-IsQueue p ks ls ns v.2 later in (found, rw (v.0, past) e, w)
  ]

  pub level_at-IsQueue :
      (p : Price) (ks : SideLevels) (ls : Levels)
      → Stands m ks ls
      → IsQueue m (level_at p ks) (Levels.level_at p ls)
  unfolding level_at Levels.level_at
  level_at-IsQueue p ks ls v = elim (Option-cases (find p ls)) [
    | inl absent ↦
        rw (absent, find-none p ks ls v absent, level_at, Levels.level_at) empty_level-IsQueue
    | inr (ns, found) ↦
        let (level, e, w) = find-IsQueue p ks ls ns v found in
        rw (found, e, level_at, Levels.level_at) w
  ]
