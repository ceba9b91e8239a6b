-- ===== src/Book/Valid.antt =====
-- When the levels of a side are well formed, and what the map's operations keep of that.
use lowlatency_exec_core.Common.{
  ◌≡◌, sym, subst, true, false, [], ◌∷◌, arith, Bool-cases, inl, inr, All, All-weaken, some,
}
use lowlatency_exec_core.Types.{Side, buy, sell, Price}
use lowlatency_exec_core.Levels.{
  OrderNode, PriceLevel, Levels, before, same_price, is_empty, find, put_level, erase_level,
}
use lowlatency_exec_core.Book.{is_positive}

-- The price of each level stands before those of the levels behind it.
abbrev pub IsSorted : Side → Levels → Type 0
IsSorted s [] = Unit
IsSorted s ((p, level) ∷ ls) = All (λ entry. before s p entry.0 ≡ true) ls × IsSorted s ls

-- An order with lots, in a level of its own price.
abbrev pub IsResting : Price → OrderNode → Type 0
IsResting p n = (is_positive n.order.quantity ≡ true) × (n.order.price ≡ p)

abbrev pub IsLevel : Price × PriceLevel → Type 0
IsLevel entry = (is_empty entry.1 ≡ false) × All (IsResting entry.0) entry.1

pub record IsSide (s : Side) (ls : Levels) : Type 0 where
  pub sorted : IsSorted s ls
  pub levels : All IsLevel ls

-- `Q` of the price of each level.
abbrev pub Prices {κ} : (Price → Type κ) → Levels → Type κ
Prices Q = All (λ entry. Q entry.0)

pub before_trans :
    (s : Side) (p q r : Price) → before s p q ≡ true → before s q r ≡ true → before s p r ≡ true
before_trans buy p q r h k = ground arith
before_trans sell p q r h k = ground arith

pub same_price-before : (s : Side) (p q : Price) → before s p q ≡ true → same_price p q ≡ false
same_price-before buy p q h = ground arith
same_price-before sell p q h = ground arith

pub same_price-eq : (p q : Price) → same_price p q ≡ true → p ≡ q
same_price-eq p q h = ground arith

-- Neither stands before the other: one price.
pub before_neither : (s : Side) (p q : Price) → before s p q ≡ false → before s q p ≡ false → p ≡ q
before_neither buy p q h k = ground arith
before_neither sell p q h k = ground arith

module _ {κ} (Q : Price → Type κ) (s : Side) (p : Price) (level : PriceLevel) where
  pub Prices-put_level : (ls : Levels) → Q p → Prices Q ls → Prices Q (put_level s p level ls)
  unfolding put_level
  Prices-put_level [] h k = (h, tt)
  Prices-put_level ((q, m) ∷ ls) h k = elim (Bool-cases (before s p q)) [
    | inl first ↦ rw first (h, k)
    | inr later ↦ elim (Bool-cases (before s q p)) [
      | inl behind ↦ rw (later, behind) (k.0, Prices-put_level ls h k.1)
      | inr here ↦ rw (later, here) (h, k.1)
    ]
  ]

module _ (s : Side) (p : Price) (level : PriceLevel) where
  pub IsSorted-put_level : (ls : Levels) → IsSorted s ls → IsSorted s (put_level s p level ls)
  unfolding put_level
  IsSorted-put_level [] h = (tt, tt)
  IsSorted-put_level ((q, m) ∷ ls) h = elim (Bool-cases (before s p q)) [
    | inl first ↦
        rw first ((first, All-weaken (λ entry k. before_trans s p q entry.0 first k) ls h.0), h)
    | inr later ↦ elim (Bool-cases (before s q p)) [
      | inl behind ↦
          rw (later, behind)
            (
              Prices-put_level (λ r. before s q r ≡ true) s p level ls behind h.0,
              IsSorted-put_level ls h.1,
            )
      | inr here ↦ rw (later, here) (rw (before_neither s p q later here) h)
    ]
  ]

  pub All-put_level {κ} :
      (P : Price × PriceLevel → Type κ) (ls : Levels)
      → P (p, level)
      → All P ls
      → All P (put_level s p level ls)
  unfolding put_level
  All-put_level P [] h k = (h, tt)
  All-put_level P ((q, m) ∷ ls) h k = elim (Bool-cases (before s p q)) [
    | inl first ↦ rw first (h, k)
    | inr later ↦ elim (Bool-cases (before s q p)) [
      | inl behind ↦ rw (later, behind) (k.0, All-put_level P ls h k.1)
      | inr here ↦ rw (later, here) (h, k.1)
    ]
  ]

-- What holds of every entry holds of the one that `find` gives.
pub All-find {κ} :
    (P : Price × PriceLevel → Type κ) (p : Price) {level : PriceLevel} (ls : Levels)
    → find p ls ≡ some level
    → All P ls
    → P (p, level)
unfolding find
All-find P p [] h k = cc
All-find P p {level} ((q, m) ∷ ls) h k = elim (Bool-cases (same_price p q)) [
  | inl here ↦
      subst (λ x. P (x, level)) (sym (same_price-eq p q here))
        (subst (λ l. P (q, l)) (found m level (rw here at h)) k.0)
  | inr on ↦ All-find P p ls (rw on at h) k.1
]
  where
    found : (m l : PriceLevel) → some m ≡ some l → m ≡ l
    found m l e = cc

-- The map's `erase` keeps what holds of every entry, and the order.
pub All-erase_level {κ} :
    (P : Price × PriceLevel → Type κ) (p : Price) (ls : Levels)
    → All P ls
    → All P (erase_level p ls)
unfolding erase_level
All-erase_level P p [] k = tt
All-erase_level P p ((q, m) ∷ ls) k = elim (Bool-cases (same_price p q)) [
  | inl here ↦ rw here k.1
  | inr on ↦ rw on (k.0, All-erase_level P p ls k.1)
]

pub IsSorted-erase_level :
    (s : Side) (p : Price) (ls : Levels) → IsSorted s ls → IsSorted s (erase_level p ls)
unfolding erase_level
IsSorted-erase_level s p [] h = tt
IsSorted-erase_level s p ((q, m) ∷ ls) h = elim (Bool-cases (same_price p q)) [
  | inl here ↦ rw here h.1
  | inr on ↦ rw on (
    All-erase_level (λ entry. before s q entry.0 ≡ true) p ls h.0,
    IsSorted-erase_level s p ls h.1,
  )
]
