-- ===== src/Latency/Sort.antt =====
-- Sorted samples: `std::sort` keeps how many samples lie below a value, and in a sorted list the
-- position of a sample tells it.
use lowlatency_exec_core.Latency.{insert, sort}
use lowlatency_exec_core.Common.{
  le_trans, Bool-cases, ◌≤◌, ◌∷◌, arith, suc, ◌≡◌, [], refl, ltb, List, All, inl, ◌<◌,
  if◌then◌else◌, All-weaken, inr, zero, length, ℕ, ◌+◌, get_or, leb,
}

-- How many samples are at most `v`, and how many are less.
abbrev pub at_most : ℕ → List ℕ → ℕ
at_most v [] = 0
at_most v (x ∷ xs) = (if leb x v then 1 else 0) + at_most v xs

abbrev pub less_than : ℕ → List ℕ → ℕ
less_than v [] = 0
less_than v (x ∷ xs) = (if ltb x v then 1 else 0) + less_than v xs

abbrev pub IsSorted : List ℕ → Type 0
IsSorted [] = Unit
IsSorted (x ∷ xs) = All (λ y. x ≤ y) xs × IsSorted xs

at_most-insert : (w v : ℕ) (xs : List ℕ) → at_most w (insert v xs) ≡ at_most w (v ∷ xs)
unfolding insert
at_most-insert w v [] = refl
at_most-insert w v (x ∷ xs) = ground (arith, at_most-insert w v xs)

less_than-insert : (w v : ℕ) (xs : List ℕ) → less_than w (insert v xs) ≡ less_than w (v ∷ xs)
unfolding insert
less_than-insert w v [] = refl
less_than-insert w v (x ∷ xs) = ground (arith, less_than-insert w v xs)

length-insert : (v : ℕ) (xs : List ℕ) → length (insert v xs) ≡ suc (length xs)
unfolding insert
length-insert v [] = refl
length-insert v (x ∷ xs) = ground (arith, length-insert v xs)

pub at_most-sort : (w : ℕ) (xs : List ℕ) → at_most w (sort xs) ≡ at_most w xs
unfolding sort
at_most-sort w [] = refl
at_most-sort w (x ∷ xs) = omega (arith, at_most-insert w x (sort xs), at_most-sort w xs)

pub less_than-sort : (w : ℕ) (xs : List ℕ) → less_than w (sort xs) ≡ less_than w xs
unfolding sort
less_than-sort w [] = refl
less_than-sort w (x ∷ xs) = omega (arith, less_than-insert w x (sort xs), less_than-sort w xs)

pub length-sort : (xs : List ℕ) → length (sort xs) ≡ length xs
unfolding sort
length-sort [] = refl
length-sort (x ∷ xs) = omega (arith, length-insert x (sort xs), length-sort xs)

All-insert {κ} : (P : ℕ → Type κ) (v : ℕ) (xs : List ℕ) → P v → All P xs → All P (insert v xs)
unfolding insert
All-insert P v [] h k = (h, tt)
All-insert P v (x ∷ xs) h k = elim (Bool-cases (leb v x)) [
  | inl first ↦ rw first (h, k)
  | inr later ↦ rw later (k.0, All-insert P v xs h k.1)
]

insert-IsSorted : (v : ℕ) (xs : List ℕ) → IsSorted xs → IsSorted (insert v xs)
unfolding insert
insert-IsSorted v [] h = (tt, tt)
insert-IsSorted v (x ∷ xs) h = elim (Bool-cases (leb v x)) [
  | inl first ↦
      let le : v ≤ x = ground arith in rw first ((le, All-weaken (λ y k. le_trans le k) xs h.0), h)
  | inr later ↦
      let le : x ≤ v = ground arith in
      rw later (All-insert (λ y. x ≤ y) v xs le h.0, insert-IsSorted v xs h.1)
]

pub sort-IsSorted : (xs : List ℕ) → IsSorted (sort xs)
unfolding sort
sort-IsSorted [] = tt
sort-IsSorted (x ∷ xs) = insert-IsSorted x (sort xs) (sort-IsSorted xs)

-- Samples that all are at least `v` are none of them less.
pub less_than-none : (v : ℕ) (xs : List ℕ) → All (λ y. v ≤ y) xs → less_than v xs ≡ 0
less_than-none v [] h = refl
less_than-none v (x ∷ xs) h = ground (arith, less_than-none v xs h.1)

get_or_above : (v i : ℕ) (xs : List ℕ) → i < length xs → All (λ y. v ≤ y) xs → v ≤ get_or xs i 0
get_or_above v i [] h k = absurd (omega arith)
get_or_above v zero (x ∷ xs) h k = k.0
get_or_above v (suc i) (x ∷ xs) h k = get_or_above v i xs (omega arith) k.1

-- The sample at index `i`: more than `i` samples are at most it, at most `i` are less.
pub get_or_rank :
    (i : ℕ) (xs : List ℕ)
    → IsSorted xs
    → i < length xs
    → (i < at_most (get_or xs i 0) xs) × (less_than (get_or xs i 0) xs ≤ i)
get_or_rank i [] s h = absurd (omega arith)
get_or_rank zero (x ∷ xs) s h = ground (arith, less_than-none x xs s.0)
get_or_rank (suc i) (x ∷ xs) s h =
    ground (arith, get_or_rank i xs s.1, get_or_above x i xs (omega arith) s.0)
