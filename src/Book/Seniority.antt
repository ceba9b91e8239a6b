-- ===== src/Book/Seniority.antt =====
-- Time priority by `RestingOrder::sequence`: on each level the orders stand in the order in which
-- they arrived.
use lowlatency_exec_core.Common.{
  ℕ, ◌≡◌, subst, some, none, [], ◌∷◌, ◌++◌, ◌+◌, ◌<◌, ◌≤◌, arith, All, All-weaken, Bool-cases,
  Option-cases, inl, inr, ◌==◌,
}
use lowlatency_exec_core.Types.{Price, Quantity}
use lowlatency_exec_core.Slab.{Ptr}
use lowlatency_exec_core.Levels.{OrderNode, PriceLevel, Levels, find, level_at, unlink}
use lowlatency_exec_core.Book.{OrderBook, Taker, Engine, fill_level, sweep}
use lowlatency_exec_core.Book.Loops.{fill_level_rule, sweep_rule}
use lowlatency_exec_core.Book.Valid.{All-find}
use lowlatency_exec_core.Book.Removal.{All-unlink}

-- The numbers of the orders grow from the head on and are below `hi`.
abbrev pub IsSenior : ℕ → PriceLevel → Type 0
IsSenior hi [] = Unit
IsSenior hi (n ∷ ns) =
    (n.order.sequence < hi) × All (λ k. n.order.sequence < k.order.sequence) ns × IsSenior hi ns

abbrev pub SideSenior : ℕ → Levels → Type 0
SideSenior hi ls = All (λ entry. IsSenior hi entry.1) ls

-- Each level of the book is in the order of arrival, and the next number is above all of them.
abbrev pub InOrder : OrderBook → Type 0
InOrder b = SideSenior b.next_sequence b.bids × SideSenior b.next_sequence b.asks

IsSenior-weaken : (lo hi : ℕ) (ns : PriceLevel) → lo ≤ hi → IsSenior lo ns → IsSenior hi ns
IsSenior-weaken lo hi [] h v = tt
IsSenior-weaken lo hi (n ∷ ns) h v = (omega (arith, v.0, h), v.1, IsSenior-weaken lo hi ns h v.2)

pub SideSenior-weaken : (lo hi : ℕ) (ls : Levels) → lo ≤ hi → SideSenior lo ls → SideSenior hi ls
SideSenior-weaken lo hi ls h v = All-weaken (λ entry k. IsSenior-weaken lo hi entry.1 h k) ls v

pub IsSenior-snoc :
    (hi : ℕ) (ns : PriceLevel) (n : OrderNode)
    → n.order.sequence ≡ hi
    → IsSenior hi ns
    → IsSenior (hi + 1) (ns ++ n ∷ [])
IsSenior-snoc hi [] n e v = (omega (arith, e), tt, tt)
IsSenior-snoc hi (k ∷ ns) n e v =
    (omega (arith, v.0), behind k.order.sequence ns v.0 v.1, IsSenior-snoc hi ns n e v.2)
  where
    behind :
        (lo : ℕ) (ms : PriceLevel)
        → lo < hi
        → All (λ j. lo < j.order.sequence) ms
        → All (λ j. lo < j.order.sequence) (ms ++ n ∷ [])
    behind lo [] h w = (omega (arith, e, h), tt)
    behind lo (m ∷ ms) h w = (w.0, behind lo ms h w.1)

-- Orders that leave a level leave the others in their order.
fill_level-IsSenior :
    (hi : ℕ) (t : Taker) (p : Price) (r : Quantity) (level : PriceLevel) (e : Engine)
    → IsSenior hi level
    → IsSenior hi (fill_level t p r level e).rest
fill_level-IsSenior hi t p =
    fill_level_rule t p (λ r level e f. IsSenior hi level → IsSenior hi f.rest) (λ r e v. v)
      (λ r n ns e done v. v) (λ r n ns e f more whole ih v. ih v.2) (λ r n ns e more part v. v)

pub sweep-SideSenior :
    (hi : ℕ) (t : Taker) (r : Quantity) (ls : Levels) (e : Engine)
    → SideSenior hi ls
    → SideSenior hi (sweep t r ls e).rest
sweep-SideSenior hi t =
    sweep_rule t (λ r ls e f. SideSenior hi ls → SideSenior hi f.rest) (λ r ls e h v. v)
      (λ r p level ls e f near emptied ih v. ih v.1)
      (λ r p level ls e near kept v. (fill_level-IsSenior hi t p r level e v.0, v.1))

pub unlink-IsSenior :
    (hi : ℕ) (at : Ptr) (ns rest : PriceLevel)
    → unlink at ns ≡ some rest
    → IsSenior hi ns
    → IsSenior hi rest
unfolding unlink
unlink-IsSenior hi at [] rest h v = cc
unlink-IsSenior hi at (n ∷ ns) rest h v = elim (Bool-cases (n.at == at)) [
  | inl here ↦
      let same : some ns ≡ some rest = rw here at h in
      let named : ns ≡ rest = cc in subst (IsSenior hi) named v.2
  | inr on ↦ elim (Option-cases (unlink at ns)) [
    | inl absent ↦ let clash : none ≡ some rest = rw (on, absent) at h in absurd (missing clash)
    | inr (ms, got) ↦
        let same : some (n ∷ ms) ≡ some rest = rw (on, got) at h in
        let named : n ∷ ms ≡ rest = cc in
        subst (IsSenior hi) named (
          v.0,
          All-unlink (λ k. n.order.sequence < k.order.sequence) at ns got v.1,
          unlink-IsSenior hi at ns ms got v.2,
        )
  ]
]
  where
    missing : none ≡ some rest → ⊥
    missing e = cc

pub level_at-IsSenior :
    (hi : ℕ) (p : Price) (ls : Levels) → SideSenior hi ls → IsSenior hi (level_at p ls)
unfolding level_at
level_at-IsSenior hi p ls v = elim (Option-cases (find p ls)) [
  | inl absent ↦ rw (absent, level_at) tt
  | inr (level, found) ↦ rw (found, level_at) (All-find (λ entry. IsSenior hi entry.1) p ls found v)
]
