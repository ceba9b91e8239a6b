-- ===== src/Book/Depth.antt =====
-- Where the sums that the queries of src/order_book.cpp take stay in `std::int64_t`.
use lowlatency_exec_core.Common.{
  ◌≡◌, refl, true, some, [], ◌∷◌, ◌<◌, ◌^◌, ltb, arith, All, ◌∙◌, sym, ap,
}
use lowlatency_exec_core.Common.Int.{pos}
use lowlatency_exec_core.Types.{Price}
use lowlatency_exec_core.Levels.{PriceLevel, Levels, sum_quantity}
use lowlatency_exec_core.Book.Valid.{IsResting, IsLevel}
use lowlatency_exec_core.Book.Queries.{depth}
use lowlatency_exec_core.Book.Checked.{sum_quantity_checked, depth_checked, LevelLots}
use lowlatency_exec_core.Book.Overflow.{lots, in_range, sum_quantity_checked-sum_quantity}

-- The lots of each level are below 2 ^ 63.
abbrev pub SumsFit : Levels → Type 0
SumsFit ls = All (λ entry. lots entry.1 < 2 ^ 63) ls

resting-LevelLots :
    (p : Price) (ns : PriceLevel) → All (IsResting p) ns → lots ns < 2 ^ 63 → LevelLots ns
resting-LevelLots p [] v fits = tt
resting-LevelLots p (n ∷ ns) v fits =
    ((v.0.0, omega (arith, fits)), resting-LevelLots p ns v.1 (omega (arith, fits)))

pub sum_quantity_fits :
    (p : Price) (ns : PriceLevel)
    → IsLevel (p, ns)
    → lots ns < 2 ^ 63
    → sum_quantity_checked ns ≡ some (sum_quantity ns)
sum_quantity_fits p ns v fits =
    let (total, checked) = sum_quantity_checked-sum_quantity ns (resting-LevelLots p ns v.1 fits) in
    let small : ltb (lots ns) (2 ^ 63) ≡ true = ground (arith, fits) in
    let here : in_range (lots ns) ≡ some (pos (lots ns)) = rw small refl in
    checked ∙ (here ∙ ap some (sym total))

pub depth_checked-depth :
    (ls : Levels) → All IsLevel ls → SumsFit ls → depth_checked ls ≡ some (depth ls)
unfolding depth_checked depth
depth_checked-depth [] v fits = refl
depth_checked-depth ((p, ns) ∷ ls) v fits =
    rw (sum_quantity_fits p ns v.0 fits.0, depth_checked)
      (rw (depth_checked-depth ls v.1 fits.1) refl)
