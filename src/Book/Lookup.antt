-- ===== src/Book/Lookup.antt =====
-- What `find` and `level_at` give in a side that is sorted.

use lowlatency_exec_core.Levels.{find, Levels, level_at, same_price, before, PriceLevel}
use lowlatency_exec_core.Common.{refl, true, false, arith, none, ◌≡◌, [], ◌∷◌}
use lowlatency_exec_core.Types.{Side, buy, sell, Price}
use lowlatency_exec_core.Book.Valid.{Prices, same_price-before}

pub apart_prices : (s : Side) (p q : Price) → before s q p ≡ true → same_price p q ≡ false
apart_prices buy p q h = ground arith
apart_prices sell p q h = ground arith

pub find-before :
    (s : Side) (p : Price) (ls : Levels) → Prices (λ q. before s p q ≡ true) ls → find p ls ≡ none
unfolding find
find-before s p [] h = refl
find-before s p ((q, m) ∷ ls) h = rw (same_price-before s p q h.0) (find-before s p ls h.1)

pub same_price_refl : (p : Price) → same_price p p ≡ true
same_price_refl p = ground arith

pub level_at_here : (q : Price) (m : PriceLevel) (ls : Levels) → level_at q ((q, m) ∷ ls) ≡ m
unfolding level_at find
level_at_here q m ls = rw (same_price_refl q, level_at) refl

pub level_at_past :
    (p q : Price) (m : PriceLevel) (ls : Levels)
    → same_price p q ≡ false
    → level_at p ((q, m) ∷ ls) ≡ level_at p ls
unfolding level_at find
level_at_past p q m ls h = rw (h, level_at) refl

pub level_at-none : (p : Price) (ls : Levels) → find p ls ≡ none → level_at p ls ≡ []
unfolding level_at
level_at-none p ls h = rw (h, level_at)
