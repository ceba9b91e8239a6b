-- ===== src/Book/ReachTests.antt =====
-- The theorems on the index and the pool, at the book with two offers and from a new book on.

use lowlatency_exec_core.Common.{
  ◌≡◌, refl, true, false, none, [], ◌∷◌, List, Bool, arith, Permᴰ, some,
}
use lowlatency_exec_core.Common.Int.{pos}
use lowlatency_exec_core.Words.{add64}
use lowlatency_exec_core.Types.{buy, sell, Trade}
use lowlatency_exec_core.Slab.{block_size, used_blocks}
use lowlatency_exec_core.Slab.Pool.{IsPool}
use lowlatency_exec_core.Slab.Used.{IsLive}
use lowlatency_exec_core.Levels.{find, erase, erase_level}
use lowlatency_exec_core.Locations.{lookup, forget}
use lowlatency_exec_core.Book.{
  OrderBook, Taker, run_of, engine_of, sweep, remove_node, ok, new_book, add_limit_order,
  cancel_order, is_some,
}
use lowlatency_exec_core.Book.Tests.{pool, offered, offered-IsBook, unknown, result_of}
use lowlatency_exec_core.Book.Consistent.{
  IsConsistent, new_book-IsConsistent, add_limit_order-IsConsistent,
}
use lowlatency_exec_core.Book.Reachable.{
  cancel_order-IsConsistent, Reach, opened, submitted, withdrawn, Reach-IsConsistent,
}
use lowlatency_exec_core.Book.While.{sweep_while}
use lowlatency_exec_core.Book.Termination.{sweep_while-sweep}
use lowlatency_exec_core.Book.Destroy.{destroy, destroy-used_blocks}
use lowlatency_exec_core.Book.Priority.{queue}
use lowlatency_exec_core.Book.Queues.{withdraw}
use lowlatency_exec_core.Book.Withdrawal.{cancel_order-withdraw}
use lowlatency_exec_core.Book.RoundTrip.{add_limit_order-cancel_order}

pool-IsPool : IsPool pool (1048 ∷ 1000 ∷ []) (1144 ∷ 1096 ∷ [])
pool-IsPool = record {
  chain = (refl, (λ e. omega (arith, e)), (refl, (λ e. omega (arith, e)), refl));
  distinct_free = (refl, (refl, tt));
  distinct_used = (refl, (refl, tt));
  apart = λ p h. ground (arith, h);
  below = (
    (omega arith, (omega arith, tt)),
    ((omega arith, omega arith), ((omega arith, omega arith), tt)),
  );
  in_use = refl;
  total = refl;
  fits = omega arith;
}

pub pool-IsLive : IsLive pool (1144 ∷ 1096 ∷ [])
pool-IsLive = record { free = _; pool = pool-IsPool; positive = omega arith; growing = omega arith }

pub offered-IsConsistent : IsConsistent offered
offered-IsConsistent = record {
  formed = offered-IsBook;
  in_step = record {
    agrees = Permᴰ.swap refl refl;
    distinct = (refl, (refl, tt));
    live = pool-IsLive;
  };
}

new_book-IsConsistent_example : IsConsistent (new_book 4 1000)
new_book-IsConsistent_example = new_book-IsConsistent 4 1000 (omega arith) (omega arith)

add_limit_order-IsConsistent_example :
    (trades : List Trade) × (b' : OrderBook) × (add_limit_order 3 buy (pos 106) (pos 7) offered
      ≡ ok (trades, b'))
    × IsConsistent b'
add_limit_order-IsConsistent_example =
    add_limit_order-IsConsistent 3 buy (pos 106) (pos 7) offered offered-IsConsistent (omega arith)
      refl unknown

cancel_order-IsConsistent_example :
    (found : Bool) × (b' : OrderBook) × (cancel_order 1 offered ≡ ok (found, b'))
    × (found ≡ is_some (lookup 1 offered.locations))
    × (b'.locations ≡ forget 1 offered.locations)
    × (lookup 1 b'.locations ≡ none)
    × IsConsistent b'
cancel_order-IsConsistent_example = cancel_order-IsConsistent 1 offered offered-IsConsistent

-- A bid of 104 does not reach the offers at 105.
add_limit_order-cancel_order_example :
    (b' : OrderBook) × (b'' : OrderBook) × (add_limit_order 3 buy (pos 104) (pos 7) offered
      ≡ ok ([], b'))
    × (cancel_order 3 b' ≡ ok (true, b''))
    × (b''.bids ≡ [])
    × (b''.asks ≡ offered.asks)
    × (b''.locations ≡ offered.locations)
add_limit_order-cancel_order_example =
    add_limit_order-cancel_order 3 buy (pos 104) (pos 7) offered offered-IsConsistent (omega arith)
      refl unknown (refl, tt)

-- A new book, an offer, and its cancellation.
abbrev one_offer : List Trade × OrderBook
unfolding new_book add_limit_order block_size
one_offer =
    result_of (add_limit_order 1 sell (pos 105) (pos 5) (new_book 4 1000)) ([], new_book 4 1000)

abbrev no_offer : Bool × OrderBook
unfolding new_book add_limit_order block_size cancel_order lookup forget remove_node find erase
    erase_level
no_offer = result_of (cancel_order 1 one_offer.1) (false, one_offer.1)

no_offer-Reach : Reach 4 1000 no_offer.1
unfolding new_book add_limit_order block_size cancel_order lookup forget remove_node find erase
    erase_level add64
no_offer-Reach =
    withdrawn 1 true (submitted 1 sell (pos 105) (pos 5) [] opened (omega arith) refl) refl

Reach-IsConsistent_example : IsConsistent no_offer.1
Reach-IsConsistent_example = Reach-IsConsistent (omega arith) (omega arith) no_offer-Reach

abbrev pub buyer : Taker
buyer = record { id = 3; side = buy; price = pos 106 }

-- Two offers on one level: four rounds at most.
sweep_while-sweep_example :
    sweep_while 5 buyer (run_of [] (pos 7) offered.asks (engine_of offered))
    ≡ some (sweep buyer (pos 7) offered.asks (engine_of offered))
sweep_while-sweep_example =
    sweep_while-sweep 5 buyer (pos 7) offered.asks (engine_of offered) (omega arith)

destroy-used_blocks_example : IsLive (destroy offered) [] × (used_blocks (destroy offered) ≡ 0)
destroy-used_blocks_example = destroy-used_blocks offered offered-IsConsistent

cancel_order-withdraw_example :
    (found : Bool) × (b' : OrderBook) × (cancel_order 1 offered ≡ ok (found, b'))
    × (queue b'.bids ≡ withdraw 1 (queue offered.bids))
    × (queue b'.asks ≡ withdraw 1 (queue offered.asks))
cancel_order-withdraw_example = cancel_order-withdraw 1 offered offered-IsConsistent
