-- ===== src/Demo/Tests.antt =====
-- What the program of src/main.cpp prints.
use lowlatency_exec_core.Common.{◌≡◌, refl, [], ◌∷◌, some, none, true, false}
use lowlatency_exec_core.Common.Int.{pos}
use lowlatency_exec_core.Types.{buy}
use lowlatency_exec_core.Slab.{block_size}
use lowlatency_exec_core.Levels.{find, erase, erase_level}
use lowlatency_exec_core.Locations.{lookup, forget}
use lowlatency_exec_core.Book.{ok, new_book, add_limit_order, cancel_order, remove_node}
use lowlatency_exec_core.Book.Queries.{order_count}
use lowlatency_exec_core.Demo.{demo}

demo_run :
    demo 4 1000
    ≡ ok (record {
      resting = [];
      resting_too = [];
      before = record { bid = some (pos 100); ask = some (pos 105); orders = 2 };
      crossing =
          (record {
            aggressor_order_id = 3;
            resting_order_id = 2;
            aggressor_side = buy;
            price = pos 105;
            quantity = pos 5;
            sequence = 2;
          })
          ∷ [];
      after = record { bid = some (pos 105); ask = none; orders = 2 };
      cancelled = true;
      cancelled_missing = false;
      left = 1;
    })
unfolding demo new_book add_limit_order cancel_order lookup forget remove_node find erase
    erase_level block_size order_count
demo_run = refl
