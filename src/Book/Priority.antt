-- ===== src/Book/Priority.antt =====
-- Price-time priority: the loops of `add_limit_order` against a greedy walk over one queue.
use lowlatency_exec_core.Common.{
  ◌≡◌, refl, none, Bool, true, false, not, ◌&&◌, List, [], ◌∷◌, ◌++◌, map, map-append, arith,
  if◌then◌else◌, Bool-cases, inl, inr, All,
}
use lowlatency_exec_core.Common.Int.{pos, ◌-ℤ◌, leb_ℤ}
use lowlatency_exec_core.Types.{Side, buy, sell, OrderId, Price, Quantity, RestingOrder, Trade}
use lowlatency_exec_core.Levels.{PriceLevel, Levels, is_empty}
use lowlatency_exec_core.Book.{
  Taker, Engine, Run, before_run, trade_of, ok, engine_of, levels_of, opposite, OrderBook,
  add_limit_order, is_positive, too_far, retire, next_event, fill_level, sweep,
}
use lowlatency_exec_core.Locations.{lookup}
use lowlatency_exec_core.Book.Sides.{taker, accepted, execute_trades, execute-opposite}
use lowlatency_exec_core.Book.Loops.{fill_level_take, fill_level_part, fill_level_stop}

-- The resting orders of a side with the prices of their levels, in priority order.
abbrev pub Queue : Type 0
Queue = List (Price × RestingOrder)

abbrev pub queue_level : Price → PriceLevel → Queue
queue_level p [] = []
queue_level p (n ∷ ns) = (p, n.order) ∷ queue_level p ns

abbrev pub queue : Levels → Queue
queue [] = []
queue ((p, level) ∷ ls) = queue_level p level ++ queue ls

-- A buy at `limit` trades at prices up to it, a sell at prices from it on.
abbrev pub crosses : Side → Price → Price → Bool
crosses buy limit p = leb_ℤ p limit
crosses sell limit p = leb_ℤ limit p

abbrev pub Fill : Type 0
Fill = OrderId × Price × Quantity

pub record Matched : Type 0 where
  pub fills : List Fill
  pub remaining : Quantity
  pub left : Queue

abbrev pub matched : List Fill → Quantity → Queue → Matched
matched fills remaining left = record { fills = fills; remaining = remaining; left = left }

abbrev pub prepend : List Fill → Matched → Matched
prepend fills m = record m { fills = fills ++ m.fills }

-- Take the orders from the front while they cross and lots remain; the last one perhaps in part.
unfoldable pub greedy : Side → Price → Quantity → Queue → Matched
greedy s limit remaining [] = matched [] remaining []
greedy s limit remaining ((p, o) ∷ q) =
    let next = greedy s limit (remaining -ℤ o.quantity) q in
    if is_positive remaining && crosses s limit p
    then (if leb_ℤ o.quantity remaining
        then prepend ((o.id, p, o.quantity) ∷ []) next
        else matched ((o.id, p, remaining) ∷ []) (pos 0)
            ((p, record o { quantity = o.quantity -ℤ remaining }) ∷ q))
    else matched [] remaining ((p, o) ∷ q)

abbrev pub fill_of : Trade → Fill
fill_of t = (t.resting_order_id, t.price, t.quantity)

greedy_done :
    (s : Side) (limit : Price) (r : Quantity) (q : Queue)
    → is_positive r ≡ false
    → greedy s limit r q ≡ matched [] r q
unfolding greedy
greedy_done s limit r [] h = refl
greedy_done s limit r ((p, o) ∷ q) h = rw h

crosses-not-too_far : (s : Side) (limit p : Price) → crosses s limit p ≡ not (too_far s limit p)
crosses-not-too_far buy limit p = ground arith
crosses-not-too_far sell limit p = ground arith

-- What the greedy walk does with the orders of one level, by what the inner loop does with it.
abbrev after_level : Side → Price → Price → Queue → Run PriceLevel → Matched
after_level s limit p q f =
    if is_empty f.rest
    then prepend (map fill_of f.trades) (greedy s limit f.remaining q)
    else matched (map fill_of f.trades) f.remaining (queue_level p f.rest ++ q)

after_level-before_run :
    (s : Side) (limit p : Price) (q : Queue) (trade : Trade) (f : Run PriceLevel)
    → prepend (fill_of trade ∷ []) (after_level s limit p q f)
      ≡ after_level s limit p q (before_run (trade ∷ []) f)
after_level-before_run s limit p q trade f = ground arith

fill_level-greedy :
    (t : Taker) (p : Price) (r : Quantity) (level : PriceLevel) (e : Engine) (q : Queue)
    → crosses t.side t.price p ≡ true
    → greedy t.side t.price r (queue_level p level ++ q)
      ≡ after_level t.side t.price p q (fill_level t p r level e)
unfolding greedy
fill_level-greedy t p r [] e q h = unfold fill_level in refl
fill_level-greedy t p r (n ∷ ns) e q h = elim (Bool-cases (is_positive r)) [
  | inr done ↦ rw (done, fill_level_stop t p r n ns e done) refl
  | inl more ↦ elim (Bool-cases (leb_ℤ n.order.quantity r)) [
    | inl whole ↦
        rw
          (
            more,
            h,
            whole,
            fill_level_take t p r n ns e more whole,
            fill_level-greedy t p (r -ℤ n.order.quantity) ns (retire n ns (next_event e)).1 q h,
          )
          (after_level-before_run t.side t.price p q
            (trade_of t p n.order.quantity n e.next_sequence)
            (fill_level t p (r -ℤ n.order.quantity) ns (retire n ns (next_event e)).1))
    | inr part ↦ rw (more, h, part, fill_level_part t p r n ns e more part) refl
  ]
]

-- No level of a side is without orders.
abbrev pub Occupied : Levels → Type 0
Occupied = All (λ entry. is_empty entry.1 ≡ false)

abbrev outcome : Run Levels → Matched
outcome r = matched (map fill_of r.trades) r.remaining (queue r.rest)

-- A level that does not cross stops the walk at its first order.
greedy_far :
    (s : Side) (limit p : Price) (r : Quantity) (level : PriceLevel) (q : Queue)
    → is_empty level ≡ false
    → crosses s limit p ≡ false
    → greedy s limit r (queue_level p level ++ q) ≡ matched [] r (queue_level p level ++ q)
unfolding greedy
greedy_far s limit p r [] q h k = cc
greedy_far s limit p r (n ∷ ns) q h k = elim (Bool-cases (is_positive r)) [
  | inl more ↦ rw (more, k)
  | inr done ↦ rw done
]

prepend-outcome :
    (trades : List Trade) (r : Run Levels)
    → prepend (map fill_of trades) (outcome r) ≡ outcome (before_run trades r)
prepend-outcome trades r = rw map-append

sweep-greedy :
    (t : Taker) (r : Quantity) (ls : Levels) (e : Engine)
    → Occupied ls
    → greedy t.side t.price r (queue ls) ≡ outcome (sweep t r ls e)
unfolding sweep
sweep-greedy t r [] e h = unfold greedy in refl
sweep-greedy t r ((p, level) ∷ ls) e h = elim (Bool-cases (is_positive r)) [
  | inr done ↦ rw (done, greedy_done t.side t.price r (queue_level p level ++ queue ls) done)
  | inl more ↦ elim (Bool-cases (too_far t.side t.price p)) [
    | inl far ↦
        rw (more, far)
          (greedy_far t.side t.price p r level (queue ls) h.0 (rw (crosses-not-too_far, far)))
    | inr near ↦
        rw (more, near, fill_level-greedy t p r level e (queue ls) (rw (crosses-not-too_far, near)))
          (elim (Bool-cases (is_empty (fill_level t p r level e).rest)) [
            | inl emptied ↦
                rw
                  (
                    emptied,
                    sweep-greedy t (fill_level t p r level e).remaining ls
                        (fill_level t p r level e).engine h.1,
                  )
                  (prepend-outcome (fill_level t p r level e).trades (
                    sweep t (fill_level t p r level e).remaining ls
                      (fill_level t p r level e).engine))
            | inr held ↦ rw held
          ])
  ]
]

-- An order with a positive quantity and an id that the book does not track, over a book whose
-- levels on the other side all hold an order, is accepted; its trades are the fills of the greedy
-- walk over the other side's queue in price-time priority, in order, and the queue of that side
-- afterwards is what the walk leaves.
pub add_limit_order-greedy :
    (id : OrderId) (side : Side) (price : Price) (quantity : Quantity) (b : OrderBook)
    → is_positive quantity ≡ true
    → lookup id b.locations ≡ none
    → Occupied (levels_of (opposite side) b)
    → (trades : List Trade) × (b' : OrderBook) × (add_limit_order id side price quantity b
        ≡ ok (trades, b'))
      × (map fill_of trades
          ≡ (greedy side price quantity (queue (levels_of (opposite side) b))).fills)
      × (queue (levels_of (opposite side) b')
          ≡ (greedy side price quantity (queue (levels_of (opposite side) b))).left)
add_limit_order-greedy id side price quantity b h k o =
    let t = taker id side price in
    let walk = sweep-greedy t quantity (levels_of (opposite side) b) (engine_of b) o in
    (
      _,
      _,
      accepted id side price quantity b h k,
      rw (execute_trades t quantity b, walk),
      rw (execute-opposite t quantity b, walk),
    )
