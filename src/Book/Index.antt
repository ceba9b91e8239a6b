-- ===== src/Book/Index.antt =====
-- The matching loops keep the index and the pool in step with the nodes.
use lowlatency_exec_core.Common.{append_assoc, ◌∷◌, [], sym, subst, ◌++◌, ◌≡◌, refl, true}
use lowlatency_exec_core.Types.{Side, Price, Quantity}
use lowlatency_exec_core.Levels.{pop_front, OrderNode, PriceLevel, Levels, is_empty, pop_front}
use lowlatency_exec_core.Locations.{Locations}
use lowlatency_exec_core.Book.{Taker, Engine, retire, next_event, fill_level, sweep}
use lowlatency_exec_core.Book.Loops.{fill_level_rule, sweep_rule}
use lowlatency_exec_core.Book.Tracked.{Tracks, entries, side_entries, location, forget-Tracks}

-- What an engine of a loop tracks.
abbrev pub Follows : Engine → Locations → Type 0
Follows e m = Tracks e.locations e.node_pool m

retire-Follows :
    (s : Side) (p : Price) (n : OrderNode) (ns : PriceLevel) (e : Engine) (m : Locations)
    → Follows e ((n.order.id, location s p n.at) ∷ m)
    → Follows (retire n ns (next_event e)).1 m
unfolding retire pop_front
retire-Follows s p n ns e m v = forget-Tracks n.order.id (location s p n.at) m v

fill_level-Follows :
    (s : Side) (t : Taker) (p : Price) (r : Quantity) (level : PriceLevel) (e : Engine)
    (m : Locations)
    → Follows e (entries s p level ++ m)
    → Follows (fill_level t p r level e).engine (entries s p (fill_level t p r level e).rest ++ m)
fill_level-Follows s t p =
    fill_level_rule t p
      (λ r level e f.
        (m : Locations)
        → Follows e (entries s p level ++ m)
        → Follows f.engine (entries s p f.rest ++ m))
      (λ r e m v. v) (λ r n ns e done m v. v)
      (λ r n ns e f more whole ih m v. ih m (retire-Follows s p n ns e (entries s p ns ++ m) v))
      (λ r n ns e more part m v. v)

pub no_entries :
    (s : Side) (p : Price) (level : PriceLevel) → is_empty level ≡ true → entries s p level ≡ []
no_entries s p [] h = refl
no_entries s p (n ∷ ns) h = cc

pub sweep-Follows :
    (s : Side) (t : Taker) (r : Quantity) (ls : Levels) (e : Engine) (m : Locations)
    → Follows e (side_entries s ls ++ m)
    → Follows (sweep t r ls e).engine (side_entries s (sweep t r ls e).rest ++ m)
sweep-Follows s t =
    sweep_rule t
      (λ r ls e f.
        (m : Locations)
        → Follows e (side_entries s ls ++ m)
        → Follows f.engine (side_entries s f.rest ++ m))
      (λ r ls e h m v. v)
      (λ r p level ls e k near emptied ih m v. ih m (
        subst (λ xs. Follows (fill_level t p r level e).engine (xs ++ (side_entries s ls ++ m)))
          (no_entries s p _ emptied) (filled p r level ls e m v)))
      (λ r p level ls e near kept m v.
        subst (Follows (fill_level t p r level e).engine)
          (sym (append_assoc (entries s p (fill_level t p r level e).rest) (side_entries s ls) m))
          (filled p r level ls e m v))
  where
    filled :
        (p : Price) (r : Quantity) (level : PriceLevel) (ls : Levels) (e : Engine) (m : Locations)
        → Follows e ((entries s p level ++ side_entries s ls) ++ m)
        → Follows
            (fill_level t p r level e).engine
            (entries s p (fill_level t p r level e).rest ++ (side_entries s ls ++ m))
    filled p r level ls e m v =
        fill_level-Follows s t p r level e (side_entries s ls ++ m)
          (subst (Follows e) (append_assoc (entries s p level) (side_entries s ls) m) v)
