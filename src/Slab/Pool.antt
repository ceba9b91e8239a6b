-- ===== src/Slab/Pool.antt =====
-- The invariant of the slab allocator, and that handing a block out and taking it back keep it.
use lowlatency_exec_core.Words.{dec64, dec64-suc, inc64, inc64-suc}
use lowlatency_exec_core.Common.{
  Bool, All, refl, ◌∷◌, List, sym, length, true, ◌||◌, subst, ◌+◌, arith, ◌≡◌, ◌≢◌, ◌^◌, false,
  ◌==◌, [], ◌<◌, ap, ◌∙◌,
}
use lowlatency_exec_core.Slab.{Ptr, allocate, SlabAllocator, Layout, link, deallocate, null}

abbrev pub has : Ptr → List Ptr → Bool
has p [] = false
has p (x ∷ xs) = (p == x) || has p xs

abbrev pub Distinct : List Ptr → Type 0
Distinct [] = Unit
Distinct (x ∷ xs) = (has x xs ≡ false) × Distinct xs

-- From `p` the links lead through the blocks `free` to the null pointer.
abbrev pub Chain : (Ptr → Ptr) → Ptr → List Ptr → Type 0
Chain links p [] = p ≡ null
Chain links p (x ∷ xs) = (p ≡ x) × (x ≢ null) × Chain links (links x) xs

-- The pool's free list runs through the blocks `free`, the blocks `used` are handed out, none is
-- both, and the counters say how many there are.
pub record IsPool (a : SlabAllocator) (free used : List Ptr) : Type 0 where
  pub chain : Chain a.links a.free_list free
  pub distinct_free : Distinct free
  pub distinct_used : Distinct used
  pub apart : (p : Ptr) → has p free ≡ true → has p used ≡ false
  pub below : All (λ p. p < a.brk) free × All (λ p. (0 < p) × (p < a.brk)) used
  pub in_use : a.in_use ≡ length used
  pub total : a.total_capacity ≡ length free + length used
  pub fits : a.total_capacity < 2 ^ 64

-- A link that is written outside the chain leaves the chain.
pub Chain-link :
    (links : Ptr → Ptr) (node next p : Ptr) (free : List Ptr)
    → has node free ≡ false
    → Chain links p free
    → Chain (link links node next) p free
unfolding link
Chain-link links node next p [] out c = c
Chain-link links node next p (x ∷ xs) out c =
    let other : (x == node) ≡ false = ground arith in
    (c.0, c.1, rw other (Chain-link links node next (links x) xs (ground arith) c.2))

pub link_self : (links : Ptr → Ptr) (node next : Ptr) → link links node next node ≡ next
unfolding link
link_self links node next = ground arith

module _ (t : Layout) (a : SlabAllocator) where
  -- While a block of a well-formed pool is free, allocate hands out the first one, the pool stays
  -- well formed, and neither the capacity nor the count of growths changes.
  pub allocate_free :
      (x : Ptr) (free used : List Ptr)
      → IsPool a (x ∷ free) used
      → ((allocate t a).0 ≡ x)
        × IsPool (allocate t a).1 free (x ∷ used)
        × ((allocate t a).1.total_capacity ≡ a.total_capacity)
        × ((allocate t a).1.growth_events ≡ a.growth_events)
  unfolding allocate
  allocate_free x free used v =
      let some_left : (a.free_list == null) ≡ false = ground (arith, v.chain.0, v.chain.1) in
      rw (some_left) (
        v.chain.0,
        record {
          chain = subst (λ q. Chain a.links (a.links q) free) (sym v.chain.0) v.chain.2;
          distinct_free = v.distinct_free.1;
          distinct_used = (v.apart x (ground arith), v.distinct_used);
          apart = λ p h. ground (arith, v.distinct_free.0, v.apart p);
          below = (v.below.0.1, ((omega (arith, v.chain.1), v.below.0.0), v.below.1));
          in_use = ap inc64 v.in_use ∙ inc64-suc (length used) (omega (arith, v.total, v.fits));
          total = omega (arith, v.total);
          fits = v.fits;
        },
        refl,
        refl,
      )

  -- Over a well-formed pool, giving back a block in use makes it the first free block, and the pool
  -- stays well formed.
  pub deallocate-IsPool :
      (p : Ptr) (free used : List Ptr)
      → IsPool a free (p ∷ used)
      → IsPool (deallocate p a) (p ∷ free) used
  unfolding deallocate
  deallocate-IsPool p free used v =
      let out : has p free ≡ false = ground (arith, v.apart p) in
      record {
        chain = (
          refl,
          (λ e. absurd (omega (arith, e, v.below.1.0.0))),
          subst (λ q. Chain (link a.links p a.free_list) q free)
              (sym (link_self a.links p a.free_list))
              (Chain-link a.links p a.free_list a.free_list free out v.chain),
        );
        distinct_free = (out, v.distinct_free);
        distinct_used = v.distinct_used.1;
        apart = λ q h. ground (arith, v.distinct_used.0, v.apart q);
        below = ((v.below.1.0.1, v.below.0), v.below.1.1);
        in_use = ap dec64 v.in_use ∙ dec64-suc (length used) (omega (arith, v.total, v.fits));
        total = omega (arith, v.total);
        fits = v.fits;
      }
