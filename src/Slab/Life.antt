-- ===== src/Slab/Life.antt =====
-- The life of a pool: the constructor gives one that satisfies the invariant, and `allocate` hands
-- out a block of it whether or not it has to grow.
use lowlatency_exec_core.Slab.Pool.{IsPool, allocate_free}
use lowlatency_exec_core.Slab.Growth.{carved, first_size, add_chunk-IsPool, length-carved}
use lowlatency_exec_core.Common.{
  false, ℕ, ◌==◌, [], List, ◌≡◌, length, refl, ◌∷◌, ◌^◌, true, arith, ◌<◌, ◌+◌, sym, subst,
}
use lowlatency_exec_core.Slab.{
  Ptr, null, Layout, SlabAllocator, block_size, construct, grow, allocate,
}

pub construct-IsPool :
    (t : Layout) (initial_capacity : ℕ) (brk : Ptr)
    → initial_capacity < 2 ^ 64
    → 0 < brk
    → IsPool
        (construct t initial_capacity brk)
        (carved (first_size initial_capacity) 0 (block_size t) brk [])
        []
unfolding construct
construct-IsPool t initial_capacity brk fits positive =
    let size = first_size initial_capacity in
    let nothing : SlabAllocator = record {
      chunks = [];
      free_list = null;
      chunk_size = size;
      total_capacity = 0;
      in_use = 0;
      growth_events = 0;
      links = λ _. null;
      brk = brk;
    } in
    add_chunk-IsPool t size nothing [] []
      (record {
        chain = refl;
        distinct_free = tt;
        distinct_used = tt;
        apart = λ p h. refl;
        below = (tt, tt);
        in_use = refl;
        total = refl;
        fits = omega arith;
      })
      positive (ground (arith, fits))

-- A growth adds a chunk of `chunk_size` blocks.
grow-IsPool :
    (t : Layout) (a : SlabAllocator) (free used : List Ptr)
    → IsPool a free used
    → 0 < a.brk
    → a.total_capacity + a.chunk_size < 2 ^ 64
    → IsPool (grow t a) (carved a.chunk_size 0 (block_size t) a.brk free) used
unfolding grow
grow-IsPool t a free used v positive fits =
    let w = add_chunk-IsPool t a.chunk_size a free used v positive fits in
    record {
      chain = w.chain;
      distinct_free = w.distinct_free;
      distinct_used = w.distinct_used;
      apart = w.apart;
      below = w.below;
      in_use = w.in_use;
      total = w.total;
      fits = w.fits;
    }

nonempty : (xs : List Ptr) → 0 < length xs → (x : Ptr) × (rest : List Ptr) × (xs ≡ x ∷ rest)
nonempty [] h = absurd (omega (arith, h))
nonempty (x ∷ xs) h = (x, xs, refl)

-- Where no block is free `allocate` grows, and then a block is.
allocate-grow :
    (t : Layout) (a : SlabAllocator) (x : Ptr) (free used : List Ptr)
    → a.free_list ≡ null
    → IsPool (grow t a) (x ∷ free) used
    → allocate t a ≡ allocate t (grow t a)
unfolding allocate
allocate-grow t a x free used empty v =
    let exhausted : (a.free_list == null) ≡ true = ground (arith, empty) in
    let some_left : ((grow t a).free_list == null) ≡ false = ground (arith, v.chain.0, v.chain.1) in
    rw (exhausted, some_left) refl

-- Over a well-formed pool (free list acyclic and apart from the distinct blocks in use, counters
-- equal to the numbers of blocks), with a positive chunk size, a positive next address and room for
-- one more chunk in the capacity counter, allocate gives a block with which the blocks in use are
-- again distinct and the pool is well formed, whether it had to grow or not.
pub allocate-IsPool :
    (t : Layout) (a : SlabAllocator) (free used : List Ptr)
    → IsPool a free used
    → 0 < a.brk
    → 0 < a.chunk_size
    → a.total_capacity + a.chunk_size < 2 ^ 64
    → (left : List Ptr) × IsPool (allocate t a).1 left ((allocate t a).0 ∷ used)
allocate-IsPool t a (x ∷ free) used v positive some_blocks fits =
    let taken = allocate_free t a x free used v in
    (free, subst (λ p. IsPool (allocate t a).1 free (p ∷ used)) (sym taken.0) taken.1)
allocate-IsPool t a [] used v positive some_blocks fits =
    let grown = grow-IsPool t a [] used v positive fits in
    let (x, free, found) =
      nonempty (carved a.chunk_size 0 (block_size t) a.brk [])
        (omega (arith, some_blocks, length-carved a.chunk_size 0 (block_size t) a.brk [])) in
    let grown' = subst (λ xs. IsPool (grow t a) xs used) found grown in
    let taken = allocate_free t (grow t a) x free used grown' in
    (
      free,
      subst (λ r. IsPool r.1 free (r.0 ∷ used)) (sym (allocate-grow t a x free used v.chain grown'))
          (subst (λ p. IsPool (allocate t (grow t a)).1 free (p ∷ used)) (sym taken.0) taken.1),
    )
