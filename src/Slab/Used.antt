-- ===== src/Slab/Used.antt =====
-- The blocks in use, in any order, and a pool that can go on handing out blocks.
use lowlatency_exec_core.Words.{add64, add64_small}
use lowlatency_exec_core.Slab.Growth.{first_size}
use lowlatency_exec_core.Common.{
  Permᴰ, arith, All-Permᴰ, length-Permᴰ, suc, ◌^◌, zero, ◌∷◌, ◌==◌, inl, ◌≤◌, [], Bool-cases, ℕ,
  inr, ◌*◌, ◌++◌, true,
}
use lowlatency_exec_core.Common.{arith, ◌+◌, ◌∙◌, sym, ◌<◌, List, refl, ◌≡◌, Permᴰ, length, ap}
use lowlatency_exec_core.Slab.Pool.{IsPool, has, Distinct, deallocate-IsPool}
use lowlatency_exec_core.Slab.Life.{allocate-IsPool, construct-IsPool}
use lowlatency_exec_core.Slab.{
  carve, grow, take_block, Ptr, Layout, SlabAllocator, construct, allocate, deallocate, add_chunk,
  block_size, null,
}

pub has-Permᴰ : (p : Ptr) {xs ys : List Ptr} → Permᴰ xs ys → has p xs ≡ has p ys
has-Permᴰ p Permᴰ.nil = refl
has-Permᴰ p (Permᴰ.cons e r) = rw (e, has-Permᴰ p r) refl
has-Permᴰ p (Permᴰ.swap e f) = rw (e, f) (ground arith)
has-Permᴰ p (Permᴰ.trans q r) = has-Permᴰ p q ∙ has-Permᴰ p r

pub Distinct-Permᴰ : {xs ys : List Ptr} → Permᴰ xs ys → Distinct xs → Distinct ys
Distinct-Permᴰ Permᴰ.nil h = tt
Distinct-Permᴰ (Permᴰ.cons {a} e r) h = (rw (← e) (sym (has-Permᴰ a r) ∙ h.0), Distinct-Permᴰ r h.1)
Distinct-Permᴰ (Permᴰ.swap e f) h = ground (arith, h.0, h.1, e, f)
Distinct-Permᴰ (Permᴰ.trans q r) h = Distinct-Permᴰ r (Distinct-Permᴰ q h)

-- The order in which the blocks in use are named does not matter.
IsPool-Permᴰ :
    {a : SlabAllocator} {free used used' : List Ptr}
    → Permᴰ used used'
    → IsPool a free used
    → IsPool a free used'
IsPool-Permᴰ {a} {free} p v = record {
  chain = v.chain;
  distinct_free = v.distinct_free;
  distinct_used = Distinct-Permᴰ p v.distinct_used;
  apart = λ q h. sym (has-Permᴰ q p) ∙ v.apart q h;
  below = (v.below.0, All-Permᴰ (λ q. (0 < q) × (q < a.brk)) p v.below.1);
  in_use = v.in_use ∙ length-Permᴰ p;
  total = v.total ∙ ap (λ n. length free + n) (length-Permᴰ p);
  fits = v.fits;
}

carve_chunk :
    (rounds i stride bytes : ℕ) (a : SlabAllocator)
    → ((carve rounds i stride bytes a).chunk_size ≡ a.chunk_size)
      × ((carve rounds i stride bytes a).brk ≡ a.brk)
unfolding carve
carve_chunk zero i stride bytes a = (refl, refl)
carve_chunk (suc rounds) i stride bytes a = carve_chunk rounds (i + 1) stride bytes _

pub allocate_chunk :
    (t : Layout) (a : SlabAllocator)
    → ((allocate t a).1.chunk_size ≡ a.chunk_size) × (a.brk ≤ (allocate t a).1.brk)
unfolding allocate grow add_chunk take_block
allocate_chunk t a = elim (Bool-cases (a.free_list == null)) [
  | inl empty ↦
      let kept = carve_chunk a.chunk_size 0 (block_size t) a.brk _ in
      rw empty (kept.0, rw (kept.1) (omega arith))
  | inr some_left ↦ rw some_left (refl, omega arith)
]

carve_total :
    (rounds i stride bytes : ℕ) (a : SlabAllocator)
    → (carve rounds i stride bytes a).total_capacity ≡ a.total_capacity
unfolding carve
carve_total zero i stride bytes a = refl
carve_total (suc rounds) i stride bytes a = carve_total rounds (i + 1) stride bytes _

used_up :
    (a : SlabAllocator) (free used : List Ptr)
    → IsPool a free used
    → (a.free_list == null) ≡ true
    → a.total_capacity ≡ length used
used_up a [] used v h = omega (arith, v.total)
used_up a (x ∷ free) used v h =
    let first = v.chain.0 in
    let some_left = v.chain.1 in absurd (ground (arith, h, first, some_left))

-- A pool grows only where every block is in use.
pub allocate_total :
    (t : Layout) (a : SlabAllocator) (free used : List Ptr) (bound : ℕ)
    → IsPool a free used
    → a.total_capacity + a.chunk_size < 2 ^ 64
    → a.total_capacity ≤ bound
    → length used + a.chunk_size ≤ bound
    → (allocate t a).1.total_capacity ≤ bound
unfolding allocate grow add_chunk take_block
allocate_total t a free used bound v room below grown = elim (Bool-cases (a.free_list == null)) [
  | inr some_left ↦ rw some_left below
  | inl empty ↦
      let kept =
        carve_total a.chunk_size 0 (block_size t) a.brk (record a {
          chunks = a.chunks ++ a.brk ∷ [];
          brk = a.brk + block_size t * a.chunk_size;
        }) in
      let all = used_up a free used v empty in
      let sum = add64_small a.total_capacity a.chunk_size room in
      rw empty (rw kept (omega (arith, sum, all, grown)))
]

-- A well-formed pool whose blocks in use are `used`, and which can grow.
pub record IsLive (a : SlabAllocator) (used : List Ptr) : Type 0 where
  pub free : List Ptr
  pub pool : IsPool a free used
  pub positive : 0 < a.brk
  pub growing : 0 < a.chunk_size

pub IsLive-Permᴰ :
    {a : SlabAllocator} {used used' : List Ptr} → Permᴰ used used' → IsLive a used → IsLive a used'
IsLive-Permᴰ p v = record {
  free = v.free;
  pool = IsPool-Permᴰ p v.pool;
  positive = v.positive;
  growing = v.growing;
}

pub allocate-IsLive :
    (t : Layout) (a : SlabAllocator) (used : List Ptr)
    → a.total_capacity + a.chunk_size < 2 ^ 64
    → IsLive a used
    → IsLive (allocate t a).1 ((allocate t a).0 ∷ used)
allocate-IsLive t a used room v =
    let (left, w) = allocate-IsPool t a v.free used v.pool v.positive v.growing room in
    let kept = allocate_chunk t a in
    record {
      free = left;
      pool = w;
      positive = omega (arith, v.positive, kept.1);
      growing = omega (arith, v.growing, kept.0);
    }

pub deallocate-IsLive :
    (t : Layout) (a : SlabAllocator) (p : Ptr) (used : List Ptr)
    → IsLive a (p ∷ used)
    → IsLive (deallocate p a) used
deallocate-IsLive t a p used v = record {
  free = p ∷ v.free;
  pool = deallocate-IsPool t a p v.free used v.pool;
  positive = unfold deallocate in v.positive;
  growing = unfold deallocate in v.growing;
}

-- The pool before its first chunk.
abbrev no_chunks : ℕ → Ptr → SlabAllocator
no_chunks size brk = record {
  chunks = [];
  free_list = null;
  chunk_size = size;
  total_capacity = 0;
  in_use = 0;
  growth_events = 0;
  links = λ _. null;
  brk = brk;
}

add_chunk_kept :
    (t : Layout) (count : ℕ) (a : SlabAllocator)
    → ((add_chunk t count a).chunk_size ≡ a.chunk_size) × (a.brk ≤ (add_chunk t count a).brk)
unfolding add_chunk
add_chunk_kept t count a =
    let kept =
      carve_chunk count 0 (block_size t) a.brk
        (record a { chunks = a.chunks ++ a.brk ∷ []; brk = a.brk + block_size t * count }) in
    (kept.0, omega (arith, kept.1))

pub construct-IsLive :
    (t : Layout) (initial_capacity : ℕ) (brk : Ptr)
    → initial_capacity < 2 ^ 64
    → 0 < brk
    → IsLive (construct t initial_capacity brk) []
unfolding construct
construct-IsLive t initial_capacity brk fits positive =
    let size = first_size initial_capacity in
    let kept = add_chunk_kept t size (no_chunks size brk) in
    record {
      free = _;
      pool = construct-IsPool t initial_capacity brk fits positive;
      positive = omega (arith, kept.1, positive);
      growing = let some_blocks : 0 < size = ground arith in omega (arith, kept.0, some_blocks);
    }

pub construct_size :
    (t : Layout) (initial_capacity : ℕ) (brk : Ptr)
    → initial_capacity < 2 ^ 64
    → ((construct t initial_capacity brk).chunk_size ≡ first_size initial_capacity)
      × ((construct t initial_capacity brk).total_capacity ≡ first_size initial_capacity)
unfolding construct add_chunk
construct_size t initial_capacity brk fits =
    let size = first_size initial_capacity in
    let empty = no_chunks size brk in
    let begun : SlabAllocator = record empty {
      chunks = brk ∷ [];
      brk = brk + block_size t * size;
    } in
    let bounded : size < 2 ^ 64 = ground (arith, fits) in
    (
      (carve_chunk size 0 (block_size t) brk begun).0,
      ap (λ n. add64 n size) (carve_total size 0 (block_size t) brk begun)
          ∙ (add64_small 0 size (omega (arith, bounded)) ∙ omega arith),
    )
