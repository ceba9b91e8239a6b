-- ===== src/Slab/Growth.antt =====
-- Chunks: the blocks that `add_chunk` carves are new, and the constructor and every growth keep the
-- invariant of the pool.
use lowlatency_exec_core.Words.{add64, add64_small}
use lowlatency_exec_core.Slab.Pool.{Chain, Chain-link, Distinct, has, link_self, IsPool}
use lowlatency_exec_core.Common.{
  ap, suc, ◌<◌, All, All-weaken, ◌∷◌, refl, sym, subst, ◌*◌, ◌+◌, List, true, false, [], zero, ◌≤◌,
  arith, ℕ, ◌≡◌, ◌^◌, length, ◌∙◌, ◌++◌, if◌then◌else◌, ◌==◌,
}
use lowlatency_exec_core.Slab.Stride.{block_size_lem}
use lowlatency_exec_core.Slab.{Ptr, Layout, SlabAllocator, block_size, link, carve, add_chunk}

-- The blocks that `rounds` rounds carve from the counter `i` on, the last one first.
abbrev pub carved : ℕ → (i stride bytes : ℕ) → List Ptr → List Ptr
carved zero i stride bytes free = free
carved (suc rounds) i stride bytes free =
    carved rounds (i + 1) stride bytes ((bytes + i * stride) ∷ free)

-- What holds before each round of the loop of `add_chunk`: the free blocks lie below `limit`.
record IsCarving (a : SlabAllocator) (limit : ℕ) (free used : List Ptr) : Type 0 where
  chain : Chain a.links a.free_list free
  distinct : Distinct free
  below : All (λ p. p < limit) free
  apart : (p : Ptr) → has p free ≡ true → has p used ≡ false

not_has_above : (p : Ptr) (xs : List Ptr) → All (λ q. q < p) xs → has p xs ≡ false
not_has_above p [] h = refl
not_has_above p (x ∷ xs) h = ground (arith, h.0, not_has_above p xs h.1)

module _ (block : Ptr) (a : SlabAllocator) {limit next : ℕ} (free used : List Ptr) where
  -- One round: a block at or above the limit goes to the head of the free list.
  carve_one :
      limit ≤ block
      → 0 < block
      → block < next
      → All (λ p. p < limit) used
      → IsCarving a limit free used
      → IsCarving
          (record a { free_list = block; links = link a.links block a.free_list })
          next
          (block ∷ free)
          used
  carve_one above positive inside used_below v =
      let out : has block free ≡ false =
        not_has_above block free (All-weaken (λ p h. omega (arith, h, above)) free v.below) in
      let unused : has block used ≡ false =
        not_has_above block used (All-weaken (λ p h. omega (arith, h, above)) used used_below) in
      record {
        chain = (
          refl,
          (λ e. omega (arith, e, positive)),
          subst (λ q. Chain (link a.links block a.free_list) q free)
              (sym (link_self a.links block a.free_list))
              (Chain-link a.links block a.free_list a.free_list free out v.chain),
        );
        distinct = (out, v.distinct);
        below = (inside, All-weaken (λ p h. omega (arith, h, above, inside)) free v.below);
        apart = λ p h. ground (arith, unused, v.apart p);
      }

later_end :
    (rounds i stride bytes : ℕ)
    → bytes + (i + 1 + rounds) * stride ≡ bytes + (i + suc rounds) * stride
later_end rounds i stride bytes = ap (λ n. bytes + n * stride) (omega arith)

next_start : (i stride : ℕ) → i * stride + stride ≡ (i + 1) * stride
next_start i stride = omega arith

carve-IsCarving :
    (rounds i stride bytes : ℕ) (a : SlabAllocator) (free used : List Ptr)
    → 0 < stride
    → 0 < bytes
    → All (λ p. p < bytes) used
    → IsCarving a (bytes + i * stride) free used
    → IsCarving
        (carve rounds i stride bytes a)
        (bytes + (i + rounds) * stride)
        (carved rounds i stride bytes free)
        used
unfolding carve
carve-IsCarving zero i stride bytes a free used s b u v =
    subst (λ limit. IsCarving a limit free used) (ap (λ n. bytes + n * stride) (omega arith)) v
carve-IsCarving (suc rounds) i stride bytes a free used s b u v =
    subst
      (λ limit.
        IsCarving (carve (suc rounds) i stride bytes a) limit
          (carved (suc rounds) i stride bytes free) used)
      (later_end rounds i stride bytes)
      (carve-IsCarving rounds (i + 1) stride bytes _ _ used s b u (
        carve_one (bytes + i * stride) a free used (omega arith) (omega (arith, b))
          (omega (arith, s, next_start i stride)) (All-weaken (λ p h. omega (arith, h)) used u) v))

-- The loop writes links and the head of the free list, and nothing else.
carve_kept :
    (rounds i stride bytes : ℕ) (a : SlabAllocator)
    → ((carve rounds i stride bytes a).brk ≡ a.brk)
      × ((carve rounds i stride bytes a).in_use ≡ a.in_use)
      × ((carve rounds i stride bytes a).total_capacity ≡ a.total_capacity)
      × ((carve rounds i stride bytes a).growth_events ≡ a.growth_events)
unfolding carve
carve_kept zero i stride bytes a = (refl, refl, refl, refl)
carve_kept (suc rounds) i stride bytes a = carve_kept rounds (i + 1) stride bytes _

pub length-carved :
    (rounds i stride bytes : ℕ) (free : List Ptr)
    → length (carved rounds i stride bytes free) ≡ rounds + length free
length-carved zero i stride bytes free = omega arith
length-carved (suc rounds) i stride bytes free =
    length-carved rounds (i + 1) stride bytes _ ∙ omega arith

-- The blocks of the first chunk: an initial capacity of zero counts as one.
abbrev pub first_size : ℕ → ℕ
first_size initial_capacity = if initial_capacity == 0 then 1 else initial_capacity

-- A chunk of `count` new blocks keeps the invariant: they are free, and none was in the pool.
pub add_chunk-IsPool :
    (t : Layout) (count : ℕ) (a : SlabAllocator) (free used : List Ptr)
    → IsPool a free used
    → 0 < a.brk
    → a.total_capacity + count < 2 ^ 64
    → IsPool (add_chunk t count a) (carved count 0 (block_size t) a.brk free) used
unfolding add_chunk
add_chunk-IsPool t count a free used v positive fits =
    let chunk : SlabAllocator = record a {
      chunks = a.chunks ++ a.brk ∷ [];
      brk = a.brk + block_size t * count;
    } in
    let kept = carve_kept count 0 (block_size t) a.brk chunk in
    let start : IsCarving chunk (a.brk + 0 * block_size t) free used = record {
      chain = v.chain;
      distinct = v.distinct_free;
      below = All-weaken (λ p h. omega (arith, h)) free v.below.0;
      apart = v.apart;
    } in
    let made =
      carve-IsCarving count 0 (block_size t) a.brk chunk free used (block_size_lem t).0 positive
        (All-weaken (λ p h. h.1) used v.below.1) start in
    let sum : add64 (carve count 0 (block_size t) a.brk chunk).total_capacity count
        ≡ a.total_capacity + count =
      rw (kept.2) (add64_small a.total_capacity count fits) in
    record {
      chain = made.chain;
      distinct_free = made.distinct;
      distinct_used = v.distinct_used;
      apart = made.apart;
      below = rw (kept.0) (
        All-weaken (λ p h. omega (arith, h)) _ made.below,
        All-weaken (λ p h. (h.0, omega (arith, h.1))) used v.below.1,
      );
      in_use = kept.1 ∙ v.in_use;
      total = sum ∙ omega (arith, v.total, length-carved count 0 (block_size t) a.brk free);
      fits = rw sum fits;
    }
