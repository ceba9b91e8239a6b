-- ===== src/Slab/Tests.antt =====
-- The theorems of the pool at a concrete pool of two blocks.
use lowlatency_exec_core.Common.{◌≡◌, [], ◌∷◌, arith, refl, List, ◌==◌, if◌then◌else◌}
use lowlatency_exec_core.Slab.{Ptr, Layout, SlabAllocator, allocate, deallocate, destruct}
use lowlatency_exec_core.Slab.Pool.{IsPool, deallocate-IsPool}
use lowlatency_exec_core.Slab.Life.{allocate-IsPool}

abbrev node : Layout
node = record { size = 48; align = 8 }

-- Both blocks are free.
abbrev fresh : SlabAllocator
fresh = record {
  chunks = 1000 ∷ [];
  free_list = 1048;
  chunk_size = 2;
  total_capacity = 2;
  in_use = 0;
  growth_events = 0;
  links = λ p. if p == 1048 then 1000 else 0;
  brk = 1096;
}

fresh-IsPool : IsPool fresh (1048 ∷ 1000 ∷ []) []
fresh-IsPool = record {
  chain = (refl, (λ e. omega (arith, e)), (refl, (λ e. omega (arith, e)), refl));
  distinct_free = (refl, (refl, tt));
  distinct_used = tt;
  apart = λ p h. refl;
  below = ((omega arith, (omega arith, tt)), tt);
  in_use = refl;
  total = refl;
  fits = omega arith;
}

-- Both blocks are in use.
abbrev spent : SlabAllocator
spent = record fresh { free_list = 0; in_use = 2 }

spent-IsPool : IsPool spent [] (1000 ∷ 1048 ∷ [])
spent-IsPool = record {
  chain = refl;
  distinct_free = tt;
  distinct_used = (refl, (refl, tt));
  apart = λ p h. cc;
  below = (tt, ((omega arith, omega arith), ((omega arith, omega arith), tt)));
  in_use = refl;
  total = refl;
  fits = omega arith;
}

allocate-IsPool_example :
    (left : List Ptr) × IsPool
      (allocate node spent).1
      left
      ((allocate node spent).0 ∷ 1000 ∷ 1048 ∷ [])
allocate-IsPool_example =
    allocate-IsPool node spent [] (1000 ∷ 1048 ∷ []) spent-IsPool (omega arith) (omega arith)
      (omega arith)

deallocate-IsPool_example : IsPool (deallocate 1000 spent) (1000 ∷ []) (1048 ∷ [])
deallocate-IsPool_example = deallocate-IsPool node spent 1000 [] (1048 ∷ []) spent-IsPool

-- The destructor deletes the one chunk of the pool.
one_chunk : destruct (λ chunk deleted. chunk ∷ deleted) spent [] ≡ 1000 ∷ []
unfolding destruct
one_chunk = refl
