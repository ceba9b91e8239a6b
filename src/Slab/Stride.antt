-- ===== src/Slab/Stride.antt =====
-- The stride of the blocks, `block_size()`.
use native.Mathlib.Nat.{div-add-mod', mod-lt, mul-mod_left}
use lowlatency_exec_core.Common.{ℕ, ◌<◌, ◌*◌, ◌+◌, ◌-◌, ◌/◌, ◌%◌, ◌≤◌, ◌≡◌, arith, le_trans}
use lowlatency_exec_core.Slab.{Layout, block_size, raw_block_size, larger, block_align, free_node}

round_up : (n d : ℕ) → 0 < d → n ≤ (n + d - 1) / d * d
round_up n d h = omega (arith, h, div-add-mod' (n + d - 1) d, mod-lt (n + d - 1) h)

larger_bounds : (a b : ℕ) → (a ≤ larger a b) × (b ≤ larger a b)
larger_bounds a b = (ground arith, ground arith)

-- For every object layout the stride of the blocks is positive, has room for an object and for a
-- free node, and is a multiple of the blocks' alignment.
pub block_size_lem :
    (t : Layout)
    → (0 < block_size t)
      × (t.size ≤ block_size t)
      × (free_node.size ≤ block_size t)
      × (block_size t % block_align t ≡ 0)
unfolding block_size raw_block_size block_align
block_size_lem t =
    let sizes = larger_bounds t.size 8 in
    let aligns = larger_bounds t.align 8 in
    let covers = round_up (larger t.size 8) (larger t.align 8) (omega (arith, aligns.1)) in
    (
      omega (arith, covers, sizes.1),
      le_trans sizes.0 covers,
      le_trans sizes.1 covers,
      mul-mod_left _ _,
    )
