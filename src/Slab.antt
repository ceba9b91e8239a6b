-- ===== src/Slab.antt =====
-- SlabAllocator<T> of include/exec_core/slab_allocator.hpp. A block is named by its address, and
-- `links` holds the `next` pointer that a free block stores in its own bytes. `::operator new` is
-- the standard library's: it gives each chunk the addresses from `brk` on, and does not fail.
pub mod Pool
pub mod Stride
pub mod Growth
pub mod Life
pub mod Used
mod Tests
use lowlatency_exec_core.Common.{
  ℕ, zero, suc, ◌+◌, ◌-◌, ◌*◌, ◌/◌, List, [], ◌∷◌, ◌++◌, ltb, ◌==◌, if◌then◌else◌,
}
use lowlatency_exec_core.Words.{inc64, dec64, add64}

abbrev pub Ptr : Type 0
Ptr = ℕ

-- `nullptr`
abbrev pub null : Ptr
null = 0

-- `sizeof(T)` and `alignof(T)` of the template's argument.
pub record Layout : Type 0 where
  pub size : ℕ
  pub align : ℕ

-- `sizeof(FreeNode)` and `alignof(FreeNode)`: one 64-bit pointer.
abbrev pub free_node : Layout
free_node = record { size = 8; align = 8 }

abbrev larger : ℕ → ℕ → ℕ
larger a b = if ltb b a then a else b

unfoldable pub raw_block_size : Layout → ℕ
raw_block_size t = larger t.size free_node.size

unfoldable pub block_align : Layout → ℕ
block_align t = larger t.align free_node.align

-- The stride of the blocks: the raw size rounded up to a multiple of the alignment.
unfoldable pub block_size : Layout → ℕ
unfolding raw_block_size block_align
block_size t = (raw_block_size t + block_align t - 1) / block_align t * block_align t

pub record SlabAllocator : Type 0 where
  pub chunks : List Ptr
  pub free_list : Ptr
  pub chunk_size : ℕ
  pub total_capacity : ℕ
  pub in_use : ℕ
  pub growth_events : ℕ
  pub links : Ptr → Ptr
  pub brk : Ptr

-- `node->next = next`
unfoldable pub link : (Ptr → Ptr) → Ptr → Ptr → Ptr → Ptr
link links node next p = if p == node then next else links p

-- The `for` loop of `add_chunk`, with the rounds left and the counter `i`.
carve : ℕ → (i stride bytes : ℕ) → SlabAllocator → SlabAllocator
carve zero i stride bytes a = a
carve (suc rounds) i stride bytes a =
    let block = bytes + i * stride in
    carve rounds (i + 1) stride bytes
      (record a { free_list = block; links = link a.links block a.free_list })

unfoldable pub add_chunk : Layout → ℕ → SlabAllocator → SlabAllocator
unfolding carve link
add_chunk t count a =
    let raw = a.brk in
    let carved =
      carve count 0 (block_size t) raw
        (record a { chunks = a.chunks ++ raw ∷ []; brk = raw + block_size t * count }) in
    record carved { total_capacity = add64 carved.total_capacity count }

-- The constructor, where `::operator new` gives addresses from `brk` on.
unfoldable pub construct : Layout → (initial_capacity : ℕ) (brk : Ptr) → SlabAllocator
unfolding add_chunk
construct t initial_capacity brk =
    let size = if initial_capacity == 0 then 1 else initial_capacity in
    add_chunk t size (record {
      chunks = [];
      free_list = null;
      chunk_size = size;
      total_capacity = 0;
      in_use = 0;
      growth_events = 0;
      links = λ _. null;
      brk = brk;
    })

grow : Layout → SlabAllocator → SlabAllocator
unfolding add_chunk
grow t a =
    let grown = add_chunk t a.chunk_size a in
    record grown { growth_events = inc64 grown.growth_events }

-- The first block of the free list; a chunk is added where the list is empty.
take_block : SlabAllocator → Ptr × SlabAllocator
take_block a = (a.free_list, record a { free_list = a.links a.free_list; in_use = inc64 a.in_use })

unfoldable pub allocate : Layout → SlabAllocator → Ptr × SlabAllocator
unfolding grow take_block
allocate t a = take_block (if a.free_list == null then grow t a else a)

-- The destructor gives each chunk back; `operator_delete` is what that does to the memory.
unfoldable pub destruct {ℓ} : {M : Type ℓ} → (operator_delete : Ptr → M → M) → SlabAllocator → M → M
destruct {M = M} operator_delete a m = delete_each a.chunks m
  where
    delete_each : List Ptr → M → M
    delete_each [] m = m
    delete_each (chunk ∷ chunks) m = delete_each chunks (operator_delete chunk m)

unfoldable pub deallocate : Ptr → SlabAllocator → SlabAllocator
unfolding link
deallocate p a = record a {
  links = link a.links p a.free_list;
  free_list = p;
  in_use = dec64 a.in_use;
}

unfoldable pub capacity : SlabAllocator → ℕ
capacity a = a.total_capacity

unfoldable pub used_blocks : SlabAllocator → ℕ
used_blocks a = a.in_use

unfoldable pub growths : SlabAllocator → ℕ
growths a = a.growth_events
