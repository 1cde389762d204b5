-- ===== src/Memory.antt =====
-- The memory arena: cero/util/memory_arena.hh and .cc, on a 64-bit machine. An address is a number
-- and 0 is the null pointer. The linked list of block headers is a list of blocks, the head block
-- first, each with the size that `operator new` was asked for. The address that `operator new`
-- returns, if it is called, is an argument.
pub mod Valid
pub mod Requests
pub mod Regions
pub mod Dangling
pub mod Array
mod Tests
use cero.Common.{ℕ, ◌+◌, ◌-◌, ◌/◌, ◌%◌, ◌^◌, Bool, List, [], ◌∷◌, leb, ◌==◌, if◌then◌else◌}

pub record Block : Type 0 where
  pub address : ℕ
  pub size : ℕ

pub record MemoryArena : Type 0 where
  pub next_ptr : ℕ
  pub remaining_size : ℕ
  pub next_block_size : ℕ
  pub head_block : List Block
  pub total_size : ℕ

-- `sizeof(Block)`: a pointer.
abbrev pub block_header : ℕ
block_header = 8

abbrev pub initial_block_size : ℕ
initial_block_size = 1024

-- An arena whose first block gets the initial size.
unfoldable pub with_initial_size : ℕ → MemoryArena
with_initial_size initial_size = record {
  next_ptr = 0;
  remaining_size = 0;
  next_block_size = initial_size;
  head_block = [];
  total_size = 0;
}

unfoldable pub empty_arena : MemoryArena
unfolding with_initial_size
empty_arena = with_initial_size initial_block_size

-- What the pointer lacks to the next multiple of the alignment.
unfoldable pub padding : ℕ → ℕ → ℕ
padding alignment ptr = (alignment - ptr % alignment) % alignment

-- `std::align(alignment, size, ptr, space)`: the result, and what it makes of `ptr` and `space`.
unfoldable pub align : ℕ → ℕ → ℕ → ℕ → ℕ × ℕ × ℕ
align alignment size ptr space =
    let gap = padding alignment ptr in
    if leb (gap + size) space then (ptr + gap, ptr + gap, space - gap) else (0, ptr, space)

abbrev pub max : ℕ → ℕ → ℕ
max a b = if leb a b then b else a

-- The size of the next block, if it is made for so many bytes.
unfoldable pub block_size_for : MemoryArena → ℕ → ℕ
block_size_for a size = max a.next_block_size ((size + block_header) % 2 ^ 64)

unfoldable pub create_block : ℕ → ℕ → ℕ → MemoryArena → MemoryArena
create_block fresh size alignment a =
    let block_size = block_size_for a size in
    let (ptr, _, space) =
      align alignment size (fresh + block_header) ((block_size + 2 ^ 64 - block_header) % 2 ^ 64) in
    record {
      next_ptr = ptr;
      remaining_size = space;
      next_block_size = (a.next_block_size + a.next_block_size / 2) % 2 ^ 64;
      head_block = record { address = fresh; size = block_size } ∷ a.head_block;
      total_size = (a.total_size + block_size) % 2 ^ 64;
    }

-- The end of `allocate`: the bytes behind the pointer are given out.
unfoldable pub give_out : ℕ → MemoryArena → ℕ × MemoryArena
give_out size a = (
  a.next_ptr,
  record a {
    next_ptr = (a.next_ptr + size) % 2 ^ 64;
    remaining_size = (a.remaining_size + 2 ^ 64 - size) % 2 ^ 64;
  },
)

unfoldable pub allocate : ℕ → ℕ → ℕ → MemoryArena → ℕ × MemoryArena
allocate fresh size alignment a =
    let (ptr, next, space) = align alignment size a.next_ptr a.remaining_size in
    let b = record a { next_ptr = next; remaining_size = space } in
    give_out size (if ptr == 0 then create_block fresh size alignment b else b)

-- The loop of `release`: the addresses that are given to `operator delete`, in order.
unfoldable pub delete_blocks : List Block → List ℕ
delete_blocks [] = []
delete_blocks (block ∷ next) = block.address ∷ delete_blocks next

unfoldable pub release : MemoryArena → List ℕ × MemoryArena
unfolding delete_blocks
release a = (delete_blocks a.head_block, record a { head_block = []; total_size = 0 })

unfoldable pub get_total_size : MemoryArena → ℕ
get_total_size a = a.total_size

-- The move constructor: the new arena, and the one moved from.
unfoldable pub move_arena : MemoryArena → MemoryArena × MemoryArena
unfolding empty_arena
move_arena other = (other, empty_arena)

-- Move assignment to another arena: what is deleted, and the two arenas. To itself it does nothing.
unfoldable pub assign_arena : MemoryArena → MemoryArena → List ℕ × MemoryArena × MemoryArena
assign_arena a other =
    let (deleted, _) = release a in let (moved, left) = move_arena other in (deleted, moved, left)
