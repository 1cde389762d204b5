-- ===== src/Memory/Valid.antt =====
-- What holds of an arena between calls (cero/util/memory_arena.cc), and that `allocate` keeps it.
use cero.Common.{ℕ, ◌+◌, ◌%◌, ◌^◌, ◌≤◌, ◌<◌, List, [], ◌∷◌, ◌≡◌, refl, arith, All, ◌⊎◌, inl, inr}
use cero.Memory.{Block, MemoryArena, block_header, padding, with_initial_size}

-- Two stretches of memory do not overlap.
abbrev pub Apart : ℕ → ℕ → ℕ → ℕ → Type 0
Apart a n b m = (a + n ≤ b) ⊎ (b + m ≤ a)

abbrev pub BlockApart : Block → Block → Type 0
BlockApart b c = Apart b.address b.size c.address c.size

abbrev pub AllApart : List Block → Type 0
AllApart [] = Unit
AllApart (b ∷ bs) = All (BlockApart b) bs × AllApart bs

-- A block has room for its header, and lies in memory.
abbrev pub IsBlock : Block → Type 0
IsBlock b = (0 < b.address) × (block_header ≤ b.size) × (b.address + b.size < 2 ^ 64)

-- What is left stands at the end of the head block, behind its header.
abbrev pub Room : List Block → ℕ → ℕ → Type 0
Room [] ptr space = (ptr ≡ 0) × (space ≡ 0)
Room (b ∷ bs) ptr space = (b.address + block_header ≤ ptr) × (ptr + space ≡ b.address + b.size)

unfoldable pub sizes : List Block → ℕ
sizes [] = 0
sizes (b ∷ bs) = b.size + sizes bs

pub record IsValid (a : MemoryArena) : Type 0 where
  pub blocks : All IsBlock a.head_block
  pub apart : AllApart a.head_block
  pub room : Room a.head_block a.next_ptr a.remaining_size
  pub total : a.total_size ≡ sizes a.head_block % 2 ^ 64

-- The alignments of the types that the compiler allocates.
abbrev pub IsAlignment : ℕ → Type 0
IsAlignment n = (n ≡ 1) ⊎ (n ≡ 2) ⊎ (n ≡ 4) ⊎ (n ≡ 8)

-- The padding makes a multiple of the alignment, and a multiple needs none.
pub padding_lem :
    (alignment ptr : ℕ)
    → IsAlignment alignment
    → ((ptr + padding alignment ptr) % alignment ≡ 0) × (ptr % 8 ≡ 0 → padding alignment ptr ≡ 0)
unfolding padding
padding_lem alignment ptr (inl e) = rw e (omega arith, λ h. omega arith)
padding_lem alignment ptr (inr (inl e)) = rw e (omega arith, λ h. omega arith)
padding_lem alignment ptr (inr (inr (inl e))) = rw e (omega arith, λ h. omega arith)
padding_lem alignment ptr (inr (inr (inr e))) = rw e (omega arith, λ h. omega arith)

pub multiple_of_eight :
    (alignment ptr : ℕ) → IsAlignment alignment → ptr % 8 ≡ 0 → ptr % alignment ≡ 0
multiple_of_eight alignment ptr (inl e) h = rw e (omega arith)
multiple_of_eight alignment ptr (inr (inl e)) h = rw e (omega arith)
multiple_of_eight alignment ptr (inr (inr (inl e))) h = rw e (omega arith)
multiple_of_eight alignment ptr (inr (inr (inr e))) h = rw e (omega arith)

pub with_initial_size-IsValid : (n : ℕ) → IsValid (with_initial_size n)
unfolding with_initial_size sizes
with_initial_size-IsValid n = record { blocks = tt; apart = tt; room = (refl, refl); total = refl }
