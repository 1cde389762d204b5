-- ===== src/Memory/Dangling.antt =====
-- `MemoryArena::release` of cero/util/memory_arena.cc leaves the pointer into a deleted block.
use cero.Common.{ℕ, ◌+◌, ◌≤◌, ◌<◌, false, List, [], ◌∷◌, ◌==◌, leb_of_le, ◌≡◌, refl, subst, arith}
use cero.Memory.{Block, MemoryArena, padding, align, give_out, allocate, delete_blocks, release}
use cero.Memory.Regions.{Inside}
use cero.Memory.Valid.{IsValid, Room}

ne_zero : (n : ℕ) → 0 < n → (n == 0) ≡ false
ne_zero n h = ground arith

-- Where an arena with a block is released, the block is deleted. A later request that fits behind
-- the pointer is served from that block, though the arena then holds no block at all.
pub allocate-release :
    (a : MemoryArena) (b : Block) (bs : List Block) (size alignment fresh : ℕ)
    → IsValid a
    → a.head_block ≡ b ∷ bs
    → padding alignment a.next_ptr + size ≤ a.remaining_size
    → ((release a).0 ≡ b.address ∷ delete_blocks bs)
      × ((allocate fresh size alignment (release a).1).1.head_block ≡ [])
      × Inside (record { start = (allocate fresh size alignment (release a).1).0; size = size }) b
unfolding allocate release align give_out delete_blocks
allocate-release a b bs size alignment fresh v e l =
    let gap = padding alignment a.next_ptr in
    let m = subst (λ x. Room x a.next_ptr a.remaining_size) e v.room in
    rw
      (
        leb_of_le (gap + size) a.remaining_size l,
        ne_zero (a.next_ptr + gap) (omega (arith, m.0)),
        e,
      )
      (refl, refl, (omega (arith, m.0), omega (arith, m.1)))
