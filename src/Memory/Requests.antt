-- ===== src/Memory/Requests.antt =====
-- One call of `MemoryArena::allocate` (cero/util/memory_arena.cc): the state that it leaves is
-- valid, and where the bytes are that it gives out.
use cero.Common.{
  ℕ, ◌+◌, ◌-◌, ◌%◌, ◌^◌, ◌≤◌, ◌<◌, false, List, [], ◌∷◌, leb, ◌==◌, ◌≡◌, refl, sym, subst, arith,
  All, ◌⊎◌, inl, inr, if◌then◌else◌, if_rule, leb_of_le, leb→le,
}
use cero.Memory.{
  Block, MemoryArena, block_header, padding, align, block_size_for, create_block, give_out,
  allocate,
}
use cero.Memory.Valid.{
  Apart, IsBlock, Room, sizes, IsValid, IsAlignment, padding_lem, multiple_of_eight,
}

-- What `operator new` returns for the block that a request may need: memory aligned to 16 bytes,
-- apart from the blocks that the arena holds.
pub record IsFresh (a : MemoryArena) (size fresh : ℕ) : Type 0 where
  pub not_null : 0 < fresh
  pub aligned : fresh % 16 ≡ 0
  pub within : fresh + block_size_for a size < 2 ^ 64
  pub apart : All (λ b. Apart fresh (block_size_for a size) b.address b.size) a.head_block
  pub fits : size + block_header < 2 ^ 64

-- Where the bytes of a request stand: at the old pointer or above it in the head block, or behind
-- the header of a new one.
abbrev pub Where : MemoryArena → ℕ → ℕ → ℕ → MemoryArena → Type 0
Where a size fresh ptr b =
    ((b.head_block ≡ a.head_block) × (a.next_ptr ≤ ptr))
    ⊎ ((b.head_block ≡ record { address = fresh; size = block_size_for a size } ∷ a.head_block)
        × (fresh + block_header ≤ ptr))

-- What a call comes to.
pub record Served (a : MemoryArena) (size alignment fresh : ℕ) (r : ℕ × MemoryArena) : Type 0 where
  pub valid : IsValid r.1
  pub aligned : r.0 % alignment ≡ 0
  pub not_null : 0 < r.0
  pub ends : r.1.next_ptr ≡ r.0 + size
  pub place : Where a size fresh r.0 r.1

Room-shrink :
    (bs : List Block) (ptr space size : ℕ)
    → All IsBlock bs
    → Room bs ptr space
    → 0 < ptr
    → size ≤ space
    → Room bs ((ptr + size) % 2 ^ 64) ((space + 2 ^ 64 - size) % 2 ^ 64)
      × ((ptr + size) % 2 ^ 64 ≡ ptr + size)
Room-shrink [] ptr space size b r p l = absurd (omega arith)
Room-shrink (c ∷ bs) ptr space size b r p l = omega (arith, b.0, r.0, r.1)

Room-align :
    (bs : List Block) (ptr space gap : ℕ)
    → Room bs ptr space
    → 0 < ptr + gap
    → gap ≤ space
    → Room bs (ptr + gap) (space - gap)
Room-align [] ptr space gap r p l = absurd (omega (arith, r.0, r.1))
Room-align (c ∷ bs) ptr space gap r p l = omega (arith, r.0, r.1)

-- Bytes of the space that is left are given out.
give_out_lem :
    (a : MemoryArena) (size : ℕ)
    → IsValid a
    → 0 < a.next_ptr
    → size ≤ a.remaining_size
    → IsValid (give_out size a).1 × ((give_out size a).1.next_ptr ≡ a.next_ptr + size)
unfolding give_out
give_out_lem a size v p l =
    let (r, e) = Room-shrink a.head_block a.next_ptr a.remaining_size size v.blocks v.room p l in
    (record { blocks = v.blocks; apart = v.apart; room = r; total = v.total }, e)

block_size_for_bounds :
    (a : MemoryArena) (size : ℕ)
    → size + block_header < 2 ^ 64
    → size + block_header ≤ block_size_for a size
unfolding block_size_for
block_size_for_bounds a size h = ground arith

not_zero : (n : ℕ) → (n == 0) ≡ false → 0 < n
not_zero n h = ground arith

align_here :
    (alignment size ptr space : ℕ)
    → padding alignment ptr ≡ 0
    → size ≤ space
    → align alignment size ptr space ≡ (ptr, ptr, space)
unfolding align
align_here alignment size ptr space g l =
    let e : ptr + 0 ≡ ptr = omega arith in
    let d : space - 0 ≡ space = omega arith in
    rw (g, leb_of_le (0 + size) space (omega arith), e, d)

-- A new block begins behind its header, and has room for the request.
create_block_lem :
    (a : MemoryArena) (size alignment fresh : ℕ)
    → IsValid a
    → IsAlignment alignment
    → IsFresh a size fresh
    → IsValid (create_block fresh size alignment a)
      × ((create_block fresh size alignment a).next_ptr ≡ fresh + block_header)
      × (size ≤ (create_block fresh size alignment a).remaining_size)
unfolding create_block sizes
create_block_lem a size alignment fresh v al f =
    let n = block_size_for a size in
    let l = block_size_for_bounds a size f.fits in
    let w = f.within in
    let p = f.not_null in
    let g = (padding_lem alignment (fresh + block_header) al).1 (omega (arith, f.aligned)) in
    let s : (n + 2 ^ 64 - block_header) % 2 ^ 64 ≡ n - block_header = omega arith in
    rw (s, align_here alignment size (fresh + block_header) (n - block_header) g (omega arith))
      (
        record {
          blocks = (omega arith, v.blocks);
          apart = (f.apart, v.apart);
          room = omega arith;
          total = omega (arith, v.total);
        },
        refl,
        omega arith,
      )

align_rule {κ} :
    (P : ℕ × ℕ × ℕ → Type κ) (alignment size ptr space : ℕ)
    → (padding alignment ptr + size ≤ space
        → P (
          ptr + padding alignment ptr,
          ptr + padding alignment ptr,
          space - padding alignment ptr,
        ))
    → P (0, ptr, space)
    → P (align alignment size ptr space)
unfolding align
align_rule P alignment size ptr space found missing =
    if_rule P (leb (padding alignment ptr + size) space)
      (λ e. found (leb→le (padding alignment ptr + size) space e)) (λ _. missing)

-- The pointer and the space that is left play no part in the making of a block.
create_block_anew :
    (a : MemoryArena) (size alignment fresh ptr space : ℕ)
    → create_block fresh size alignment (record a { next_ptr = ptr; remaining_size = space })
      ≡ create_block fresh size alignment a
unfolding create_block block_size_for
create_block_anew a size alignment fresh ptr space = refl

module _ (a : MemoryArena) (size alignment fresh : ℕ) (v : IsValid a)
    (al : IsAlignment alignment) where
  -- A request that a new block serves.
  Served-anew :
      IsFresh a size fresh
      → Served a size alignment fresh (give_out size (create_block fresh size alignment a))
  unfolding give_out create_block
  Served-anew f =
      let (w, e, l) = create_block_lem a size alignment fresh v al f in
      let (u, k) = give_out_lem (create_block fresh size alignment a) size w (omega (arith, e)) l in
      record {
        valid = u;
        aligned =
            subst (λ x. x % alignment ≡ 0) (sym e)
              (multiple_of_eight alignment (fresh + block_header) al (omega (arith, f.aligned)));
        not_null = omega (arith, e);
        ends = k;
        place = inr (refl, omega (arith, e));
      }

  -- A request that the space behind the pointer serves.
  Served-here :
      padding alignment a.next_ptr + size ≤ a.remaining_size
      → 0 < a.next_ptr + padding alignment a.next_ptr
      → Served a size alignment fresh (
          give_out size (record a {
            next_ptr = a.next_ptr + padding alignment a.next_ptr;
            remaining_size = a.remaining_size - padding alignment a.next_ptr;
          }))
  unfolding give_out
  Served-here l p =
      let gap = padding alignment a.next_ptr in
      let b : MemoryArena = record a {
        next_ptr = a.next_ptr + gap;
        remaining_size = a.remaining_size - gap;
      } in
      let w : IsValid b = record {
        blocks = v.blocks;
        apart = v.apart;
        room = Room-align a.head_block a.next_ptr a.remaining_size gap v.room p (omega arith);
        total = v.total;
      } in
      let (u, k) = give_out_lem b size w p (omega arith) in
      record {
        valid = u;
        aligned = (padding_lem alignment a.next_ptr al).0;
        not_null = p;
        ends = k;
        place = inl (refl, omega arith);
      }

-- Every request is served: the state that it leaves is valid, the pointer is not null and a
-- multiple of the alignment, and so many bytes behind it are given out.
pub allocate_lem :
    (a : MemoryArena) (size alignment fresh : ℕ)
    → IsValid a
    → IsAlignment alignment
    → IsFresh a size fresh
    → Served a size alignment fresh (allocate fresh size alignment a)
unfolding allocate
allocate_lem a size alignment fresh v al f =
    align_rule
      (λ r. Served a size alignment fresh (
        give_out size (
          if r.0 == 0
          then create_block fresh size alignment (record a { next_ptr = r.1; remaining_size = r.2 })
          else record a { next_ptr = r.1; remaining_size = r.2 })))
      alignment size a.next_ptr a.remaining_size
      (λ l.
        let gap = padding alignment a.next_ptr in
        if_rule (λ x. Served a size alignment fresh (give_out size x)) (a.next_ptr + gap == 0)
          (λ _.
            rw
              (create_block_anew a size alignment fresh (a.next_ptr + gap) (a.remaining_size - gap))
              (Served-anew a size alignment fresh v al f))
          (λ e. Served-here a size alignment fresh v al l (not_zero (a.next_ptr + gap) e)))
      (rw (create_block_anew a size alignment fresh a.next_ptr a.remaining_size)
        (Served-anew a size alignment fresh v al f))
