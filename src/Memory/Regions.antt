-- ===== src/Memory/Regions.antt =====
-- What an arena has given out since it was made (cero/util/memory_arena.cc).
use cero.Common.{
  ℕ, ◌+◌, ◌≤◌, ◌<◌, List, [], ◌∷◌, ◌≡◌, sym, subst, arith, All, All-imp, ◌⊎◌, inl, inr,
}
use cero.Memory.{Block, MemoryArena, block_header, block_size_for, allocate, with_initial_size}
use cero.Memory.Requests.{IsFresh, Served, allocate_lem}
use cero.Memory.Valid.{
  Apart, AllApart, BlockApart, Room, IsValid, IsAlignment, with_initial_size-IsValid,
}

-- The bytes that one request got.
pub record Region : Type 0 where
  pub start : ℕ
  pub size : ℕ

abbrev pub RegionApart : Region → Region → Type 0
RegionApart r s = Apart r.start r.size s.start s.size

abbrev pub RegionsApart : List Region → Type 0
RegionsApart [] = Unit
RegionsApart (r ∷ rs) = All (RegionApart r) rs × RegionsApart rs

-- The region lies in the block, behind its header.
abbrev pub Inside : Region → Block → Type 0
Inside r b = (b.address + block_header ≤ r.start) × (r.start + r.size ≤ b.address + b.size)

abbrev pub InsideOne : Region → List Block → Type 0
InsideOne r [] = ⊥
InsideOne r (b ∷ bs) = Inside r b ⊎ InsideOne r bs

-- The region lies in an older block, or in the head block below the pointer.
abbrev pub Held : List Block → ℕ → Region → Type 0
Held [] ptr r = ⊥
Held (b ∷ bs) ptr r = (Inside r b × (r.start + r.size ≤ ptr)) ⊎ InsideOne r bs

-- An arena, and the regions that the requests since it was made have got, the last one first.
pub data History : MemoryArena → List Region → Type 0 where
  made : (n : ℕ) → History (with_initial_size n) []
  request :
      {a : MemoryArena} {rs : List Region} (size alignment fresh : ℕ)
      → History a rs
      → IsAlignment alignment
      → IsFresh a size fresh
      → History
          (allocate fresh size alignment a).1
          (record { start = (allocate fresh size alignment a).0; size = size } ∷ rs)

Held→InsideOne : (bs : List Block) (ptr : ℕ) (r : Region) → Held bs ptr r → InsideOne r bs
Held→InsideOne [] ptr r h = absurd h
Held→InsideOne (b ∷ bs) ptr r (inl h) = inl h.0
Held→InsideOne (b ∷ bs) ptr r (inr h) = inr h

-- A higher pointer holds the same regions.
Held-higher :
    (bs : List Block) (ptr next : ℕ) (r : Region) → ptr ≤ next → Held bs ptr r → Held bs next r
Held-higher [] ptr next r l h = absurd h
Held-higher (b ∷ bs) ptr next r l (inl h) = inl (h.0, omega (arith, h.1))
Held-higher (b ∷ bs) ptr next r l (inr h) = inr h

-- What lies in a block apart from some stretch is apart from each region in that stretch.
InsideOne-Apart :
    (bs : List Block) (start size : ℕ) (r s : Region)
    → All (λ b. Apart start size b.address b.size) bs
    → start ≤ s.start
    → s.start + s.size ≤ start + size
    → InsideOne r bs
    → RegionApart s r
InsideOne-Apart [] start size r s a l k h = absurd h
InsideOne-Apart (b ∷ bs) start size r s (inl x, a) l k (inl h) = inl (omega (arith, h.0, h.1))
InsideOne-Apart (b ∷ bs) start size r s (inr x, a) l k (inl h) = inr (omega (arith, h.0, h.1))
InsideOne-Apart (b ∷ bs) start size r s (x, a) l k (inr h) =
    InsideOne-Apart bs start size r s a l k h

-- A region from the pointer on is apart from those that are held.
Held-Apart :
    (bs : List Block) (ptr space : ℕ) (r s : Region)
    → AllApart bs
    → Room bs ptr space
    → ptr ≤ s.start
    → s.start + s.size ≤ ptr + space
    → Held bs ptr r
    → RegionApart s r
Held-Apart [] ptr space r s a m l k h = absurd h
Held-Apart (b ∷ bs) ptr space r s a m l k (inl h) = inr (omega (arith, h.1))
Held-Apart (b ∷ bs) ptr space r s a m l k (inr h) =
    InsideOne-Apart bs b.address b.size r s a.0 (omega (arith, m.0)) (omega (arith, m.1)) h

Room-end :
    (bs : List Block) (ptr space next rest : ℕ)
    → Room bs ptr space
    → Room bs next rest
    → ptr + space ≡ next + rest
Room-end [] ptr space next rest h k = omega (arith, h.0, h.1, k.0, k.1)
Room-end (b ∷ bs) ptr space next rest h k = omega (arith, h.1, k.1)

Held-new :
    (bs : List Block) (ptr space next : ℕ) (r : Region)
    → Room bs ptr space
    → 0 < r.start
    → ptr ≤ r.start
    → r.start + r.size ≤ next
    → next ≤ ptr + space
    → Held bs next r
Held-new [] ptr space next r m p l k n = absurd (omega (arith, m.0, m.1))
Held-new (b ∷ bs) ptr space next r m p l k n = inl ((omega (arith, m.0), omega (arith, m.1)), k)

-- What a request adds to the regions that are held.
abbrev Adds : List Block → ℕ → Region → List Region → Type 0
Adds bs ptr r rs = All (Held bs ptr) (r ∷ rs) × All (RegionApart r) rs

-- In the space that is left.
Adds-here :
    (bs : List Block) (ptr space next rest : ℕ) (r : Region) (rs : List Region)
    → AllApart bs
    → Room bs ptr space
    → Room bs next rest
    → 0 < r.start
    → ptr ≤ r.start
    → next ≡ r.start + r.size
    → All (Held bs ptr) rs
    → Adds bs next r rs
Adds-here bs ptr space next rest r rs a m n p l e h =
    let k = Room-end bs ptr space next rest m n in
    (
      (
        Held-new bs ptr space next r m p l (omega arith) (omega arith),
        All-imp (Held bs ptr) (Held bs next) rs (λ s x. Held-higher bs ptr next s (omega arith) x)
            h,
      ),
      All-imp (Held bs ptr) (RegionApart r) rs
          (λ s x. Held-Apart bs ptr space s r a m l (omega arith) x) h,
    )

-- In a new block.
Adds-anew :
    (b : Block) (bs : List Block) (ptr next rest : ℕ) (r : Region) (rs : List Region)
    → All (BlockApart b) bs
    → Room (b ∷ bs) next rest
    → b.address + block_header ≤ r.start
    → next ≡ r.start + r.size
    → All (Held bs ptr) rs
    → Adds (b ∷ bs) next r rs
Adds-anew b bs ptr next rest r rs a m l e h = (
  (
    inl ((l, omega (arith, m.1)), omega arith),
    All-imp (Held bs ptr) (Held (b ∷ bs) next) rs (λ s x. inr (Held→InsideOne bs ptr s x)) h,
  ),
  All-imp (Held bs ptr) (RegionApart r) rs
      (λ s x.
        InsideOne-Apart bs b.address b.size s r a (omega arith) (omega (arith, m.1))
          (Held→InsideOne bs ptr s x))
      h,
)

-- One request more.
Served-Adds :
    (a b : MemoryArena) (size alignment fresh ptr : ℕ) (rs : List Region)
    → IsValid a
    → IsFresh a size fresh
    → Served a size alignment fresh (ptr, b)
    → All (Held a.head_block a.next_ptr) rs
    → Adds b.head_block b.next_ptr (record { start = ptr; size = size }) rs
Served-Adds a b size alignment fresh ptr rs v f w h = elim w.place [
  | inl (e, l) ↦
      subst (λ x. Adds x b.next_ptr (record { start = ptr; size = size }) rs) (sym e)
        (Adds-here a.head_block a.next_ptr a.remaining_size b.next_ptr b.remaining_size
          (record { start = ptr; size = size }) rs v.apart v.room
          (subst (λ x. Room x b.next_ptr b.remaining_size) e w.valid.room) w.not_null l w.ends h)
  | inr (e, l) ↦
      subst (λ x. Adds x b.next_ptr (record { start = ptr; size = size }) rs) (sym e)
        (Adds-anew (record { address = fresh; size = block_size_for a size }) a.head_block
          a.next_ptr b.next_ptr b.remaining_size (record { start = ptr; size = size }) rs f.apart
          (subst (λ x. Room x b.next_ptr b.remaining_size) e w.valid.room) l w.ends h)
]

-- What a history establishes.
pub record IsSound (a : MemoryArena) (rs : List Region) : Type 0 where
  pub valid : IsValid a
  pub held : All (Held a.head_block a.next_ptr) rs
  pub apart : RegionsApart rs

-- Whatever requests of alignment 1, 2, 4 or 8 an arena has served since it was made, where
-- `operator new` returned fresh memory for them, no two of the regions that they got overlap, each lies in a block that the arena
-- still holds, behind its header and below the pointer if it is the head block, the blocks lie
-- apart, and the total size is the sum of theirs.
pub History-IsSound : {a : MemoryArena} {rs : List Region} → History a rs → IsSound a rs
History-IsSound (made n) = record { valid = with_initial_size-IsValid n; held = tt; apart = tt }
History-IsSound (request {a} {rs} size alignment fresh h al f) =
    let s = History-IsSound h in
    let w = allocate_lem a size alignment fresh s.valid al f in
    let (held, apart) =
      Served-Adds a (allocate fresh size alignment a).1 size alignment fresh
        (allocate fresh size alignment a).0 rs s.valid f w s.held in
    record { valid = w.valid; held = held; apart = (apart, s.apart) }
