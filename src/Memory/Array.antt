-- ===== src/Memory/Array.antt =====
-- The dynamic array over an arena: `ArenaArray` of cero/util/memory_arena.hh. Memory is a function
-- from addresses; the element at an address is its value there.
pub mod Contents
pub mod Storage
use cero.Common.{
  ℕ, zero, suc, ◌+◌, ◌-◌, ◌*◌, ◌/◌, ◌%◌, ◌^◌, ◌&&◌, List, [], ◌∷◌, leb, ltb, ◌==◌, if◌then◌else◌,
}
use cero.Memory.{MemoryArena, max, allocate}

pub record ArenaArray : Type 0 where
  pub start : ℕ
  pub count : ℕ
  pub capacity : ℕ

abbrev pub empty_array : ArenaArray
empty_array = record { start = 0; count = 0; capacity = 0 }

abbrev pub initial_capacity : ℕ
initial_capacity = 4

-- The size and the alignment of the elements' type.
pub record Layout : Type 0 where
  pub size : ℕ
  pub alignment : ℕ

module _ {ℓ} {A : Type ℓ} where
  -- `::memcpy(to, from, n)`.
  unfoldable pub memcpy : ℕ → ℕ → ℕ → (ℕ → A) → ℕ → A
  memcpy to from n memory p =
      if leb to p && ltb p (to + n) then memory (p - to + from) else memory p

  -- An element constructed at an address.
  unfoldable pub construct : ℕ → A → (ℕ → A) → ℕ → A
  construct at value memory p = if p == at then value else memory p

  -- What `begin` to `end` goes over.
  unfoldable pub elements : ℕ → (ℕ → A) → ℕ → ℕ → List A
  elements size memory start zero = []
  elements size memory start (suc n) = memory start ∷ elements size memory (start + size) n

unfoldable pub grown_capacity : ArenaArray → ℕ
grown_capacity a = max (a.capacity + a.capacity / 2) initial_capacity

module _ {ℓ} {A : Type ℓ} (layout : Layout) where
  -- A full array moves to storage that the arena gives out.
  unfoldable pub grow : ℕ → ArenaArray × MemoryArena × (ℕ → A) → ArenaArray × MemoryArena × (ℕ → A)
  grow fresh (a, arena, memory) =
      let new_cap = grown_capacity a in
      let (storage, next_arena) =
        allocate fresh (new_cap * layout.size % 2 ^ 64) layout.alignment arena in
      (
        record a { start = storage; capacity = new_cap % 2 ^ 32 },
        next_arena,
        memcpy storage a.start (a.count * layout.size) memory,
      )

  -- The element goes behind the others.
  unfoldable pub append :
      A → ArenaArray × MemoryArena × (ℕ → A) → ArenaArray × MemoryArena × (ℕ → A)
  append value (a, arena, memory) = (
    record a { count = (a.count + 1) % 2 ^ 32 },
    arena,
    construct (a.start + a.count * layout.size) value memory,
  )

  unfoldable pub put :
      ℕ → A → ArenaArray × MemoryArena × (ℕ → A) → ArenaArray × MemoryArena × (ℕ → A)
  put fresh value (a, arena, memory) =
      append value
        (if a.count == a.capacity then grow fresh (a, arena, memory) else (a, arena, memory))

  unfoldable pub contents : ArenaArray × MemoryArena × (ℕ → A) → List A
  contents (a, _, memory) = elements layout.size memory a.start a.count
