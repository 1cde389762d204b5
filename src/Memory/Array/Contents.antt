-- ===== src/Memory/Array/Contents.antt =====
-- The elements of an arena's array after one is put (cero/util/memory_arena.hh).
use cero.Common.{
  ℕ, zero, suc, ◌+◌, ◌-◌, ◌*◌, ◌%◌, ◌^◌, ◌≤◌, ◌<◌, ◌&&◌, true, false, [], ◌∷◌, ◌++◌, leb, ltb, ◌==◌,
  ◌≡◌, refl, ◌∙◌, ap, arith, if_rule, ◌⊎◌, inl, inr,
}
use cero.Memory.{MemoryArena, allocate}
use cero.Memory.Array.{
  ArenaArray, Layout, memcpy, construct, elements, grown_capacity, grow, append, put, contents,
}
use cero.Memory.Valid.{Apart}

not_equal : (p q : ℕ) → (p < q) ⊎ (q < p) → (p == q) ≡ false
not_equal p q (inl h) = ground arith
not_equal p q (inr h) = ground arith

Apart-byte : (a n b m p : ℕ) → Apart a n b m → b ≤ p → p < b + m → Apart a n p 1
Apart-byte a n b m p (inl h) l k = inl (omega arith)
Apart-byte a n b m p (inr h) l k = inr (omega arith)

pub Apart-shorter : (a n k b m : ℕ) → k ≤ n → Apart a n b m → Apart a k b m
Apart-shorter a n k b m l (inl h) = inl (omega arith)
Apart-shorter a n k b m l (inr h) = inr h

module _ {ℓ} {A : Type ℓ} where
  -- Elements that a write does not touch stay.
  elements-same :
      (size : ℕ) (memory other : ℕ → A) (start from to n : ℕ)
      → ((p : ℕ) → from ≤ p → p < to → other p ≡ memory p)
      → from ≤ start
      → start + n * size ≤ to
      → 0 < size
      → elements size other start n ≡ elements size memory start n
  unfolding elements
  elements-same size memory other start from to zero h l k p = refl
  elements-same size memory other start from to (suc n) h l k p =
      let e : start + suc n * size ≡ start + size + n * size = grind arith in
      let first = h start l (omega arith) in
      let rest =
        elements-same size memory other (start + size) from to n h (omega arith) (omega arith) p in
      rw (first, rest)

  copied :
      (memory : ℕ → A) (to from bytes i : ℕ)
      → i < bytes
      → memcpy to from bytes memory (to + i) ≡ memory (from + i)
  unfolding memcpy
  copied memory to from bytes i h =
      let e : to + i - to + from ≡ from + i = omega arith in
      let l : (leb to (to + i) && ltb (to + i) (to + bytes)) ≡ true = ground arith in rw (l, e)

  not_copied :
      (memory : ℕ → A) (to from bytes p : ℕ)
      → Apart to bytes p 1
      → memcpy to from bytes memory p ≡ memory p
  unfolding memcpy
  not_copied memory to from bytes p h =
      let l : (leb to p && ltb p (to + bytes)) ≡ false = ground arith in rw l

  not_constructed :
      (memory : ℕ → A) (at p : ℕ) (value : A)
      → (p == at) ≡ false
      → construct at value memory p ≡ memory p
  unfolding construct
  not_constructed memory at p value h = rw h

  constructed : (memory : ℕ → A) (at : ℕ) (value : A) → construct at value memory at ≡ value
  unfolding construct
  constructed memory at value = let e : (at == at) ≡ true = ground arith in rw e

  -- Elements that are copied are the same elsewhere.
  elements-memcpy :
      (size : ℕ) (memory : ℕ → A) (to from bytes start n : ℕ)
      → start + n * size ≤ bytes
      → 0 < size
      → elements size (memcpy to from bytes memory) (to + start) n
        ≡ elements size memory (from + start) n
  unfolding elements
  elements-memcpy size memory to from bytes start zero h p = refl
  elements-memcpy size memory to from bytes start (suc n) h p =
      let e : start + suc n * size ≡ start + size + n * size = grind arith in
      let first : memcpy to from bytes memory (to + start) ≡ memory (from + start) =
        copied memory to from bytes start (omega arith) in
      let rest = elements-memcpy size memory to from bytes (start + size) n (omega arith) p in
      let s : to + start + size ≡ to + (start + size) = omega arith in
      let t : from + start + size ≡ from + (start + size) = omega arith in rw (s, t, first, rest)

  -- One element more.
  elements-suc :
      (size : ℕ) (memory : ℕ → A) (start n : ℕ)
      → elements size memory start (suc n)
        ≡ elements size memory start n ++ (memory (start + n * size) ∷ [])
  unfolding elements
  elements-suc size memory start zero = let e : start + 0 * size ≡ start = omega arith in rw e
  elements-suc size memory start (suc n) =
      let e : start + suc n * size ≡ start + size + n * size = grind arith in
      rw e (ap (◌∷◌ (memory start)) (elements-suc size memory (start + size) n))

module _ {ℓ} {A : Type ℓ} (layout : Layout) (positive : 0 < layout.size) where
  append_lem :
      (value : A) (a : ArenaArray) (arena : MemoryArena) (memory : ℕ → A)
      → a.count + 1 < 2 ^ 32
      → contents layout (append layout value (a, arena, memory))
        ≡ contents layout (a, arena, memory) ++ (value ∷ [])
  unfolding contents append
  append_lem value a arena memory h =
      let at = a.start + a.count * layout.size in
      let e : (a.count + 1) % 2 ^ 32 ≡ suc a.count = omega arith in
      let same =
        elements-same layout.size memory (construct at value memory) a.start a.start at a.count
          (λ p l k. not_constructed memory at p value (ground arith)) (omega arith) (omega arith)
          positive in
      rw (
        e,
        elements-suc layout.size (construct at value memory) a.start a.count,
        same,
        constructed memory at value,
      )

  grow_lem :
      (fresh : ℕ) (a : ArenaArray) (arena : MemoryArena) (memory : ℕ → A)
      → contents layout (grow layout fresh (a, arena, memory)) ≡ contents layout (a, arena, memory)
  unfolding contents grow
  grow_lem fresh a arena memory =
      let to =
        (allocate fresh (grown_capacity a * layout.size % 2 ^ 64) layout.alignment arena).0 in
      let e : to ≡ to + 0 = omega arith in
      let f : a.start + 0 ≡ a.start = omega arith in
      ap (λ x. elements layout.size (memcpy to a.start (a.count * layout.size) memory) x a.count) e
      ∙ (elements-memcpy layout.size memory to a.start (a.count * layout.size) 0 a.count
            (omega arith) positive
          ∙ ap (λ x. elements layout.size memory x a.count) f)

  -- An element that is put goes behind the others, which stay as they are, in their order, also
  -- where the array is full and moves, if the count still fits 32 bits.
  pub put_lem :
      (fresh : ℕ) (value : A) (a : ArenaArray) (arena : MemoryArena) (memory : ℕ → A)
      → a.count + 1 < 2 ^ 32
      → contents layout (put layout fresh value (a, arena, memory))
        ≡ contents layout (a, arena, memory) ++ (value ∷ [])
  unfolding put grow
  put_lem fresh value a arena memory h =
      let grown = grow layout fresh (a, arena, memory) in
      if_rule
        (λ s.
          contents layout (append layout value s)
          ≡ contents layout (a, arena, memory) ++ (value ∷ []))
        (a.count == a.capacity)
        (λ _.
          append_lem value grown.0 grown.1 grown.2 h
          ∙ ap (λ x. x ++ (value ∷ [])) (grow_lem fresh a arena memory))
        (λ _. append_lem value a arena memory h)

  append-other :
      (value : A) (a other : ArenaArray) (arena : MemoryArena) (memory : ℕ → A)
      → Apart a.start ((a.count + 1) * layout.size) other.start (other.count * layout.size)
      → elements layout.size (append layout value (a, arena, memory)).2 other.start other.count
        ≡ elements layout.size memory other.start other.count
  unfolding append
  append-other value a other arena memory h =
      let at = a.start + a.count * layout.size in
      let e : (a.count + 1) * layout.size ≡ a.count * layout.size + layout.size = grind arith in
      let n = layout.size in
      elements-same layout.size memory (construct at value memory) other.start other.start
        (other.start + other.count * layout.size) other.count
        (λ p l k.
          not_constructed memory at p value
            (not_equal p at (elim h [ inl x ↦ inr (omega arith) | inr x ↦ inl (omega arith) ])))
        (omega arith) (omega arith) positive

  grow-other :
      (fresh : ℕ) (a other : ArenaArray) (arena : MemoryArena) (memory : ℕ → A)
      → Apart
          (grow layout fresh (a, arena, memory)).0.start
          (a.count * layout.size)
          other.start
          (other.count * layout.size)
      → elements layout.size (grow layout fresh (a, arena, memory)).2 other.start other.count
        ≡ elements layout.size memory other.start other.count
  unfolding grow
  grow-other fresh a other arena memory h =
      let to =
        (allocate fresh (grown_capacity a * layout.size % 2 ^ 64) layout.alignment arena).0 in
      elements-same layout.size memory (memcpy to a.start (a.count * layout.size) memory)
        other.start other.start (other.start + other.count * layout.size) other.count
        (λ p l k.
          not_copied memory to a.start (a.count * layout.size) p
            (Apart-byte to (a.count * layout.size) other.start (other.count * layout.size) p h l k))
        (omega arith) (omega arith) positive

  -- An array that stands apart from where the changed one then stands keeps its elements, where the
  -- count still fits 32 bits.
  pub put-other :
      (fresh : ℕ) (value : A) (a other : ArenaArray) (arena : MemoryArena) (memory : ℕ → A)
      → a.count + 1 < 2 ^ 32
      → Apart
          (put layout fresh value (a, arena, memory)).0.start
          ((put layout fresh value (a, arena, memory)).0.count * layout.size)
          other.start
          (other.count * layout.size)
      → contents layout (other, arena, (put layout fresh value (a, arena, memory)).2)
        ≡ contents layout (other, arena, memory)
  unfolding put grow append contents
  put-other fresh value a other arena memory h =
      let grown = grow layout fresh (a, arena, memory) in
      let e : (a.count + 1) % 2 ^ 32 ≡ a.count + 1 = omega arith in
      let P : ArenaArray × MemoryArena × (ℕ → A) → Type ℓ = λ s.
        Apart (append layout value s).0.start ((append layout value s).0.count * layout.size)
          other.start (other.count * layout.size)
        → elements layout.size (append layout value s).2 other.start other.count
          ≡ elements layout.size memory other.start other.count in
      if_rule P (a.count == a.capacity)
        (λ _ x.
          let y = rw e at x in
          append-other value grown.0 other grown.1 grown.2 y
          ∙ grow-other fresh a other arena memory (
              Apart-shorter grown.0.start ((a.count + 1) * layout.size) (a.count * layout.size)
                other.start (other.count * layout.size) (grind arith) y))
        (λ _ x. append-other value a other arena memory (rw e at x))
