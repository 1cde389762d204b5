-- ===== src/Memory/Array/Storage.antt =====
-- Where an arena's arrays stand in what the arena has given out (cero/util/memory_arena.hh).
use cero.Common.{
  ℕ, ◌+◌, ◌*◌, ◌%◌, ◌^◌, ◌≤◌, ◌<◌, true, false, List, [], ◌∷◌, ◌++◌, ◌==◌, ◌≡◌, refl, subst, arith,
  All, ◌⊎◌, inl, inr, if◌then◌else◌, Bool-cases,
}
use cero.Memory.{MemoryArena}
use cero.Memory.Array.{ArenaArray, Layout, grown_capacity, grow, append, put, contents}
use cero.Memory.Array.Contents.{put_lem, put-other}
use cero.Memory.Regions.{Region, RegionApart, History, request, History-IsSound}
use cero.Memory.Requests.{IsFresh}
use cero.Memory.Valid.{Apart, IsAlignment}

abbrev pub IsOneOf : Region → List Region → Type 0
IsOneOf r [] = ⊥
IsOneOf r (s ∷ rs) = (s ≡ r) ⊎ IsOneOf r rs

All-IsOneOf : (P : Region → Type 0) (r : Region) (rs : List Region) → All P rs → IsOneOf r rs → P r
All-IsOneOf P r [] h k = absurd k
All-IsOneOf P r (s ∷ rs) h (inl e) = subst P e h.0
All-IsOneOf P r (s ∷ rs) h (inr k) = All-IsOneOf P r rs h.1 k

full_grows : (a : ArenaArray) → a.count ≡ a.capacity → a.count + 1 ≤ grown_capacity a
unfolding grown_capacity
full_grows a h = ground arith

eq_of_test : (m n : ℕ) → (m == n) ≡ true → m ≡ n
eq_of_test m n h = ground arith

lt_of_test : (m n : ℕ) → (m == n) ≡ false → m ≤ n → m < n
lt_of_test m n h l = ground arith

mul_mono : (m n k : ℕ) → m ≤ n → m * k ≤ n * k
mul_mono m n k h = grind arith

module _ (layout : Layout) where
  -- The bytes for as many elements as the array has room for.
  abbrev pub storage : ArenaArray → Region
  storage a = record { start = a.start; size = a.capacity * layout.size }

  -- The array has room for its elements, in bytes that the arena has given out for it; the array
  -- that was never put to has none.
  pub record IsStored (a : ArenaArray) (arena : MemoryArena) (rs : List Region) : Type 0 where
    pub fits : a.count ≤ a.capacity
    pub bounded : a.capacity < 2 ^ 32
    pub given : ((a.start ≡ 0) × (a.capacity ≡ 0)) ⊎ IsOneOf (storage a) rs
    pub history : History arena rs

  -- Two arrays are stored, in bytes that do not overlap.
  pub record AreApart (a other : ArenaArray) (arena : MemoryArena) (rs : List Region) : Type 0 where
    pub one : IsStored a arena rs
    pub two : IsStored other arena rs
    pub apart : RegionApart (storage a) (storage other)

  -- The next growth is to a capacity that fits 32 bits, memory is fresh for it, and the elements
  -- have an alignment that the arena can serve.
  pub record CanGrow (a : ArenaArray) (arena : MemoryArena) (fresh : ℕ) : Type 0 where
    pub counted : grown_capacity a < 2 ^ 32
    pub is_fresh : IsFresh arena (grown_capacity a * layout.size) fresh
    pub aligned : IsAlignment layout.alignment

  -- What the arena has given out when an element was put to `a` and made it `b`.
  abbrev pub regions_after : ArenaArray → ArenaArray → List Region → List Region
  regions_after a b rs = if a.count == a.capacity then storage b ∷ rs else rs

  count_bounded :
      (a : ArenaArray) (arena : MemoryArena) (rs : List Region) (fresh : ℕ)
      → IsStored a arena rs
      → CanGrow a arena fresh
      → a.count + 1 < 2 ^ 32
  count_bounded a arena rs fresh h k = elim (Bool-cases (a.count == a.capacity)) [
    | inl e ↦ omega (arith, full_grows a (eq_of_test a.count a.capacity e), k.counted)
    | inr e ↦ omega (arith, lt_of_test a.count a.capacity e h.fits, h.bounded)
  ]

  -- What the arena gives out for an array is apart from another one that it has.
  given-RegionApart :
      (b other : ArenaArray) (arena next : MemoryArena) (rs : List Region)
      → IsStored b next (storage b ∷ rs)
      → IsStored other arena rs
      → RegionApart (storage b) (storage other)
  given-RegionApart b other arena next rs h k = elim k.given [
    | inl (e, z) ↦ rw (e, z) (inr (omega arith))
    | inr m ↦
        All-IsOneOf (RegionApart (storage b)) (storage other) rs (History-IsSound h.history).apart.0
          m
  ]

  later-IsStored :
      (other : ArenaArray) (arena next : MemoryArena) (r : Region) (rs : List Region)
      → IsStored other arena rs
      → History next (r ∷ rs)
      → IsStored other next (r ∷ rs)
  later-IsStored other arena next r rs h history = record {
    fits = h.fits;
    bounded = h.bounded;
    given = elim h.given [ inl z ↦ inl z | inr m ↦ inr (inr m) ];
    history = history;
  }

  counts-Apart :
      (a other : ArenaArray) (arena : MemoryArena) (rs : List Region)
      → AreApart a other arena rs
      → Apart a.start (a.count * layout.size) other.start (other.count * layout.size)
  counts-Apart a other arena rs h =
      let l = mul_mono a.count a.capacity layout.size h.one.fits in
      let m = mul_mono other.count other.capacity layout.size h.two.fits in
      elim h.apart [ inl x ↦ inl (omega arith) | inr x ↦ inr (omega arith) ]

module _ {ℓ} {A : Type ℓ} (layout : Layout) where
  grow-IsStored :
      (fresh : ℕ) (a : ArenaArray) (arena : MemoryArena) (memory : ℕ → A) (rs : List Region)
      → IsStored layout a arena rs
      → a.count ≡ a.capacity
      → CanGrow layout a arena fresh
      → let (b, next, _) = grow layout fresh (a, arena, memory) in
        IsStored layout b next (storage layout b ∷ rs)
  unfolding grow
  grow-IsStored fresh a arena memory rs h full k =
      let n = grown_capacity a * layout.size in
      let size_fits = k.is_fresh.fits in
      let counted = k.counted in
      let e : n % 2 ^ 64 ≡ n = omega arith in
      let c : grown_capacity a % 2 ^ 32 ≡ grown_capacity a = omega arith in
      rw (e, c)
        record {
          fits = omega (arith, full_grows a full);
          bounded = counted;
          given = inr (inl refl);
          history = request n layout.alignment fresh h.history k.aligned k.is_fresh;
        }

  grow-capacity :
      (fresh : ℕ) (a : ArenaArray) (arena : MemoryArena) (memory : ℕ → A)
      → a.count ≡ a.capacity
      → CanGrow layout a arena fresh
      → let (b, _, _) = grow layout fresh (a, arena, memory) in b.count < b.capacity
  unfolding grow
  grow-capacity fresh a arena memory full k =
      let counted = k.counted in
      let c : grown_capacity a % 2 ^ 32 ≡ grown_capacity a = omega arith in
      rw c (omega (arith, full_grows a full))

  append-IsStored :
      (value : A) (a : ArenaArray) (arena : MemoryArena) (memory : ℕ → A) (rs : List Region)
      → IsStored layout a arena rs
      → a.count < a.capacity
      → IsStored layout (append layout value (a, arena, memory)).0 arena rs
  unfolding append
  append-IsStored value a arena memory rs h l =
      let b = h.bounded in
      record { fits = omega arith; bounded = b; given = h.given; history = h.history }

  put_array-IsStored :
      (fresh : ℕ) (value : A) (a : ArenaArray) (arena : MemoryArena) (memory : ℕ → A)
      (rs : List Region)
      → IsStored layout a arena rs
      → CanGrow layout a arena fresh
      → let (b, next, _) = put layout fresh value (a, arena, memory) in
        IsStored layout b next (regions_after layout a b rs)
  unfolding put append
  put_array-IsStored fresh value a arena memory rs h k =
      let (grown, next, moved) = grow layout fresh (a, arena, memory) in
      elim (Bool-cases (a.count == a.capacity)) [
        | inl e ↦
            let full = eq_of_test a.count a.capacity e in
            rw e (
              append-IsStored value grown next moved (storage layout grown ∷ rs)
                (grow-IsStored fresh a arena memory rs h full k)
                (grow-capacity fresh a arena memory full k))
        | inr e ↦
            rw e
              (append-IsStored value a arena memory rs h (lt_of_test a.count a.capacity e h.fits))
      ]

  -- An element that is put to an array goes behind the others, which stay as they are, in their
  -- order. The array has room for all of them, in bytes that the arena gave out for it: those that
  -- it had, or, where it was full, as many as its new capacity needs, in one request. The size of
  -- an element is not 0, its alignment is 1, 2, 4 or 8, memory is fresh for a growth, and the new
  -- capacity fits 32 bits.
  pub put-IsStored :
      (fresh : ℕ) (value : A) (a : ArenaArray) (arena : MemoryArena) (memory : ℕ → A)
      (rs : List Region)
      → 0 < layout.size
      → IsStored layout a arena rs
      → CanGrow layout a arena fresh
      → let (b, next, after) = put layout fresh value (a, arena, memory) in
        IsStored layout b next (regions_after layout a b rs)
        × (contents layout (b, next, after) ≡ contents layout (a, arena, memory) ++ (value ∷ []))
  put-IsStored fresh value a arena memory rs positive h k = (
    put_array-IsStored fresh value a arena memory rs h k,
    put_lem layout positive fresh value a arena memory (count_bounded layout a arena rs fresh h k),
  )

  put_array-AreApart :
      (fresh : ℕ) (value : A) (a other : ArenaArray) (arena : MemoryArena) (memory : ℕ → A)
      (rs : List Region)
      → AreApart layout a other arena rs
      → CanGrow layout a arena fresh
      → let (b, next, _) = put layout fresh value (a, arena, memory) in
        IsStored layout b next (regions_after layout a b rs)
        → AreApart layout b other next (regions_after layout a b rs)
  unfolding put append
  put_array-AreApart fresh value a other arena memory rs h k =
      let (grown, next, moved) = grow layout fresh (a, arena, memory) in
      elim (Bool-cases (a.count == a.capacity)) [
        | inl e ↦
            let b = (append layout value (grown, next, moved)).0 in
            rw e (λ stored. record {
              one = stored;
              two =
                  later-IsStored layout other arena next (storage layout b) rs h.two stored.history;
              apart = given-RegionApart layout b other arena next rs stored h.two;
            })
        | inr e ↦ rw e (λ stored. record { one = stored; two = h.two; apart = h.apart })
      ]

  -- Two arrays that are stored in bytes of the arena that do not overlap are so also after an
  -- element is put to the first one, which may move to new storage, and the second one keeps its
  -- elements. The size of an element is not 0, its alignment is 1, 2, 4 or 8, memory is fresh for a
  -- growth, and the new capacity fits 32 bits.
  pub put-AreApart :
      (fresh : ℕ) (value : A) (a other : ArenaArray) (arena : MemoryArena) (memory : ℕ → A)
      (rs : List Region)
      → 0 < layout.size
      → AreApart layout a other arena rs
      → CanGrow layout a arena fresh
      → let (b, next, after) = put layout fresh value (a, arena, memory) in
        AreApart layout b other next (regions_after layout a b rs)
        × (contents layout (other, next, after) ≡ contents layout (other, arena, memory))
  unfolding contents
  put-AreApart fresh value a other arena memory rs positive h k =
      let (b, next, after) = put layout fresh value (a, arena, memory) in
      let apart =
        put_array-AreApart fresh value a other arena memory rs h k
          (put_array-IsStored fresh value a arena memory rs h.one k) in
      (
        apart,
        put-other layout positive fresh value a other arena memory
            (count_bounded layout a arena rs fresh h.one k)
            (counts-Apart layout b other next (regions_after layout a b rs) apart),
      )
