-- ===== src/Memory/Tests.antt =====
-- Requests to a small arena (cero/util/memory_arena.hh and .cc).
use cero.Common.{List, ◌+◌, ◌≤◌, [], ◌∷◌, ◌++◌, ◌≡◌, refl, inl, inr, arith}
use cero.Memory.{
  MemoryArena, with_initial_size, allocate, release, delete_blocks, align, padding, give_out,
  create_block, block_size_for,
}
use cero.Memory.Array.{ArenaArray, Layout, grown_capacity, put, contents}
use cero.Memory.Array.Storage.{
  IsStored, AreApart, CanGrow, regions_after, put-IsStored, put-AreApart,
}
use cero.Memory.Dangling.{allocate-release}
use cero.Memory.Regions.{Region, History, made, request, Inside, IsSound, History-IsSound}
use cero.Memory.Requests.{IsFresh, Served, allocate_lem}
use cero.Memory.Valid.{IsValid, sizes}

-- 16 bytes with alignment 8 in a first block of 64, at the address 4096.
abbrev one_block : MemoryArena
one_block = record {
  next_ptr = 4120;
  remaining_size = 40;
  next_block_size = 96;
  head_block = record { address = 4096; size = 64 } ∷ [];
  total_size = 64;
}

first_request : allocate 4096 16 8 (with_initial_size 64) ≡ (4104, one_block)
unfolding with_initial_size allocate align padding create_block block_size_for give_out
first_request = refl

one_block-IsValid : IsValid one_block
unfolding sizes
one_block-IsValid = record {
  blocks = omega arith;
  apart = omega arith;
  room = omega arith;
  total = refl;
}

-- The next one, of 48 bytes, does not fit any more.
second_block-IsFresh : IsFresh one_block 48 8192
unfolding block_size_for
second_block-IsFresh = record {
  not_null = omega arith;
  aligned = omega arith;
  within = omega arith;
  apart = (inr (omega arith), tt);
  fits = omega arith;
}

allocate_lem_example : Served one_block 48 4 8192 (allocate 8192 48 4 one_block)
allocate_lem_example =
    allocate_lem one_block 48 4 8192 one_block-IsValid (inr (inr (inl refl))) second_block-IsFresh

first_block-IsFresh : IsFresh (with_initial_size 64) 16 4096
unfolding with_initial_size block_size_for
first_block-IsFresh = record {
  not_null = omega arith;
  aligned = omega arith;
  within = omega arith;
  apart = tt;
  fits = omega arith;
}

one_request :
    History
      (allocate 4096 16 8 (with_initial_size 64)).1
      (record { start = (allocate 4096 16 8 (with_initial_size 64)).0; size = 16 } ∷ [])
one_request = request 16 8 4096 (made 64) (inr (inr (inr refl))) first_block-IsFresh

History-IsSound_example :
    IsSound
      (allocate 4096 16 8 (with_initial_size 64)).1
      (record { start = (allocate 4096 16 8 (with_initial_size 64)).0; size = 16 } ∷ [])
History-IsSound_example = History-IsSound one_request

fits_behind : padding 4 4120 + 24 ≤ 40
unfolding padding
fits_behind = omega arith

-- The block is deleted, and 24 bytes more are given out from it.
allocate-release_example :
    ((release one_block).0 ≡ 4096 ∷ delete_blocks [])
    × ((allocate 8192 24 4 (release one_block).1).1.head_block ≡ [])
    × Inside
        (record { start = (allocate 8192 24 4 (release one_block).1).0; size = 24 })
        (record { address = 4096; size = 64 })
allocate-release_example =
    allocate-release one_block (record { address = 4096; size = 64 }) [] 24 4 8192 one_block-IsValid
      refl fits_behind

abbrev pointers : Layout
pointers = record { size = 8; alignment = 8 }

-- The arena when 32 bytes more were given out.
abbrev two_requests : MemoryArena
two_requests = record {
  next_ptr = 4152;
  remaining_size = 8;
  next_block_size = 96;
  head_block = record { address = 4096; size = 64 } ∷ [];
  total_size = 64;
}

abbrev given : List Region
given = record { start = 4120; size = 32 } ∷ record { start = 4104; size = 16 } ∷ []

two_requests-History : History two_requests given
unfolding with_initial_size allocate align padding create_block block_size_for give_out
two_requests-History =
    request 32 8 8192 (request 16 8 4096 (made 64) (inr (inr (inr refl))) first_block-IsFresh)
      (inr (inr (inr refl)))
      (record {
        not_null = omega arith;
        aligned = omega arith;
        within = omega arith;
        apart = (inr (omega arith), tt);
        fits = omega arith;
      })

-- A full array of four pointers, in the 32 bytes.
abbrev full_array : ArenaArray
full_array = record { start = 4120; count = 4; capacity = 4 }

full_array-IsStored : IsStored pointers full_array two_requests given
full_array-IsStored = record {
  fits = omega arith;
  bounded = omega arith;
  given = inr (inl refl);
  history = two_requests-History;
}

full_array-CanGrow : CanGrow pointers full_array two_requests 8192
unfolding grown_capacity block_size_for
full_array-CanGrow = record {
  counted = omega arith;
  is_fresh = record {
    not_null = omega arith;
    aligned = omega arith;
    within = omega arith;
    apart = (inr (omega arith), tt);
    fits = omega arith;
  };
  aligned = inr (inr (inr refl));
}

-- The fifth pointer: the array moves to 48 bytes of a new block.
put-IsStored_example :
    let (b, next, after) = put pointers 8192 7 (full_array, two_requests, λ p. p) in
    IsStored pointers b next (regions_after pointers full_array b given)
    × (contents pointers (b, next, after)
        ≡ contents pointers (full_array, two_requests, λ p. p) ++ (7 ∷ []))
put-IsStored_example =
    put-IsStored pointers 8192 7 full_array two_requests (λ p. p) given (omega arith)
      full_array-IsStored full_array-CanGrow

-- Another array of two pointers, in the 16 bytes.
abbrev other_array : ArenaArray
other_array = record { start = 4104; count = 2; capacity = 2 }

arrays-AreApart : AreApart pointers full_array other_array two_requests given
arrays-AreApart = record {
  one = full_array-IsStored;
  two = record {
    fits = omega arith;
    bounded = omega arith;
    given = inr (inr (inl refl));
    history = two_requests-History;
  };
  apart = inr (omega arith);
}

put-AreApart_example :
    let (b, next, after) = put pointers 8192 7 (full_array, two_requests, λ p. p) in
    AreApart pointers b other_array next (regions_after pointers full_array b given)
    × (contents pointers (other_array, next, after)
        ≡ contents pointers (other_array, two_requests, λ p. p))
put-AreApart_example =
    put-AreApart pointers 8192 7 full_array other_array two_requests (λ p. p) given (omega arith)
      arrays-AreApart full_array-CanGrow
