-- ===== src/Malloc/Invariant.antt =====
-- Asgn1/malloc.c: the invariant of the heap between calls, and what is assumed of `sbrk`.
use csc.Prelude.{
  ℕ, ◌+◌, ◌%◌, ◌^◌, ◌<◌, ◌≡◌, some, List, [], ◌∷◌, ◌++◌, arith, refl, inl, Bool, false, append-nil,
}
use csc.Malloc.Blocks.{BlockHeader}
use csc.Malloc.Headers.{store_headers}
use csc.Malloc.Calls.{Heap, Sbrk}
use csc.Malloc.Layout.{Tiles, IsCoalesced, IsCoalesced-replace}

-- The blocks fill the heap from its start to the break, which is a user-space address, no two
-- neighbours are free, and the headers in memory are those of the list.
pub record Inv (h : Heap) : Type 0 where
  pub start : ℕ
  pub small : h.brk < 2 ^ 47
  pub tiles : Tiles start h.blocks h.brk
  pub coalesced : IsCoalesced h.blocks
  pub stored : (a : ℕ) → store_headers h.blocks h.bytes a ≡ h.bytes a

-- A change of errno, and of memory that keeps the headers, keeps the invariant.
pub Inv-bytes :
    (h : Heap) (m : ℕ → ℕ) (e : Bool)
    → ((a : ℕ) → store_headers h.blocks m a ≡ m a)
    → Inv h
    → Inv (record h { bytes = m; enomem = e })
Inv-bytes h m e stored v = record {
  start = v.start;
  small = v.small;
  tiles = v.tiles;
  coalesced = v.coalesced;
  stored = stored;
}

-- `sbrk` returns the old break and moves it by the increment, which is signed, within user space;
-- and no one but the allocator moves the break.
pub record IsSbrk (sbrk : Sbrk) : Type 0 where
  pub query : (b : ℕ) → b < 2 ^ 47 → sbrk b 0 ≡ some (b, b)
  pub grows :
      (b n p b' : ℕ)
      → b < 2 ^ 47
      → n < 2 ^ 63
      → sbrk b n ≡ some (p, b')
      → (p ≡ b) × (b' ≡ b + n) × (b' < 2 ^ 47)

-- A size for which no 64-bit sum of the allocator wraps.
abbrev pub IsRequest : ℕ → Type 0
IsRequest size = size < 2 ^ 62

pub Tiles-aligned :
    (b : BlockHeader) (bs : List BlockHeader) (start stop : ℕ)
    → Tiles start (b ∷ bs) stop
    → stop % 16 ≡ 0
Tiles-aligned b [] start stop t = omega arith
Tiles-aligned b (c ∷ bs) start stop t =
    Tiles-aligned c bs (start + 32 + b.payload_capacity) stop t.4

-- A block in use at the end joins no free neighbour.
pub IsCoalesced-extend :
    (xs : List BlockHeader) (b : BlockHeader)
    → IsCoalesced xs
    → b.is_free ≡ false
    → IsCoalesced (xs ++ b ∷ [])
IsCoalesced-extend xs b h e =
    IsCoalesced-replace xs [] (b ∷ []) (rw append-nil h) (rw e (refl, tt)) (inl e)
