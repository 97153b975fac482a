-- ===== src/Malloc/Overflow.antt =====
-- Asgn1/malloc.c: the sums of `malloc` are not checked, and wrap for sizes near the top of `size_t`.
use csc.Prelude.{
  ℕ, ◌+◌, ◌-◌, ◌^◌, ◌≤◌, ◌<◌, ◌≡◌, ◌∙◌, refl, ap, true, false, ◌&&◌, some, arith, ◌==◌, leb, List,
  [], ◌∷◌, ◌++◌, All,
}
use csc.Malloc.Blocks.{BlockHeader, cursor, payload, round_up_16, find_fit}
use csc.Malloc.Calls.{Heap, Sbrk, malloc, use_block, use_split}
use csc.Malloc.Layout.{Tiles-split, Tiles-le}
use csc.Malloc.Invariant.{Inv}
use csc.Malloc.Split.{splitblock-payload}

-- With nothing asked for, the search stops at the first free block.
first_free :
    (xs ys : List BlockHeader) (b : BlockHeader)
    → All (λ x. x.is_free ≡ false) xs
    → b.is_free ≡ true
    → find_fit 0 (xs ++ b ∷ ys) ≡ some (cursor xs b ys)
unfolding find_fit
first_free [] ys b used e =
    let fits : (b.is_free && leb 0 b.payload_capacity) ≡ true = ground arith in rw fits refl
first_free (x ∷ xs) ys b (u, used) e =
    let misfit : (x.is_free && leb 0 x.payload_capacity) ≡ false = ground arith in
    rw (misfit, first_free xs ys b used e) refl

-- A size of one of the topmost 15 values of `size_t` is rounded up to 0. As soon as a well-formed heap
-- has a free block, `malloc` then returns the payload of the first one, which is smaller than the
-- size.
pub malloc_wraps :
    (sbrk : Sbrk) (size : ℕ) (h : Heap) (xs ys : List BlockHeader) (b : BlockHeader)
    → Inv h
    → 2 ^ 64 - 15 ≤ size
    → size < 2 ^ 64
    → h.blocks ≡ xs ++ b ∷ ys
    → All (λ x. x.is_free ≡ false) xs
    → b.is_free ≡ true
    → ((malloc sbrk size h).0 ≡ some (payload b)) × (b.payload_capacity < size)
unfolding malloc use_block use_split
malloc_wraps sbrk size h xs ys b v low high list used unused =
    let e : find_fit 0 h.blocks ≡ some (cursor xs b ys) =
      ap (find_fit 0) list ∙ first_free xs ys b used unused in
    let (mid, front, t) = Tiles-split xs (b ∷ ys) v.start h.brk (rw list at v.tiles) in
    let up = Tiles-le ys (mid + 32 + b.payload_capacity) h.brk t.4 in
    let zero_size : round_up_16 size ≡ 0 = omega arith in
    let nonzero : (size == 0) ≡ false = ground arith in
    (
      rw (nonzero, zero_size, malloc)
          (rw (e, malloc) (ap (λ (q : ℕ). some q) (splitblock-payload _ _))),
      omega (arith, v.small),
    )
