-- ===== src/Malloc/Split.antt =====
-- Asgn1/malloc.c, `splitblock`: the block keeps at least what was asked for, and the rest of the
-- heap stays as it is.
use csc.Prelude.{
  ℕ, ◌+◌, ◌-◌, ◌%◌, ◌^◌, ◌≤◌, ◌<◌, ◌≡◌, refl, ◌∙◌, subst, false, List, ◌∷◌, ◌++◌, arith, leb,
  Bool-cases, inl, inr,
}
use csc.Malloc.Blocks.{BlockHeader, Cursor, payload, whole, u64_sub, leftover_block, splitblock}
use csc.Malloc.Layout.{
  Tiles, IsCoalesced, regions, regions-append, Tiles-split, Tiles-swap, Tiles-le,
}
use csc.Malloc.Merge.{merge_free_nodes_lem}

-- What `splitblock` leaves: the block in use with capacity `kept` between the old regions.
pub record IsSplit (c : Cursor) (n start stop : ℕ) (out : List BlockHeader × ℕ) : Type 0 where
  pub kept : ℕ
  pub pointer : out.1 ≡ payload c.here
  pub aligned : payload c.here % 16 ≡ 0
  pub rounded : kept % 16 ≡ 0
  pub enough : n ≤ kept
  pub little_waste : kept ≤ n + 32
  pub tiles : Tiles start out.0 stop
  pub coalesced : IsCoalesced out.0
  pub used : regions out.0 ≡ regions c.before ++ (payload c.here, kept) ∷ regions c.after

-- Cut at a 16-byte boundary, a block and its leftover fill the addresses of the block.
cut-Tiles :
    (b : BlockHeader) (ys : List BlockHeader) (n start stop : ℕ)
    → stop < 2 ^ 47
    → n % 16 ≡ 0
    → 16 ≤ n
    → n + 48 ≤ b.payload_capacity
    → Tiles start (b ∷ ys) stop
    → Tiles start (record b { payload_capacity = n } ∷ leftover_block b n ∷ ys) stop
cut-Tiles b ys n start stop small a16 big fits (p, q, r, s, t) =
    let up = Tiles-le ys (start + 32 + b.payload_capacity) stop t in
    let rest : u64_sub (u64_sub b.payload_capacity n) 32 ≡ b.payload_capacity - n - 32 =
      omega arith in
    (
      p,
      q,
      a16,
      big,
      (
        omega arith,
        omega arith,
        rw rest (omega arith),
        rw rest (omega arith),
        subst (λ k. Tiles k ys stop) (omega (arith, rest)) t,
      ),
    )

regions_used :
    (xs ys : List BlockHeader) (b : BlockHeader)
    → b.is_free ≡ false
    → regions (xs ++ b ∷ ys) ≡ regions xs ++ (payload b, b.payload_capacity) ∷ regions ys
regions_used xs ys b e = rw (regions-append xs (b ∷ ys), e) refl

-- In a tiled and coalesced heap that ends below 2 ^ 47, `splitblock` of a used block that can
-- hold the size, a multiple of 16 and at least 16, keeps at least the size and at most 32 bytes
-- more, and returns the payload; the heap is again tiled and coalesced, and the regions in use
-- are those before with the block's own cut down to what it keeps.
pub splitblock-IsSplit :
    (c : Cursor) (n start stop : ℕ)
    → stop < 2 ^ 47
    → Tiles start (whole c) stop
    → IsCoalesced (whole c)
    → c.here.is_free ≡ false
    → n % 16 ≡ 0
    → 16 ≤ n
    → n ≤ c.here.payload_capacity
    → IsSplit c n start stop (splitblock c n)
unfolding splitblock
splitblock-IsSplit c n start stop small t k used a16 big fits =
    let (mid, front, (p, q, r, s, back)) = Tiles-split c.before (c.here ∷ c.after) start stop t in
    let up = Tiles-le c.after (mid + 32 + c.here.payload_capacity) stop back in
    elim (Bool-cases (leb 48 (u64_sub c.here.payload_capacity n))) [
      | inl more ↦
          let long : n + 48 ≤ c.here.payload_capacity = ground arith in
          let (tiles, same, merged) =
            merge_free_nodes_lem
              (c.before
                ++ record (c.here) { payload_capacity = n } ∷ leftover_block c.here n ∷ c.after)
              start stop small
              (Tiles-swap c.before (c.here ∷ c.after) _ start stop stop t
                (λ m. cut-Tiles c.here c.after n m stop small a16 big long)) in
          rw more (record {
            kept = n;
            pointer = refl;
            aligned = omega arith;
            rounded = omega arith;
            enough = omega arith;
            little_waste = omega arith;
            tiles = tiles;
            coalesced = merged;
            used =
                same
                ∙ regions_used c.before (leftover_block c.here n ∷ c.after)
                    (record (c.here) { payload_capacity = n }) used;
          })
      | inr less ↦ rw less (record {
        kept = c.here.payload_capacity;
        pointer = refl;
        aligned = omega arith;
        rounded = omega arith;
        enough = fits;
        little_waste = ground arith;
        tiles = t;
        coalesced = k;
        used = regions_used c.before c.after c.here used;
      })
    ]

pub splitblock-payload : (c : Cursor) (n : ℕ) → (splitblock c n).1 ≡ payload c.here
unfolding splitblock
splitblock-payload c n = ground arith
