-- ===== src/Malloc/Merge.antt =====
-- Asgn1/malloc.c, `merge_free_nodes`: it keeps the tiling and the regions in use, and leaves no two
-- free neighbours.
use csc.Prelude.{
  ℕ, ◌+◌, ◌^◌, ◌<◌, ◌≡◌, refl, true, Option, none, some, List, [], ◌∷◌, arith, ◌%◌, subst,
  Bool-cases, inl, inr,
}
use csc.Malloc.Blocks.{BlockHeader, absorb, merge_loop, merge_free_nodes}
use csc.Malloc.Layout.{Tiles, IsCoalesced, regions, Tiles-le}

-- `first_free` is still in the list, in front of what is left to walk.
abbrev held : Option BlockHeader → List BlockHeader → List BlockHeader
held none bs = bs
held (some f) bs = f ∷ bs

abbrev IsHeldFree : Option BlockHeader → Type 0
IsHeldFree none = Unit {0}
IsHeldFree (some f) = f.is_free ≡ true

pub absorb-Tiles :
    (f b : BlockHeader) (bs : List BlockHeader) (start stop : ℕ)
    → stop < 2 ^ 47
    → Tiles start (f ∷ b ∷ bs) stop
    → Tiles start (absorb f b ∷ bs) stop
absorb-Tiles f b bs start stop small (p, q, r, s, (p', q', r', s', t)) =
    let up = Tiles-le bs (start + 32 + f.payload_capacity + 32 + b.payload_capacity) stop t in
    let size : (f.payload_capacity + (32 + b.payload_capacity)) % 2 ^ 64
        ≡ f.payload_capacity + 32 + b.payload_capacity =
      omega arith in
    (p, q, omega arith, omega arith, subst (λ n. Tiles n bs stop) (omega (arith, size)) t)

merge_loop-Tiles :
    (f : Option BlockHeader) (bs : List BlockHeader) (start stop : ℕ)
    → stop < 2 ^ 47
    → Tiles start (held f bs) stop
    → Tiles start (merge_loop f bs) stop
unfolding merge_loop
merge_loop-Tiles none [] start stop small t = t
merge_loop-Tiles (some f) [] start stop small t = t
merge_loop-Tiles none (b ∷ bs) start stop small t = elim (Bool-cases b.is_free) [
  | inl e ↦ rw (e, merge_loop) (merge_loop-Tiles (some b) bs start stop small t)
  | inr e ↦
      rw (e, merge_loop)
        (
          t.0,
          t.1,
          t.2,
          t.3,
          merge_loop-Tiles none bs (start + 32 + b.payload_capacity) stop small t.4,
        )
]
merge_loop-Tiles (some f) (b ∷ bs) start stop small t = elim (Bool-cases b.is_free) [
  | inl e ↦
      rw (e, merge_loop)
        (merge_loop-Tiles (some (absorb f b)) bs start stop small
          (absorb-Tiles f b bs start stop small t))
  | inr e ↦
      rw (e, merge_loop)
        (
          t.0,
          t.1,
          t.2,
          t.3,
          (
            t.4.0,
            t.4.1,
            t.4.2,
            t.4.3,
            merge_loop-Tiles none bs (start + 32 + f.payload_capacity + 32 + b.payload_capacity)
                stop small t.4.4,
          ),
        )
]

merge_loop-regions :
    (f : Option BlockHeader) (bs : List BlockHeader)
    → IsHeldFree f
    → regions (merge_loop f bs) ≡ regions bs
unfolding merge_loop
merge_loop-regions none [] h = refl
merge_loop-regions (some f) [] h = ground arith
merge_loop-regions none (b ∷ bs) h =
    ground (arith, merge_loop-regions none bs, merge_loop-regions (some b) bs)
merge_loop-regions (some f) (b ∷ bs) h =
    ground (arith, merge_loop-regions none bs, merge_loop-regions (some (absorb f b)) bs)

merge_loop-IsCoalesced :
    (f : Option BlockHeader) (bs : List BlockHeader) → IsHeldFree f → IsCoalesced (merge_loop f bs)
unfolding merge_loop
merge_loop-IsCoalesced none [] h = tt
merge_loop-IsCoalesced (some f) [] h = ground arith
merge_loop-IsCoalesced none (b ∷ bs) h =
    ground (arith, merge_loop-IsCoalesced none bs, merge_loop-IsCoalesced (some b) bs)
merge_loop-IsCoalesced (some f) (b ∷ bs) h =
    ground (arith, merge_loop-IsCoalesced none bs, merge_loop-IsCoalesced (some (absorb f b)) bs)

-- On blocks that fill the addresses from a start to a stop below 2 ^ 47, `merge_free_nodes`
-- keeps the tiling and the regions in use, and no two neighbours of the result are free.
pub merge_free_nodes_lem :
    (bs : List BlockHeader) (start stop : ℕ)
    → stop < 2 ^ 47
    → Tiles start bs stop
    → Tiles start (merge_free_nodes bs) stop
      × (regions (merge_free_nodes bs) ≡ regions bs)
      × IsCoalesced (merge_free_nodes bs)
unfolding merge_free_nodes
merge_free_nodes_lem bs start stop small t = (
  merge_loop-Tiles none bs start stop small t,
  merge_loop-regions none bs tt,
  merge_loop-IsCoalesced none bs tt,
)
