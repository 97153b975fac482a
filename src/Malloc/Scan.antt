-- ===== src/Malloc/Scan.antt =====
-- Asgn1/malloc.c, `findblock`: its early stop against a search of the whole list.
use csc.Prelude.{
  ℕ, ◌+◌, ◌≡◌, refl, ap, false, ◌&&◌, Option, none, some, List, [], ◌∷◌, arith, leb, ltb,
  Bool-cases, inl, inr, All, if◌then◌else◌,
}
use csc.Malloc.Blocks.{BlockHeader, Cursor, payload, cursor, findblock, step_over}
use csc.Malloc.Layout.{Tiles}
use csc.Malloc.Search.{Holds, above}

-- The search as it would be without the stop: the first block whose payload holds the pointer.
abbrev pub scan : ℕ → List BlockHeader → Option Cursor
scan p [] = none
scan p (b ∷ bs) =
    if leb (payload b) p && ltb p (payload b + b.payload_capacity)
    then some (cursor [] b bs)
    else step_over b (scan p bs)

scan-none : (p : ℕ) (bs : List BlockHeader) → All (λ b. ¬ Holds p b) bs → scan p bs ≡ none
scan-none p [] apart = refl
scan-none p (b ∷ bs) (off, apart) =
    let miss : (leb (payload b) p && ltb p (payload b + b.payload_capacity)) ≡ false =
      elim (Bool-cases (leb (payload b) p && ltb p (payload b + b.payload_capacity))) [
        | inl hit ↦ absurd (off (ground arith, ground arith))
        | inr o ↦ o
      ] in
    rw (miss, scan-none p bs apart) refl

-- On a tiled heap findblock, which stops at the first block above the pointer, gives for every pointer
-- the same answer as the search of the whole list.
pub findblock-scan :
    (p start stop : ℕ) (bs : List BlockHeader) → Tiles start bs stop → findblock p bs ≡ scan p bs
unfolding findblock
findblock-scan p start stop [] t = refl
findblock-scan p start stop (b ∷ bs) t =
    elim (Bool-cases (leb (payload b) p && ltb p (payload b + b.payload_capacity))) [
      | inl hit ↦ rw hit refl
      | inr miss ↦ elim (Bool-cases (ltb p (payload b))) [
        | inl early ↦
            let none_later =
              scan-none p bs
                (above p (start + 32 + b.payload_capacity) stop bs t.4 (ground arith)) in
            rw (miss, early, none_later) refl
        | inr late ↦
            rw (miss, late)
              (ap (step_over b) (findblock-scan p (start + 32 + b.payload_capacity) stop bs t.4))
      ]
    ]
