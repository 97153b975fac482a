-- ===== src/Malloc/Search.antt =====
-- Asgn1/malloc.c, the searches: `findblock` answers exactly with the block whose payload holds the
-- pointer, and the search of `malloc` with the first free block that is large enough.
use csc.Prelude.{
  ℕ, ◌+◌, ◌≤◌, ◌<◌, ◌≡◌, refl, ap, true, ◌&&◌, Option, none, some, List, [], ◌∷◌, arith, leb, ltb,
  Bool-cases, inl, inr, All,
}
use csc.Malloc.Blocks.{BlockHeader, Cursor, payload, whole, findblock, find_fit, step_over}
use csc.Malloc.Layout.{Tiles}

-- The pointer lies in the payload of the block.
abbrev pub Holds : ℕ → BlockHeader → Type 0
Holds p b = (payload b ≤ p) × (p < payload b + b.payload_capacity)

-- The answer is the first block of the list with the property, or NULL when none has it.
abbrev pub IsFound : (BlockHeader → Type 0) → List BlockHeader → Option Cursor → Type 0
IsFound P bs none = All (λ b. ¬ P b) bs
IsFound P bs (some c) = (whole c ≡ bs) × P c.here × All (λ b. ¬ P b) c.before

-- Below the first block no payload is reached.
pub above :
    (p start stop : ℕ) (bs : List BlockHeader)
    → Tiles start bs stop
    → p < start + 32
    → All (λ b. ¬ Holds p b) bs
above p start stop [] t h = tt
above p start stop (b ∷ bs) t h =
    (λ k. omega arith, above p (start + 32 + b.payload_capacity) stop bs t.4 (omega arith))

step_over-IsFound :
    (P : BlockHeader → Type 0) (b : BlockHeader) (bs : List BlockHeader) (r : Option Cursor)
    → ¬ P b
    → IsFound P bs r
    → IsFound P (b ∷ bs) (step_over b r)
step_over-IsFound P b bs none no_hit f = (no_hit, f)
step_over-IsFound P b bs (some c) no_hit f = (ap (λ xs. b ∷ xs) f.0, f.1, (no_hit, f.2))

-- On a tiled heap `findblock` finds the block whose payload holds the pointer, and answers NULL only
-- when no payload in the heap holds it: the early stop misses nothing.
pub findblock-IsFound :
    (p start stop : ℕ) (bs : List BlockHeader)
    → Tiles start bs stop
    → IsFound (Holds p) bs (findblock p bs)
unfolding findblock
findblock-IsFound p start stop [] t = tt
findblock-IsFound p start stop (b ∷ bs) t =
    elim (Bool-cases (leb (payload b) p && ltb p (payload b + b.payload_capacity))) [
      | inl hit ↦ rw hit (refl, (ground arith, ground arith), tt)
      | inr miss ↦ elim (Bool-cases (ltb p (payload b))) [
        | inl early ↦
            rw (miss, early)
              (
                λ k. ground arith,
                above p (start + 32 + b.payload_capacity) stop bs t.4 (ground arith),
              )
        | inr late ↦
            rw (miss, late)
              (step_over-IsFound (Holds p) b bs (findblock p bs) (λ k. ground arith)
                (findblock-IsFound p (start + 32 + b.payload_capacity) stop bs t.4))
      ]
    ]

-- A free block that can take `n` bytes.
abbrev pub Fits : ℕ → BlockHeader → Type 0
Fits n b = (b.is_free ≡ true) × (n ≤ b.payload_capacity)

-- The search of `malloc` finds the first free block of the size, unless there is none.
pub find_fit-IsFound : (n : ℕ) (bs : List BlockHeader) → IsFound (Fits n) bs (find_fit n bs)
unfolding find_fit
find_fit-IsFound n [] = tt
find_fit-IsFound n (b ∷ bs) = elim (Bool-cases (b.is_free && leb n b.payload_capacity)) [
  | inl hit ↦ rw hit (refl, (ground arith, ground arith), tt)
  | inr miss ↦
      rw miss (
        step_over-IsFound (Fits n) b bs (find_fit n bs) (λ k. ground arith) (find_fit-IsFound n bs))
]
