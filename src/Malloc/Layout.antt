-- ===== src/Malloc/Layout.antt =====
-- Asgn1/malloc.c: what a well-formed block list is, and what it hands out.
use csc.Prelude.{
  ℕ, ◌+◌, ◌%◌, ◌≤◌, ◌≡◌, refl, ◌⊎◌, Bool, false, ◌&&◌, List, [], ◌∷◌, ◌++◌, arith, if◌then◌else◌,
}
use csc.Malloc.Blocks.{BlockHeader, payload}

-- The blocks fill the addresses from `start` to `stop` without a gap, on 16-byte boundaries.
abbrev pub Tiles : ℕ → List BlockHeader → ℕ → Type 0
Tiles start [] stop = start ≡ stop
Tiles start (b ∷ bs) stop =
    (b.addr ≡ start)
    × (b.addr % 16 ≡ 0)
    × (b.payload_capacity % 16 ≡ 0)
    × (16 ≤ b.payload_capacity)
    × Tiles (start + 32 + b.payload_capacity) bs stop

abbrev pub starts_free : List BlockHeader → Bool
starts_free [] = false
starts_free (b ∷ bs) = b.is_free

-- No two neighbours are both free.
abbrev pub IsCoalesced : List BlockHeader → Type 0
IsCoalesced [] = Unit {0}
IsCoalesced (b ∷ bs) = ((b.is_free && starts_free bs) ≡ false) × IsCoalesced bs

-- The abstract heap: payload address and capacity of each block in use, in address order.
abbrev pub Regions : Type 0
Regions = List (ℕ × ℕ)

abbrev pub regions : List BlockHeader → Regions
regions [] = []
regions (b ∷ bs) = if b.is_free then regions bs else ((payload b, b.payload_capacity) ∷ regions bs)

pub Tiles-split :
    (xs ys : List BlockHeader) (start stop : ℕ)
    → Tiles start (xs ++ ys) stop
    → (mid : ℕ) × Tiles start xs mid × Tiles mid ys stop
Tiles-split [] ys start stop t = (start, refl, t)
Tiles-split (x ∷ xs) ys start stop (a, b, c, d, t) =
    let (mid, front, back) = Tiles-split xs ys (start + 32 + x.payload_capacity) stop t in
    (mid, (a, b, c, d, front), back)

pub Tiles-join :
    (xs ys : List BlockHeader) (start mid stop : ℕ)
    → Tiles start xs mid
    → Tiles mid ys stop
    → Tiles start (xs ++ ys) stop
Tiles-join [] ys start mid stop e t = ground arith
Tiles-join (x ∷ xs) ys start mid stop (a, b, c, d, front) back =
    (a, b, c, d, Tiles-join xs ys (start + 32 + x.payload_capacity) mid stop front back)

-- One end of the list is replaced by another that fills the same addresses.
pub Tiles-swap :
    (xs ys zs : List BlockHeader) (start stop stop' : ℕ)
    → Tiles start (xs ++ ys) stop
    → ((mid : ℕ) → Tiles mid ys stop → Tiles mid zs stop')
    → Tiles start (xs ++ zs) stop'
Tiles-swap xs ys zs start stop stop' t f =
    let (mid, front, back) = Tiles-split xs ys start stop t in
    Tiles-join xs zs start mid stop' front (f mid back)

pub Tiles-le : (xs : List BlockHeader) (start stop : ℕ) → Tiles start xs stop → start ≤ stop
Tiles-le [] start stop e = omega arith
Tiles-le (x ∷ xs) start stop t =
    omega (arith, Tiles-le xs (start + 32 + x.payload_capacity) stop t.4)

pub regions-append : (xs ys : List BlockHeader) → regions (xs ++ ys) ≡ regions xs ++ regions ys
regions-append [] ys = refl
regions-append (x ∷ xs) ys = ground (arith, regions-append xs ys)

-- What is free at the front of the second list decides whether two coalesced lists join.
pub IsCoalesced-split :
    (xs ys : List BlockHeader) → IsCoalesced (xs ++ ys) → IsCoalesced xs × IsCoalesced ys
IsCoalesced-split [] ys h = (tt, h)
IsCoalesced-split (x ∷ []) ys h = (ground arith, h.1)
IsCoalesced-split (x ∷ y ∷ xs) ys h =
    let (front, back) = IsCoalesced-split (y ∷ xs) ys h.1 in ((h.0, front), back)

pub IsCoalesced-replace :
    (xs ys zs : List BlockHeader)
    → IsCoalesced (xs ++ ys)
    → IsCoalesced zs
    → (starts_free zs ≡ false) ⊎ (starts_free zs ≡ starts_free ys)
    → IsCoalesced (xs ++ zs)
IsCoalesced-replace [] ys zs h k e = k
IsCoalesced-replace (x ∷ []) ys zs h k e = (ground arith, k)
IsCoalesced-replace (x ∷ y ∷ xs) ys zs h k e = (h.0, IsCoalesced-replace (y ∷ xs) ys zs h.1 k e)
