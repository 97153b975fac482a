-- ===== src/Malloc/Regions.antt =====
-- Asgn1/malloc.c seen from outside: the regions in use, which region a pointer lies in, and the
-- regions that are left when that one is given back.
use csc.Prelude.{
  ℕ, ◌+◌, ◌≤◌, ◌<◌, ◌≡◌, refl, ap, ◌∙◌, subst, append-nil, Bool, true, false, ◌&&◌, Option, none,
  some, List, [], ◌∷◌, ◌++◌, arith, leb, ltb, if◌then◌else◌, All, Bool-cases, inl, inr,
}
use csc.Malloc.Blocks.{BlockHeader, Cursor, payload, whole}
use csc.Malloc.Layout.{Tiles, Tiles-split, Regions, regions, regions-append}
use csc.Malloc.Search.{Holds, IsFound, above}

abbrev pub within : ℕ → ℕ × ℕ → Bool
within p (q, n) = leb q p && ltb p (q + n)

-- The region that the pointer lies in.
abbrev pub find_region : ℕ → Regions → Option (ℕ × ℕ)
find_region p [] = none
find_region p (r ∷ rs) = if within p r then some r else find_region p rs

-- The regions without the one that the pointer lies in.
abbrev pub release : ℕ → Regions → Regions
release p [] = []
release p (r ∷ rs) = if within p r then rs else (r ∷ release p rs)

-- The regions stand in the addresses from `lo` to `hi`, in order, with no overlap.
abbrev pub Apart : ℕ → Regions → ℕ → Type 0
Apart lo [] hi = lo ≤ hi
Apart lo ((q, n) ∷ rs) hi = (lo ≤ q) × (16 ≤ n) × Apart (q + n) rs hi

Apart-mono : (lo lo' hi : ℕ) (rs : Regions) → lo' ≤ lo → Apart lo rs hi → Apart lo' rs hi
Apart-mono lo lo' hi [] h a = omega arith
Apart-mono lo lo' hi ((q, n) ∷ rs) h a = (omega arith, a.1, a.2)

pub Tiles-Apart :
    (bs : List BlockHeader) (start stop : ℕ) → Tiles start bs stop → Apart start (regions bs) stop
Tiles-Apart [] start stop e = omega arith
Tiles-Apart (b ∷ bs) start stop t =
    let rest = Tiles-Apart bs (start + 32 + b.payload_capacity) stop t.4 in
    elim (Bool-cases b.is_free) [
      | inl e ↦
          rw e (
            Apart-mono (start + 32 + b.payload_capacity) start stop (regions bs) (omega arith) rest)
      | inr e ↦ rw e (
        omega arith,
        omega arith,
        Apart-mono (start + 32 + b.payload_capacity) (b.addr + 32 + b.payload_capacity) stop
            (regions bs) (omega arith) rest,
      )
    ]

-- A pointer below the regions lies in none of them.
below : (p lo hi : ℕ) (rs : Regions) → Apart lo rs hi → p < lo → find_region p rs ≡ none
below p lo hi [] a h = refl
below p lo hi ((q, n) ∷ rs) a h = ground (arith, below p (q + n) hi rs a.2)

pub Apart-lower : (q n lo hi : ℕ) (xs ys : Regions) → Apart lo (xs ++ (q, n) ∷ ys) hi → lo ≤ q
Apart-lower q n lo hi [] ys a = a.0
Apart-lower q n lo hi ((q', n') ∷ xs) ys a = omega (arith, Apart-lower q n (q' + n') hi xs ys a.2)

-- In regions that do not overlap, one that holds the pointer is the one that is given back.
pub release_hit :
    (p q n lo hi : ℕ) (xs ys : Regions)
    → Apart lo (xs ++ (q, n) ∷ ys) hi
    → within p (q, n) ≡ true
    → release p (xs ++ (q, n) ∷ ys) ≡ xs ++ ys
release_hit p q n lo hi [] ys a h = rw h refl
release_hit p q n lo hi ((q', n') ∷ xs) ys a h =
    ground
      (arith, Apart-lower q n (q' + n') hi xs ys a.2, release_hit p q n (q' + n') hi xs ys a.2 h)

-- A pointer in an old region is not in a new one between them, and giving its region back leaves the
-- new one in its place.
pub record Aside (p : ℕ) (r : ℕ × ℕ) (xs ys : Regions) : Type 0 where
  pub front : Regions
  pub back : Regions
  pub left : release p (xs ++ r ∷ ys) ≡ front ++ r ∷ back
  pub same : release p (xs ++ ys) ≡ front ++ back

pub Aside-of_find :
    (p q n lo hi : ℕ) (xs ys : Regions) (s : ℕ × ℕ)
    → Apart lo (xs ++ (q, n) ∷ ys) hi
    → find_region p (xs ++ ys) ≡ some s
    → Aside p (q, n) xs ys
Aside-of_find p q n lo hi [] ys s a found =
    let miss : within p (q, n) ≡ false = ground (arith, below p (q + n) hi ys a.2) in
    record { front = []; back = release p ys; left = rw miss refl; same = refl }
Aside-of_find p q n lo hi ((q', n') ∷ xs) ys s a found = elim (Bool-cases (within p (q', n'))) [
  | inl hit ↦ record { front = xs; back = ys; left = rw hit refl; same = rw hit refl }
  | inr miss ↦
      let rest = Aside-of_find p q n (q' + n') hi xs ys s a.2 (rw miss at found) in
      record {
        front = (q', n') ∷ rest.front;
        back = rest.back;
        left = rw (miss, rest.left) refl;
        same = rw (miss, rest.same) refl;
      }
]

-- Blocks that do not hold the pointer are passed over.
find_region_past :
    (p : ℕ) (xs : List BlockHeader) (rs : Regions)
    → All (λ b. ¬ Holds p b) xs
    → find_region p (regions xs ++ rs) ≡ find_region p rs
find_region_past p [] rs h = refl
find_region_past p (x ∷ xs) rs (h, hs) =
    let miss : within p (payload x, x.payload_capacity) ≡ false = ground (arith, h) in
    ground (arith, miss, find_region_past p xs rs hs)

release_past :
    (p : ℕ) (xs : List BlockHeader) (rs : Regions)
    → All (λ b. ¬ Holds p b) xs
    → release p (regions xs ++ rs) ≡ regions xs ++ release p rs
release_past p [] rs h = refl
release_past p (x ∷ xs) rs (h, hs) =
    let miss : within p (payload x, x.payload_capacity) ≡ false = ground (arith, h) in
    ground (arith, miss, release_past p xs rs hs)

-- What the answer of `findblock` says of the regions in use.
abbrev pub Seen : ℕ → Regions → Option Cursor → Type 0
Seen p rs none = (find_region p rs ≡ none) × (release p rs ≡ rs)
Seen p rs (some c) =
    if c.here.is_free
    then (find_region p rs ≡ none) × (release p rs ≡ rs)
    else (find_region p rs ≡ some (payload c.here, c.here.payload_capacity))
      × (release p rs ≡ regions c.before ++ regions c.after)
      × (rs ≡ regions c.before ++ (payload c.here, c.here.payload_capacity) ∷ regions c.after)

-- Blocks none of which holds the pointer.
Seen-none : (p : ℕ) (bs : List BlockHeader) → All (λ b. ¬ Holds p b) bs → Seen p (regions bs) none
Seen-none p bs h = (
  subst (λ rs. find_region p rs ≡ none) (append-nil (regions bs)) (find_region_past p bs [] h),
  subst (λ rs. release p rs ≡ rs) (append-nil (regions bs)) (release_past p bs [] h),
)

Seen-whole :
    (p start stop : ℕ) (c : Cursor)
    → Tiles start (whole c) stop
    → Holds p c.here
    → All (λ b. ¬ Holds p b) c.before
    → Seen p (regions (whole c)) (some c)
Seen-whole p start stop c t here before =
    let (mid, front, u) = Tiles-split c.before (c.here ∷ c.after) start stop t in
    let miss =
      Seen-none p c.after
        (above p (mid + 32 + c.here.payload_capacity) stop c.after u.4 (omega arith)) in
    let region : ℕ × ℕ = (payload c.here, c.here.payload_capacity) in
    let hit : within p (payload c.here, c.here.payload_capacity) ≡ true = ground arith in
    rw (regions-append c.before (c.here ∷ c.after)) (elim (Bool-cases c.here.is_free) [
      | inl e ↦ rw e (
        find_region_past p c.before (regions c.after) before ∙ miss.0,
        release_past p c.before (regions c.after) before ∙ ap (λ rs. regions c.before ++ rs) miss.1,
      )
      | inr e ↦ rw e (
        find_region_past p c.before (region ∷ regions c.after) before ∙ rw hit refl,
        release_past p c.before (region ∷ regions c.after) before ∙ rw hit refl,
        refl,
      )
    ])

pub IsFound-Seen :
    (p start stop : ℕ) (bs : List BlockHeader) (r : Option Cursor)
    → Tiles start bs stop
    → IsFound (Holds p) bs r
    → Seen p (regions bs) r
IsFound-Seen p start stop bs none t h = Seen-none p bs h
IsFound-Seen p start stop bs (some c) t (same, here, before) =
    subst (λ xs. Seen p (regions xs) (some c)) same
      (Seen-whole p start stop c (rw same t) here before)
