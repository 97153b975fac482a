-- ===== src/Malloc/Memory.antt =====
-- Asgn1/malloc.c: the writes of headers change no byte of a region in use.
use csc.Prelude.{
  ℕ, ◌+◌, ◌≤◌, ◌<◌, ◌≡◌, refl, sym, ◌∙◌, ◌⊎◌, inl, inr, Bool, true, false, ◌&&◌, ◌||◌, ltb, leb,
  Option, none, some, List, [], ◌∷◌, ◌++◌, arith, Bool-cases, All,
}
use csc.Malloc.Blocks.{BlockHeader, payload, absorb, merge_loop, merge_free_nodes}
use csc.Malloc.Headers.{store_header, store_headers, next_address, store_headers-cong}
use csc.Malloc.Layout.{Tiles, Regions, regions}
use csc.Malloc.Regions.{within, release, Apart, Apart-lower}

-- The address lies in one of the regions.
abbrev pub in_use : ℕ → Regions → Bool
in_use a [] = false
in_use a (r ∷ rs) = within a r || in_use a rs

-- The address lies outside the header, whose fields take 24 bytes.
abbrev pub Away : ℕ → BlockHeader → Type 0
Away a b = (a < b.addr) ⊎ (b.addr + 24 ≤ a)

store_header-Away :
    (b : BlockHeader) (next a : ℕ) (m : ℕ → ℕ) → Away a b → store_header b next m a ≡ m a
unfolding store_header
store_header-Away b next a m away =
    let miss : (leb b.addr a
          && (ltb a (b.addr + 9) || (leb (b.addr + 16) a && ltb a (b.addr + 24))))
        ≡ false =
      ground arith in
    rw miss refl

pub store_headers-Away :
    (bs : List BlockHeader) (a : ℕ) (m : ℕ → ℕ) → All (Away a) bs → store_headers bs m a ≡ m a
unfolding store_headers
store_headers-Away [] a m away = refl
store_headers-Away (b ∷ bs) a m (away, others) =
    store_header-Away b (next_address bs) a (store_headers bs m) away
    ∙ store_headers-Away bs a m others

below-Away :
    (bs : List BlockHeader) (start stop a : ℕ) → Tiles start bs stop → a < start → All (Away a) bs
below-Away [] start stop a t h = tt
below-Away (b ∷ bs) start stop a t h = (
  inl (omega (arith, t.0, h)),
  below-Away bs (start + 32 + b.payload_capacity) stop a t.4 (omega (arith, h)),
)

in_use-above :
    (bs : List BlockHeader) (start stop a : ℕ)
    → Tiles start bs stop
    → in_use a (regions bs) ≡ true
    → start ≤ a
in_use-above [] start stop a t u = cc
in_use-above (b ∷ bs) start stop a t u = elim (Bool-cases b.is_free) [
  | inl e ↦
      let r = in_use-above bs (start + 32 + b.payload_capacity) stop a t.4 (rw e at u) in
      omega (arith, r)
  | inr e ↦ elim (Bool-cases (within a (payload b, b.payload_capacity))) [
    | inl here ↦ ground arith
    | inr past ↦
        let u' = rw e at u in
        let r = in_use-above bs (start + 32 + b.payload_capacity) stop a t.4 (ground arith) in
        omega (arith, r)
  ]
]

-- A byte of a region in use lies outside all headers.
pub in_use-Away :
    (bs : List BlockHeader) (start stop a : ℕ)
    → Tiles start bs stop
    → in_use a (regions bs) ≡ true
    → All (Away a) bs
in_use-Away [] start stop a t u = tt
in_use-Away (b ∷ bs) start stop a t u =
    let past : in_use a (regions bs) ≡ true → Away a b × All (Away a) bs = λ v. (
      inr (
          let r = in_use-above bs (start + 32 + b.payload_capacity) stop a t.4 v in
          omega (arith, r, t.0)),
      in_use-Away bs (start + 32 + b.payload_capacity) stop a t.4 v,
    ) in
    elim (Bool-cases b.is_free) [
      | inl e ↦ past (rw e at u)
      | inr e ↦ elim (Bool-cases (within a (payload b, b.payload_capacity))) [
        | inl here ↦ (
          inr (ground arith),
          below-Away bs (start + 32 + b.payload_capacity) stop a t.4 (ground arith),
        )
        | inr off ↦ let u' = rw e at u in past (ground arith)
      ]
    ]

abbrev AllAway : ℕ → Option BlockHeader → Type 0
AllAway a none = Unit {0}
AllAway a (some f) = Away a f

-- The headers that a merge leaves are among those before.
merge_loop-Away :
    (f : Option BlockHeader) (bs : List BlockHeader) (a : ℕ)
    → AllAway a f
    → All (Away a) bs
    → All (Away a) (merge_loop f bs)
unfolding merge_loop
merge_loop-Away none [] a h k = tt
merge_loop-Away (some f) [] a h k = (h, tt)
merge_loop-Away none (b ∷ bs) a h (k, ks) = elim (Bool-cases b.is_free) [
  | inl e ↦ rw e (merge_loop-Away (some b) bs a k ks)
  | inr e ↦ rw e (k, merge_loop-Away none bs a tt ks)
]
merge_loop-Away (some f) (b ∷ bs) a h (k, ks) = elim (Bool-cases b.is_free) [
  | inl e ↦ rw e (merge_loop-Away (some (absorb f b)) bs a h ks)
  | inr e ↦ rw e (h, (k, merge_loop-Away none bs a tt ks))
]

pub merge_free_nodes-Away :
    (bs : List BlockHeader) (a : ℕ) → All (Away a) bs → All (Away a) (merge_free_nodes bs)
unfolding merge_free_nodes
merge_free_nodes-Away bs a k = merge_loop-Away none bs a tt k

pub in_use-insert :
    (a : ℕ) (xs ys : Regions) (r : ℕ × ℕ)
    → in_use a (xs ++ ys) ≡ true
    → in_use a (xs ++ r ∷ ys) ≡ true
in_use-insert a [] ys r u = ground arith
in_use-insert a (x ∷ xs) ys r u = elim (Bool-cases (within a x)) [
  | inl here ↦ rw here refl
  | inr off ↦ rw off (in_use-insert a xs ys r (rw off at u))
]

pub in_use-within :
    (a : ℕ) (xs ys : Regions) (r : ℕ × ℕ) → within a r ≡ true → in_use a (xs ++ r ∷ ys) ≡ true
in_use-within a [] ys r h = rw h refl
in_use-within a (x ∷ xs) ys r h = let rest = in_use-within a xs ys r h in ground arith

pub in_use-release : (a p : ℕ) (rs : Regions) → in_use a (release p rs) ≡ true → in_use a rs ≡ true
in_use-release a p [] u = u
in_use-release a p (r ∷ rs) u = elim (Bool-cases (within p r)) [
  | inl hit ↦ let u' = rw hit at u in ground arith
  | inr miss ↦ elim (Bool-cases (within a r)) [
    | inl here ↦ rw here refl
    | inr off ↦ let u' = rw miss at u in rw off (in_use-release a p rs (rw off at u'))
  ]
]

Apart-above : (a lo hi : ℕ) (rs : Regions) → Apart lo rs hi → in_use a rs ≡ true → lo ≤ a
Apart-above a lo hi [] h u = cc
Apart-above a lo hi ((q, n) ∷ rs) h u = elim (Bool-cases (within a (q, n))) [
  | inl here ↦ ground arith
  | inr off ↦ let r = Apart-above a (q + n) hi rs h.2 (rw off at u) in omega (arith, r, h.0)
]

-- A byte of the other regions is not in this one.
pub Apart-outside :
    (a q n lo hi : ℕ) (xs ys : Regions)
    → Apart lo (xs ++ (q, n) ∷ ys) hi
    → in_use a (xs ++ ys) ≡ true
    → (a < q) ⊎ (q + n ≤ a)
Apart-outside a q n lo hi [] ys h u = inr (Apart-above a (q + n) hi ys h.2 u)
Apart-outside a q n lo hi ((q', n') ∷ xs) ys h u = elim (Bool-cases (within a (q', n'))) [
  | inl here ↦ let l = Apart-lower q n (q' + n') hi xs ys h.2 in inl (ground arith)
  | inr off ↦ Apart-outside a q n (q' + n') hi xs ys h.2 (rw off at u)
]

-- A change of memory within the regions in use keeps the headers.
pub stored_still :
    (bs : List BlockHeader) (start stop : ℕ) (m m' : ℕ → ℕ)
    → Tiles start bs stop
    → ((a : ℕ) → store_headers bs m a ≡ m a)
    → ((a : ℕ) → (in_use a (regions bs) ≡ true) ⊎ (m' a ≡ m a))
    → (a : ℕ) → store_headers bs m' a ≡ m' a
stored_still bs start stop m m' t stored change a = elim (change a) [
  | inl inside ↦ store_headers-Away bs a m' (in_use-Away bs start stop a t inside)
  | inr same ↦ store_headers-cong bs m' m a same ∙ (stored a ∙ sym same)
]
