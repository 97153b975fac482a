-- ===== src/Malloc/Resized.antt =====
-- Asgn1/malloc.c, `realloc`: what it is to resize a region, and the copy of the old payload.
use csc.Prelude.{
  ℕ, ◌+◌, ◌-◌, ◌%◌, ◌≤◌, ◌<◌, ◌≡◌, refl, ap, ◌∙◌, ◌⊎◌, true, false, ◌&&◌, Option, none, some, ◌∷◌,
  ◌++◌, arith, leb, ltb,
}
use csc.Malloc.Blocks.{Cursor, whole, payload}
use csc.Malloc.Calls.{Heap, copy}
use csc.Malloc.Layout.{Regions, regions}
use csc.Malloc.Invariant.{Inv}
use csc.Malloc.Memory.{in_use, in_use-within, in_use-insert}
use csc.Malloc.Regions.{release, find_region}
use csc.Malloc.Allocate.{Allocated, Refused}

-- The region `(q, n)` has become one of `size` bytes or a little more at `r`, between the other
-- regions; it begins with the bytes of the old one, and no byte of the other regions has changed.
pub record Resized (size p q n r : ℕ) (h h' : Heap) : Type 0 where
  pub before : Regions
  pub after : Regions
  pub capacity : ℕ
  pub others : release p (regions h.blocks) ≡ before ++ after
  pub is_now : regions h'.blocks ≡ before ++ (r, capacity) ∷ after
  pub enough : size ≤ capacity
  pub little_waste : capacity ≤ size + 47
  pub aligned : r % 16 ≡ 0
  pub copied : (i : ℕ) → i < n → i < size → h'.bytes (r + i) ≡ h.bytes (q + i)
  pub others_kept : (a : ℕ) → in_use a (before ++ after) ≡ true → h'.bytes a ≡ h.bytes a
  pub valid : Inv h'

abbrev pub ReallocSpec : ℕ → ℕ → ℕ × ℕ → Heap → Option ℕ × Heap → Type 0
ReallocSpec size p r h (none, h') = Refused size h h'
ReallocSpec size p r h (some q, h') = Resized size p r.0 r.1 q h h'

-- A resize in place is an allocation between the other regions at the old address.
pub in_place :
    (size p q n r : ℕ) (h h' : Heap)
    → r ≡ q
    → Allocated size r (release p (regions h.blocks)) h.bytes h'
    → Resized size p q n r h h'
in_place size p q n r h h' same a = record {
  before = a.before;
  after = a.after;
  capacity = a.capacity;
  others = a.was;
  is_now = a.is_now;
  enough = a.enough;
  little_waste = a.little_waste;
  aligned = a.aligned;
  copied = λ i _ inside.
      a.kept (r + i) (
        ap (in_use (r + i)) a.is_now
        ∙ in_use-within (r + i) a.before a.after (r, a.capacity) (ground (arith, a.enough)))
      ∙ ap (λ x. h.bytes (x + i)) same;
  others_kept =
      λ x u. a.kept x (ap (in_use x) a.is_now ∙ in_use-insert x a.before a.after (r, a.capacity) u);
  valid = a.valid;
}

-- What is known of the block that `findblock` answered with.
pub record Target (p : ℕ) (c : Cursor) (h : Heap) : Type 0 where
  pub list : whole c ≡ h.blocks
  pub used : c.here.is_free ≡ false
  pub find : find_region p (regions h.blocks) ≡ some (payload c.here, c.here.payload_capacity)
  pub others : release p (regions h.blocks) ≡ regions c.before ++ regions c.after
  pub is_now :
      regions h.blocks
      ≡ regions c.before ++ (payload c.here, c.here.payload_capacity) ∷ regions c.after

abbrev pub Goal : ℕ → ℕ → Cursor → Heap → Option ℕ × Heap → Type 0
Goal size p c h r = ReallocSpec size p (payload c.here, c.here.payload_capacity) h r

-- `memcpy` writes the source's bytes and no others.
pub copy_inside : (d s n i : ℕ) (m : ℕ → ℕ) → i < n → copy d s n m (d + i) ≡ m (s + i)
copy_inside d s n i m h =
    let hit : (leb d (d + i) && ltb (d + i) (d + n)) ≡ true = ground arith in
    let same : d + i - d ≡ i = omega arith in rw (hit, same) refl

pub copy_outside : (d s n a : ℕ) (m : ℕ → ℕ) → (a < d) ⊎ (d + n ≤ a) → copy d s n m a ≡ m a
copy_outside d s n a m h =
    let miss : (leb d a && ltb a (d + n)) ≡ false = ground arith in rw miss refl
