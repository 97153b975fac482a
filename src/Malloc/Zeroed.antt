-- ===== src/Malloc/Zeroed.antt =====
-- Asgn1/malloc.c, `calloc`: the product of its arguments is checked before it is formed, and the new
-- region is zero.
use native.Mathlib.Nat.{div-lt_iff_lt-mul}
use csc.Prelude.{
  ℕ, zero, suc, ◌+◌, ◌-◌, ◌*◌, ◌/◌, ◌^◌, ◌≤◌, ◌<◌, ◌≡◌, refl, ap, ◌∙◌, subst, Bool, true, false,
  not, ◌&&◌, Option, none, some, arith, ◌==◌, leb, ltb, if◌then◌else◌, Bool-cases, inl, inr,
}
use csc.Malloc.Blocks.{u64}
use csc.Malloc.Calls.{Heap, Sbrk, clear, malloc, calloc}
use csc.Malloc.Layout.{regions}
use csc.Malloc.Invariant.{Inv, Inv-bytes, IsSbrk, IsRequest}
use csc.Malloc.Memory.{in_use, in_use-within, stored_still}
use csc.Malloc.Allocate.{Allocated, Refused, MallocSpec, malloc-MallocSpec}

-- The test of `calloc` is exactly that the product leaves 64 bits.
guard-eq-overflow :
    (nmemb size : ℕ) → 0 < size → ltb ((2 ^ 64 - 1) / size) nmemb ≡ ltb (2 ^ 64 - 1) (nmemb * size)
guard-eq-overflow nmemb size pos = elim (Bool-cases (ltb (2 ^ 64 - 1) (nmemb * size))) [
  | inl e ↦ ground (arith, (div-lt_iff_lt-mul {x = 2 ^ 64 - 1} {y = nmemb} pos).1)
  | inr e ↦ ground (arith, (div-lt_iff_lt-mul {x = 2 ^ 64 - 1} {y = nmemb} pos).0)
]

abbrev overflows : ℕ → ℕ → Bool
overflows nmemb size = not (size == 0) && ltb ((2 ^ 64 - 1) / size) nmemb

overflows-true : (nmemb size : ℕ) → 2 ^ 64 ≤ nmemb * size → overflows nmemb size ≡ true
overflows-true nmemb zero h = ground arith
overflows-true nmemb (suc k) h = ground (arith, guard-eq-overflow nmemb (suc k))

overflows-false : (nmemb size : ℕ) → nmemb * size < 2 ^ 64 → overflows nmemb size ≡ false
overflows-false nmemb zero h = refl
overflows-false nmemb (suc k) h = ground (arith, guard-eq-overflow nmemb (suc k))

-- When the product does not fit in 64 bits, `calloc` returns NULL with ENOMEM and changes nothing
-- else, whatever the heap.
pub calloc_overflow :
    (sbrk : Sbrk) (nmemb size : ℕ) (h : Heap)
    → 2 ^ 64 ≤ nmemb * size
    → calloc sbrk nmemb size h ≡ (none, record h { enomem = true })
unfolding calloc
calloc_overflow sbrk nmemb size h big = rw (overflows-true nmemb size big) refl

-- The bytes asked for are zero, the others of the regions in use as before.
abbrev pub CallocSpec : ℕ → Heap → Option ℕ × Heap → Type 0
CallocSpec total h (none, h') = Refused total h h'
CallocSpec total h (some p, h') =
    Allocated total p (regions h.blocks) (clear p total h.bytes) h'
    × ((i : ℕ) → i < total → h'.bytes (p + i) ≡ 0)

clear_inside : (p n i : ℕ) (m : ℕ → ℕ) → i < n → clear p n m (p + i) ≡ 0
clear_inside p n i m h = ground arith

zeroed-CallocSpec :
    (total : ℕ) (h : Heap) (r : Option ℕ × Heap)
    → MallocSpec total h r
    → CallocSpec total h (elim (r.0) [
      | none ↦ (none, r.1)
      | some p ↦ (some p, record (r.1) { bytes = clear p total (r.1).bytes })
    ])
zeroed-CallocSpec total h (none, h') spec = spec
zeroed-CallocSpec total h (some p, h') a = (
  record {
    before = a.before;
    after = a.after;
    capacity = a.capacity;
    was = a.was;
    is_now = a.is_now;
    rounded = a.rounded;
    enough = a.enough;
    little_waste = a.little_waste;
    aligned = a.aligned;
    kept = λ x u. ap (λ v. if leb p x && ltb x (p + total) then 0 else v) (a.kept x u);
    valid =
        Inv-bytes h' (clear p total h'.bytes) h'.enomem
          (stored_still h'.blocks a.valid.start h'.brk h'.bytes _ a.valid.tiles a.valid.stored (λ x.
            elim (Bool-cases (leb p x && ltb x (p + total))) [
              | inl hit ↦ inl (
                  ap (in_use x) a.is_now
                  ∙ in_use-within x a.before a.after (p, a.capacity) (ground (arith, a.enough)))
              | inr miss ↦ inr (rw miss refl)
            ]))
          a.valid;
  },
  λ i inside. clear_inside p total i h'.bytes inside,
)

-- Over an `sbrk` that keeps its laws and in a well-formed heap, `calloc` of a product below 2 ^
-- 62 behaves as `malloc` of the product, and every byte of the product at the pointer that it
-- returns is zero; no other byte of a region in use changes.
pub calloc-CallocSpec :
    {sbrk : Sbrk} (laws : IsSbrk sbrk) (nmemb size : ℕ) (h : Heap)
    → Inv h
    → IsRequest (nmemb * size)
    → CallocSpec (nmemb * size) h (calloc sbrk nmemb size h)
unfolding calloc
calloc-CallocSpec {sbrk} laws nmemb size h v req =
    let same : u64 (nmemb * size) ≡ nmemb * size = omega arith in
    subst (λ t. CallocSpec t h (calloc sbrk nmemb size h)) same
      (rw (overflows-false nmemb size (omega arith), calloc)
        (zeroed-CallocSpec (u64 (nmemb * size)) h (malloc sbrk (u64 (nmemb * size)) h)
          (malloc-MallocSpec laws (u64 (nmemb * size)) h v (omega arith))))
