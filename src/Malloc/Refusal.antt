-- ===== src/Malloc/Refusal.antt =====
-- Asgn1/malloc.c, `malloc`: when a call for at least one byte returns NULL.
use csc.Prelude.{
  ℕ, ◌+◌, ◌%◌, ◌^◌, ◌<◌, ◌≤◌, ltb, if◌then◌else◌, ◌≡◌, refl, sym, ap, subst, ◌∙◌, ◌==◌, false,
  Option, none, some, Option-cases, inl, inr, ◌⊎◌, arith, All,
}
use csc.Malloc.Blocks.{round_up_16, find_fit, u64, u64_sub, header_size, chunk_size}
use csc.Malloc.Calls.{
  Heap, Sbrk, out_of_memory, malloc, extend, grow, use_block, use_split, sbrk_pointer,
}
use csc.Malloc.Invariant.{Inv, IsSbrk, IsRequest}
use csc.Malloc.Search.{Fits, IsFound, find_fit-IsFound}

-- A chain of two calls fails in the first or in the second.
either_fails :
    {A : Type 0} (x : Option A) (d : Option ℕ × Heap) (f : A → Option ℕ × Heap)
    → (elim x as (λ _. Option ℕ × Heap) [ none ↦ d | some a ↦ f a ]).0 ≡ none
    → (x ≡ none) ⊎ ((a : A) × (x ≡ some a) × ((f a).0 ≡ none))
either_fails none d f e = inl refl
either_fails (some a) d f e = inr (a, refl, e)

grow_fails :
    (sbrk : Sbrk) (n new_size : ℕ) (h : Heap)
    → (grow sbrk n new_size h).0 ≡ none
    → sbrk h.brk new_size ≡ none
unfolding grow use_block use_split
grow_fails sbrk n new_size h e = elim (either_fails (sbrk h.brk new_size) _ _ e) [
  | inl refused ↦ refused
  | inr (a, there, used) ↦ cc
]

-- `sbrk` refuses to move the break to the next 16-byte boundary, or it does that and refuses a block
-- behind it, which has room for a header and the size, and is of 64K or at most 15 bytes more than
-- that.
pub data Refuses (sbrk : Sbrk) (size brk : ℕ) : Type 0 where
  padding_refused :
      (pad : ℕ) → pad < 16 → (brk + pad) % 16 ≡ 0 → sbrk brk pad ≡ none → Refuses sbrk size brk
  block_refused :
      (pad new_size : ℕ)
      → pad < 16
      → (brk + pad) % 16 ≡ 0
      → sbrk brk pad ≡ some (brk, brk + pad)
      → sbrk (brk + pad) new_size ≡ none
      → 32 + size ≤ new_size
      → (new_size ≡ 65536) ⊎ (new_size ≤ 32 + size + 15)
      → Refuses sbrk size brk

module _ {sbrk : Sbrk} (laws : IsSbrk sbrk) where
  extend_fails :
      (size : ℕ) (h : Heap)
      → h.brk < 2 ^ 47
      → IsRequest size
      → (extend sbrk (round_up_16 size) h).0 ≡ none
      → Refuses sbrk size h.brk
  unfolding extend
  extend_fails size h small req e =
      let pad = u64_sub (round_up_16 h.brk) h.brk in
      let used = u64 (header_size + round_up_16 size) in
      let new_size = if ltb used chunk_size then chunk_size else used in
      let queried =
        subst
          (λ (x : Option (ℕ × ℕ)).
            (elim (sbrk h.brk (u64_sub (round_up_16 (sbrk_pointer x)) (sbrk_pointer x)))
              as (λ _. Option ℕ × Heap) [
                | none ↦ out_of_memory h
                | some (_, b) ↦ grow sbrk (round_up_16 size) new_size (record h { brk = b })
              ]).0
            ≡ none)
          (laws.query h.brk small) e in
      elim (either_fails (sbrk h.brk pad) _ _ queried) [
        | inl refused ↦ padding_refused pad (omega arith) (omega arith) refused
        | inr ((p, b), there, grown) ↦
            let (at, moved, below) = laws.grows h.brk pad p b small (omega arith) there in
            let refused =
              grow_fails sbrk (round_up_16 size) new_size (record h { brk = b }) grown in
            block_refused pad new_size (omega arith) (omega arith)
              (there
                ∙ ap (λ (q : ℕ × ℕ). some q) (ap (λ x. (x, b)) at ∙ ap (λ y. (h.brk, y)) moved))
              (subst (λ x. sbrk x new_size ≡ none) moved refused) (ground arith) (ground arith)
      ]

  -- Over an `sbrk` that keeps its laws and in a well-formed heap, a call of `malloc` for at least one
  -- byte and fewer than 2 ^ 62 returns NULL only when every free block is smaller than the size rounded
  -- up to 16, and `sbrk` has refused one of the two requests that the call makes from the break of the
  -- heap: the padding to the next 16-byte boundary, or from there a block with room for a header and
  -- the size, of 64K or of less than 16 bytes more than that.
  pub malloc_fails :
      (size : ℕ) (h : Heap)
      → Inv h
      → 0 < size
      → IsRequest size
      → (malloc sbrk size h).0 ≡ none
      → All (λ b. ¬ Fits (round_up_16 size) b) h.blocks × Refuses sbrk size h.brk
  unfolding malloc use_block use_split
  malloc_fails size h v pos req e =
      let asks : (size == 0) ≡ false = ground arith in
      let found = find_fit-IsFound (round_up_16 size) h.blocks in
      elim (Option-cases (find_fit (round_up_16 size) h.blocks)) [
        | inl absent ↦
            let same : malloc sbrk size h ≡ extend sbrk (round_up_16 size) h =
              rw (asks, absent, malloc) refl in
            (
              subst (IsFound (Fits (round_up_16 size)) h.blocks) absent found,
              extend_fails size h v.small req (sym (ap (λ r. r.0) same) ∙ e),
            )
        | inr (c, there) ↦
            let same : malloc sbrk size h ≡ use_block c (round_up_16 size) h =
              rw (asks, there, malloc) refl in
            let bad = sym (ap (λ r. r.0) same) ∙ e in cc
      ]
