-- ===== src/Malloc/Allocate.antt =====
-- Asgn1/malloc.c, `malloc`: what a call returns and what it leaves.
use csc.Prelude.{
  ℕ, ◌+◌, ◌%◌, ◌^◌, ◌≤◌, ◌<◌, ◌≡◌, refl, sym, ap, subst, ◌∙◌, ◌⊎◌, inl, inr, true, false, Option,
  none, some, List, [], ◌∷◌, ◌++◌, arith, ◌==◌, Bool-cases, Option-cases, append-nil,
}
use csc.Malloc.Blocks.{
  BlockHeader, Cursor, splitblock, block, cursor, whole, u64_sub, round_up_16, header_size,
  find_fit,
}
use csc.Malloc.Calls.{Heap, Sbrk, use_split, use_block, grow, extend, malloc}
use csc.Malloc.Layout.{
  Tiles, IsCoalesced, Regions, regions, regions-append, Tiles-swap, Tiles-join, IsCoalesced-split,
  IsCoalesced-replace,
}
use csc.Malloc.Headers.{store_headers, store_headers-twice}
use csc.Malloc.Memory.{in_use, in_use-Away, store_headers-Away}
use csc.Malloc.Split.{splitblock-IsSplit}
use csc.Malloc.Search.{IsFound, Fits, find_fit-IsFound}
use csc.Malloc.Invariant.{Inv, Inv-bytes, IsSbrk, IsRequest, Tiles-aligned, IsCoalesced-extend}

-- A new region of `size` bytes or a little more stands between the old ones at `p`; the bytes of the
-- regions in use, old and new, are as in `bytes`.
pub record Allocated (size p : ℕ) (old : Regions) (bytes : ℕ → ℕ) (h : Heap) : Type 0 where
  pub before : Regions
  pub after : Regions
  pub capacity : ℕ
  pub was : old ≡ before ++ after
  pub is_now : regions h.blocks ≡ before ++ (p, capacity) ∷ after
  pub rounded : capacity % 16 ≡ 0
  pub enough : size ≤ capacity
  pub little_waste : capacity ≤ size + 47
  pub aligned : p % 16 ≡ 0
  pub kept : (a : ℕ) → in_use a (regions h.blocks) ≡ true → h.bytes a ≡ bytes a
  pub valid : Inv h

-- A refusal leaves the list and the memory as they were; it comes with ENOMEM, or of size 0.
pub record Refused (size : ℕ) (h h' : Heap) : Type 0 where
  pub same_blocks : h'.blocks ≡ h.blocks
  pub same_bytes : h'.bytes ≡ h.bytes
  pub reason : (size ≡ 0) ⊎ (h'.enomem ≡ true)
  pub valid : Inv h'

abbrev pub MallocSpec : ℕ → Heap → Option ℕ × Heap → Type 0
MallocSpec size h (none, h') = Refused size h h'
MallocSpec size h (some p, h') = Allocated size p (regions h.blocks) h.bytes h'

abbrev marked : Cursor → Cursor
marked c = record c { here = record (c.here) { is_free = false } }

pub splitblock-Allocated :
    (c : Cursor) (size start : ℕ) (h : Heap)
    → h.brk < 2 ^ 47
    → Tiles start (whole c) h.brk
    → IsCoalesced (whole c)
    → c.here.is_free ≡ false
    → 0 < size
    → IsRequest size
    → round_up_16 size ≤ c.here.payload_capacity
    → (old : Regions) → old ≡ regions c.before ++ regions c.after
    → Allocated size (splitblock c (round_up_16 size)).1 old h.bytes (record h {
      blocks = (splitblock c (round_up_16 size)).0;
      bytes = store_headers (splitblock c (round_up_16 size)).0 h.bytes;
    })
splitblock-Allocated c size start h small t k used pos req fits old was =
    let s =
      splitblock-IsSplit c (round_up_16 size) start h.brk small t k used (omega arith) (omega arith)
        fits in
    record {
      before = regions c.before;
      after = regions c.after;
      capacity = s.kept;
      was = was;
      is_now = rw (s.pointer) (s.used);
      rounded = s.rounded;
      enough = omega (arith, s.enough);
      little_waste = omega (arith, s.little_waste);
      aligned = rw (s.pointer) (s.aligned);
      kept = λ a u.
          store_headers-Away (splitblock c (round_up_16 size)).0 a h.bytes
            (in_use-Away (splitblock c (round_up_16 size)).0 start h.brk a s.tiles u);
      valid = record {
        start = start;
        small = small;
        tiles = s.tiles;
        coalesced = s.coalesced;
        stored = store_headers-twice (splitblock c (round_up_16 size)).0 h.bytes;
      };
    }

-- A free block that can take the request is turned into a new region.
use_block-Allocated :
    (c : Cursor) (size start : ℕ) (h : Heap)
    → h.brk < 2 ^ 47
    → Tiles start (whole c) h.brk
    → IsCoalesced (whole (marked c))
    → c.here.is_free ≡ true
    → 0 < size
    → IsRequest size
    → round_up_16 size ≤ c.here.payload_capacity
    → (h₀ : Heap) → regions h₀.blocks ≡ regions (whole c)
    → h₀.bytes ≡ h.bytes
    → MallocSpec size h₀ (use_block c (round_up_16 size) h)
unfolding use_block use_split
use_block-Allocated c size start h small t k unused pos req fits h₀ same same_bytes =
    rw same_bytes (
      splitblock-Allocated (marked c) size start h small
        (Tiles-swap c.before (c.here ∷ c.after) ((marked c).here ∷ c.after) start h.brk h.brk t
          (λ m u. u))
        k refl pos req fits (regions h₀.blocks)
        (same ∙ regions-append c.before (c.here ∷ c.after) ∙ rw unused refl))

module _ {sbrk : Sbrk} (laws : IsSbrk sbrk) where
  grow-MallocSpec :
      (size new_size : ℕ) (h₀ h : Heap)
      → Inv h
      → h.brk % 16 ≡ 0
      → 0 < size
      → IsRequest size
      → 32 + round_up_16 size ≤ new_size
      → new_size % 16 ≡ 0
      → new_size < 2 ^ 63
      → h₀.blocks ≡ h.blocks
      → h₀.bytes ≡ h.bytes
      → MallocSpec size h₀ (grow sbrk (round_up_16 size) new_size h)
  unfolding grow
  grow-MallocSpec size new_size h₀ h v a16 pos req room n16 small same same_bytes =
      elim (Option-cases (sbrk h.brk new_size)) [
        | inl e ↦
            rw (e, grow)
              (record {
                same_blocks = sym same;
                same_bytes = sym same_bytes;
                reason = inr refl;
                valid = Inv-bytes h h.bytes true v.stored v;
              })
        | inr ((p, b), e) ↦
            let (at_break, moved, below) = laws.grows h.brk new_size p b v.small small e in
            let fresh = block p (u64_sub new_size header_size) true in
            rw (e, grow)
              (use_block-Allocated (cursor h.blocks fresh []) size v.start (record h { brk = b })
                below
                (Tiles-join h.blocks (fresh ∷ []) v.start h.brk b v.tiles
                  (omega arith, omega arith, omega arith, omega arith, omega arith))
                (IsCoalesced-extend h.blocks (block p (u64_sub new_size header_size) false)
                  v.coalesced refl)
                refl pos req (omega arith) h₀
                (ap regions same ∙ sym (regions-append h.blocks (fresh ∷ []) ∙ append-nil _))
                same_bytes)
      ]

  -- The first block starts at a 16-byte boundary; later the break is at one already.
  padded :
      (xs : List BlockHeader) (start brk b : ℕ)
      → Tiles start xs brk
      → b ≡ brk + u64_sub (round_up_16 brk) brk
      → brk < 2 ^ 47
      → (start' : ℕ) × Tiles start' xs b × (b % 16 ≡ 0)
  padded [] start brk b t e small = (b, refl, omega arith)
  padded (x ∷ xs) start brk b t e small =
      let a16 = Tiles-aligned x xs start brk t in
      let still : brk ≡ b = omega arith in
      (start, subst (λ n. Tiles start (x ∷ xs) n) still t, omega arith)

  extend-MallocSpec :
      (size : ℕ) (h : Heap)
      → Inv h
      → 0 < size
      → IsRequest size
      → MallocSpec size h (extend sbrk (round_up_16 size) h)
  unfolding extend
  extend-MallocSpec size h v pos req =
      let pad = u64_sub (round_up_16 h.brk) h.brk in
      rw (laws.query h.brk v.small, extend)
        (elim (Option-cases (sbrk h.brk pad)) [
          | inl e ↦
              rw (e, extend)
                (record {
                  same_blocks = refl;
                  same_bytes = refl;
                  reason = inr refl;
                  valid = Inv-bytes h h.bytes true v.stored v;
                })
          | inr ((p, b), e) ↦
              let (_, moved, below) = laws.grows h.brk pad p b v.small (omega arith) e in
              let (start, tiles, a16) = padded h.blocks v.start h.brk b v.tiles moved v.small in
              rw (e, extend)
                (grow-MallocSpec size _ h (record h { brk = b })
                  (record {
                    start = start;
                    small = below;
                    tiles = tiles;
                    coalesced = v.coalesced;
                    stored = v.stored;
                  })
                  a16 pos req (ground arith) (ground arith) (ground arith) refl refl)
        ])

  -- The block that the search found is used.
  found-MallocSpec :
      (size : ℕ) (h : Heap) (c : Cursor)
      → Inv h
      → 0 < size
      → IsRequest size
      → IsFound (Fits (round_up_16 size)) h.blocks (some c)
      → MallocSpec size h (use_block c (round_up_16 size) h)
  found-MallocSpec size h c v pos req (same, (unused, fits), _) =
      use_block-Allocated c size v.start h v.small (rw same v.tiles)
        (IsCoalesced-replace c.before (c.here ∷ c.after) ((marked c).here ∷ c.after)
          (rw same v.coalesced)
          (refl, (IsCoalesced-split c.before (c.here ∷ c.after) (rw same v.coalesced)).1.1)
          (inl refl))
        unused pos req fits h (ap regions (sym same)) refl

  -- Over an `sbrk` that keeps its laws, every call of `malloc` of fewer than 2 ^ 62 bytes keeps
  -- a well-formed heap well formed. It either returns a 16-byte aligned pointer to a new region,
  -- apart from those in use, of at least the size and at most 47 bytes more, and no byte
  -- of a region in use, old or new, changes; or it returns NULL and changes no block and no byte, for
  -- size 0 or with ENOMEM.
  pub malloc-MallocSpec :
      (size : ℕ) (h : Heap) → Inv h → IsRequest size → MallocSpec size h (malloc sbrk size h)
  unfolding malloc
  malloc-MallocSpec size h v req =
      let found = find_fit-IsFound (round_up_16 size) h.blocks in
      elim (Bool-cases (size == 0)) [
        | inl zero ↦
            rw (zero, malloc)
              (record {
                same_blocks = refl;
                same_bytes = refl;
                reason = inl (ground arith);
                valid = v;
              })
        | inr more ↦ elim (Option-cases (find_fit (round_up_16 size) h.blocks)) [
          | inl e ↦
              rw (more, malloc) (rw (e, malloc) (extend-MallocSpec size h v (ground arith) req))
          | inr (c, e) ↦
              rw (more, malloc)
                (rw (e, malloc)
                  (found-MallocSpec size h c v (ground arith) req
                    (subst (IsFound (Fits (round_up_16 size)) h.blocks) e found)))
        ]
      ]
