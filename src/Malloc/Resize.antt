-- ===== src/Malloc/Resize.antt =====
-- Asgn1/malloc.c, `realloc`: a block in use is resized where it stands or moved, and its bytes go
-- with it.
use csc.Prelude.{
  ℕ, ◌+◌, ◌%◌, ◌^◌, ◌≤◌, ◌<◌, ◌≡◌, refl, sym, ap, ◌∙◌, subst, true, false, ◌&&◌, Option, none, some,
  List, [], ◌∷◌, ◌++◌, arith, ◌==◌, leb, ltb, if◌then◌else◌, Bool-cases, Option-cases, inl, inr,
}
use csc.Malloc.Blocks.{
  BlockHeader, Cursor, cursor, whole, payload, u64, u64_sub, round_up_16, header_size, chunk_size,
  findblock,
}
use csc.Malloc.Calls.{
  Heap, Sbrk, use_split, malloc, free, copy, grow_last, move_block, grow_into, resize, realloc,
}
use csc.Malloc.Layout.{
  Tiles, Tiles-split, Tiles-swap, Tiles-join, IsCoalesced, IsCoalesced-split, IsCoalesced-replace,
  regions,
}
use csc.Malloc.Merge.{absorb-Tiles}
use csc.Malloc.Memory.{
  in_use, in_use-Away, in_use-insert, in_use-within, in_use-release, Apart-outside, stored_still,
}
use csc.Malloc.Split.{splitblock-payload}
use csc.Malloc.Invariant.{Inv, Inv-bytes, IsSbrk, IsRequest}
use csc.Malloc.Regions.{release, find_region, Seen, Apart, Tiles-Apart, Aside-of_find}
use csc.Malloc.Allocate.{MallocSpec, splitblock-Allocated, malloc-MallocSpec}
use csc.Malloc.Release.{Seen-heap, whole_found, free-Freed}
use csc.Malloc.Resized.{ReallocSpec, in_place, Target, Goal, copy_inside, copy_outside}

module _ (size p : ℕ) (h : Heap) (v : Inv h) (pos : 0 < size) (req : IsRequest size) where
  -- The block, grown or not, is split.
  split_Goal :
      (c d : Cursor) (b start : ℕ)
      → Target p c h
      → b < 2 ^ 47
      → Tiles start (whole d) b
      → IsCoalesced (whole d)
      → d.here.is_free ≡ false
      → d.here.addr ≡ c.here.addr
      → round_up_16 size ≤ d.here.payload_capacity
      → regions d.before ++ regions d.after ≡ regions c.before ++ regions c.after
      → Goal size p c h (use_split d (round_up_16 size) (record h { brk = b }))
  unfolding use_split
  split_Goal c d b start g small t k used at fits same =
      in_place size p (payload c.here) c.here.payload_capacity _ h _
        (splitblock-payload d (round_up_16 size) ∙ ap (λ a. a + header_size) at)
        (splitblock-Allocated d size start (record h { brk = b }) small t k used pos req fits
          (release p (regions h.blocks)) (g.others ∙ sym same))

  module _ {sbrk : Sbrk} (laws : IsSbrk sbrk) (xs : List BlockHeader) (b : BlockHeader) where
    grow_last-Goal :
        Target p (cursor xs b []) h
        → b.payload_capacity < round_up_16 size
        → Goal size p (cursor xs b []) h (grow_last sbrk (cursor xs b []) (round_up_16 size) h)
    unfolding grow_last
    grow_last-Goal g short =
        let needed = u64_sub (round_up_16 size) b.payload_capacity in
        let allocated = if ltb needed chunk_size then chunk_size else needed in
        let (mid, front, t) = Tiles-split xs (b ∷ []) v.start h.brk (rw g.list v.tiles) in
        elim (Option-cases (sbrk h.brk allocated)) [
          | inl e ↦
              rw (e, grow_last)
                (record {
                  same_blocks = refl;
                  same_bytes = refl;
                  reason = inr refl;
                  valid = Inv-bytes h h.bytes true v.stored v;
                })
          | inr ((q, brk), e) ↦
              let (_, moved, below) = laws.grows h.brk allocated q brk v.small (ground arith) e in
              let big : (b.payload_capacity + allocated) % 2 ^ 64 ≡ b.payload_capacity + allocated =
                ground arith in
              rw (e, grow_last)
                (split_Goal (cursor xs b [])
                  (cursor xs (record b { payload_capacity = u64 (b.payload_capacity + allocated) })
                    [])
                  brk v.start g below
                  (Tiles-join xs _ v.start mid brk front
                    (t.0, t.1, ground arith, ground arith, ground arith))
                  (IsCoalesced-replace xs (b ∷ []) _ (rw g.list v.coalesced)
                    (rw (g.used) (refl, tt)) (inl g.used))
                  g.used refl (ground arith) refl)
        ]

    -- Both blocks are moved together, or the contents to a new block.
    move_block-Goal :
        (ys : List BlockHeader)
        → Target p (cursor xs b ys) h
        → b.payload_capacity < round_up_16 size
        → Goal size p (cursor xs b ys) h (move_block sbrk (cursor xs b ys) p size h)
    unfolding move_block
    move_block-Goal ys g short = moved (malloc sbrk size h) (malloc-MallocSpec laws size h v req)
      where
        moved :
            (r : Option ℕ × Heap)
            → MallocSpec size h r
            → Goal size p (cursor xs b ys) h (elim (r.0) [
              | none ↦ (none, r.1)
              | some q ↦ (
                some q,
                free
                    (some p)
                    (record (r.1) { bytes = copy q (payload b) b.payload_capacity (r.1).bytes }),
              )
            ])
        moved (none, h') spec = spec
        moved (some q, h') a =
            let (mid, front, t) = Tiles-split xs (b ∷ ys) v.start h.brk (rw g.list v.tiles) in
            let m = copy q (payload b) b.payload_capacity h'.bytes in
            let stored =
              stored_still h'.blocks a.valid.start h'.brk h'.bytes m a.valid.tiles a.valid.stored
                (λ x. elim (Bool-cases (leb q x && ltb x (q + b.payload_capacity))) [
                  | inl hit ↦ inl (
                      ap (in_use x) a.is_now
                      ∙ in_use-within x a.before a.after (q, a.capacity)
                          (ground (arith, a.enough, a.rounded, t.2)))
                  | inr miss ↦ inr (rw miss refl)
                ]) in
            let f =
              free-Freed p (record h' { bytes = m }) (Inv-bytes h' m h'.enomem stored a.valid) in
            let s =
              Aside-of_find p q a.capacity a.valid.start h'.brk a.before a.after
                (payload b, b.payload_capacity)
                (subst (λ rs. Apart a.valid.start rs h'.brk) a.is_now
                  (Tiles-Apart h'.blocks a.valid.start h'.brk a.valid.tiles))
                (subst (λ rs. find_region p rs ≡ some (payload b, b.payload_capacity)) a.was
                  g.find) in
            let in_new = λ (x : ℕ) (u : in_use x (regions h.blocks) ≡ true).
              ap (in_use x) a.is_now
              ∙ in_use-insert x a.before a.after (q, a.capacity) (sym (ap (in_use x) a.was) ∙ u) in
            let through = λ (x : ℕ) (u : in_use x (regions h'.blocks) ≡ true).
              f.same_bytes x (in_use-Away h'.blocks a.valid.start h'.brk x a.valid.tiles u) in
            record {
              before = s.front;
              after = s.back;
              capacity = a.capacity;
              others = ap (release p) a.was ∙ s.same;
              is_now = f.used ∙ ap (release p) a.is_now ∙ s.left;
              enough = a.enough;
              little_waste = a.little_waste;
              aligned = a.aligned;
              copied = λ i old new.
                  through (q + i) (
                    ap (in_use (q + i)) a.is_now
                    ∙ in_use-within (q + i) a.before a.after (q, a.capacity)
                        (ground (arith, a.enough)))
                  ∙ copy_inside q (payload b) b.payload_capacity i h'.bytes old
                  ∙ a.kept (payload b + i) (
                      in_new (payload b + i) (
                        ap (in_use (payload b + i)) g.is_now
                        ∙ in_use-within (payload b + i) (regions xs) (regions ys)
                            (payload b, b.payload_capacity) (ground arith)));
              others_kept = λ x u.
                  let old : in_use x (regions h.blocks) ≡ true =
                    in_use-release x p (regions h.blocks)
                      (ap (in_use x) (ap (release p) a.was ∙ s.same) ∙ u) in
                  let away =
                    Apart-outside x q a.capacity a.valid.start h'.brk a.before a.after
                      (subst (λ rs. Apart a.valid.start rs h'.brk) a.is_now
                        (Tiles-Apart h'.blocks a.valid.start h'.brk a.valid.tiles))
                      (sym (ap (in_use x) a.was) ∙ old) in
                  through x (in_new x old)
                  ∙ copy_outside q (payload b) b.payload_capacity x h'.bytes
                      (ground (arith, a.enough, a.rounded, t.2, away))
                  ∙ a.kept x (in_new x old);
              valid = f.valid;
            }

    grow_into-Goal :
        (next : BlockHeader) (rest : List BlockHeader)
        → Target p (cursor xs b (next ∷ rest)) h
        → b.payload_capacity < round_up_16 size
        → Goal size p
            (cursor xs b (next ∷ rest))
            h
            (grow_into sbrk (cursor xs b (next ∷ rest)) next rest p size h)
    unfolding grow_into
    grow_into-Goal next rest g short =
        let total = u64 (header_size + next.payload_capacity) in
        let room = u64 (b.payload_capacity + total) in
        let same_room : room ≡ u64 (b.payload_capacity + (header_size + next.payload_capacity)) =
          omega arith in
        elim (Bool-cases (next.is_free && leb (round_up_16 size) room)) [
          | inl fits ↦
              let unused : next.is_free ≡ true = ground arith in
              rw (fits, grow_into)
                (split_Goal (cursor xs b (next ∷ rest))
                  (cursor xs (record b { payload_capacity = room }) rest) h.brk v.start g v.small
                  (Tiles-swap xs (b ∷ next ∷ rest) _ v.start h.brk h.brk (rw g.list v.tiles)
                    (λ mid t. rw same_room (absorb-Tiles b next rest mid h.brk v.small t)))
                  (IsCoalesced-replace xs (b ∷ next ∷ rest) _ (rw g.list v.coalesced)
                    (rw (g.used) (
                      refl,
                      (IsCoalesced-split xs (b ∷ next ∷ rest) (rw g.list v.coalesced)).1.1.1,
                    ))
                    (inl g.used))
                  g.used refl (ground arith) (rw unused refl))
          | inr misfit ↦ rw (misfit, grow_into) (move_block-Goal (next ∷ rest) g short)
        ]

    -- The two tests of `realloc`, before it looks at the next block.
    resize_tests :
        (ys : List BlockHeader) (rest : Option ℕ × Heap)
        → Target p (cursor xs b ys) h
        → (b.payload_capacity < round_up_16 size → Goal size p (cursor xs b ys) h rest)
        → Goal size p (cursor xs b ys) h (
            if b.payload_capacity == round_up_16 size
            then (some (payload b), h)
            else if ltb (round_up_16 size) b.payload_capacity
            then use_split (cursor xs b ys) (round_up_16 size) h
            else rest)
    resize_tests ys rest g grow =
        let (mid, front, t) = Tiles-split xs (b ∷ ys) v.start h.brk (rw g.list v.tiles) in
        elim (Bool-cases (b.payload_capacity == round_up_16 size)) [
          | inl same ↦ rw same (
              in_place size p (payload b) b.payload_capacity (payload b) h h refl (record {
                before = regions xs;
                after = regions ys;
                capacity = b.payload_capacity;
                was = g.others;
                is_now = g.is_now;
                rounded = t.2;
                enough = ground arith;
                little_waste = ground arith;
                aligned = omega arith;
                kept = λ a u. refl;
                valid = v;
              }))
          | inr differs ↦ elim (Bool-cases (ltb (round_up_16 size) b.payload_capacity)) [
            | inl shrinks ↦ rw differs (
                rw shrinks (
                  split_Goal (cursor xs b ys) (cursor xs b ys) h.brk v.start g v.small
                    (rw g.list v.tiles) (rw g.list v.coalesced) g.used refl (ground arith) refl))
            | inr grows ↦ rw differs (rw grows (grow (ground arith)))
          ]
        ]

    resize-Goal :
        (ys : List BlockHeader)
        → Target p (cursor xs b ys) h
        → Goal size p (cursor xs b ys) h (resize sbrk (cursor xs b ys) p size h)
    unfolding resize
    resize-Goal [] g = resize_tests [] _ g (grow_last-Goal g)
    resize-Goal (next ∷ rest) g = resize_tests (next ∷ rest) _ g (grow_into-Goal next rest g)

found_Target :
    (p : ℕ) (h : Heap) (v : Inv h) (c : Cursor) (r : ℕ × ℕ)
    → findblock p h.blocks ≡ some c
    → find_region p (regions h.blocks) ≡ some r
    → Target p c h × ((payload c.here, c.here.payload_capacity) ≡ r)
found_Target p h v c r e found =
    let seen = subst (Seen p (regions h.blocks)) e (Seen-heap p h v) in
    elim (Bool-cases c.here.is_free) [
      | inl unused ↦ let seen' = rw unused at seen in let no_region = seen'.0 in cc
      | inr used ↦
          let seen' = rw used at seen in
          (
            record {
              list = whole_found p h c v e;
              used = used;
              find = seen'.0;
              others = seen'.1;
              is_now = seen'.2;
            },
            cc,
          )
    ]

-- Over an `sbrk` that keeps its laws and in a well-formed heap, `realloc` to a size from 1 to
-- below 2 ^ 62, of a pointer into a region in use: the region, and no other, is replaced by one
-- of at least the size and at most 47 bytes more, 16-byte aligned, which begins with the bytes
-- of the old one up to the lesser size; no byte of another region in use changes. Or it returns
-- NULL with ENOMEM and changes no block and no byte. The heap stays well formed.
pub realloc-ReallocSpec :
    {sbrk : Sbrk} (laws : IsSbrk sbrk) (p size : ℕ) (r : ℕ × ℕ) (h : Heap)
    → Inv h
    → find_region p (regions h.blocks) ≡ some r
    → 0 < size
    → IsRequest size
    → ReallocSpec size p r h (realloc sbrk (some p) size h)
unfolding realloc
realloc-ReallocSpec {sbrk} laws p size r h v found pos req =
    let nonzero : (size == 0) ≡ false = ground arith in
    elim (Option-cases (findblock p h.blocks)) [
      | inl e ↦
          let seen = subst (Seen p (regions h.blocks)) e (Seen-heap p h v) in
          let no_region = seen.0 in cc
      | inr (c, e) ↦
          let (g, same) = found_Target p h v c r e found in
          rw (nonzero, realloc)
            (rw (e, realloc)
              (subst (λ x. ReallocSpec size p x h (resize sbrk c p size h)) same
                (resize-Goal size p h v pos req laws c.before c.here c.after g)))
    ]
