-- ===== src/Debug/Once.antt =====
-- Asgn1/malloc.c: calloc and realloc report themselves once, also where they call malloc and free.
use Prim.Native.String.{String}
use csc.Prelude.{
  ℕ, ◌+◌, ◌-◌, ◌*◌, ◌/◌, ◌^◌, ◌≡◌, ◌⊎◌, refl, ◌∙◌, false, not, ◌&&◌, ltb, leb, Option, none, some,
  List, [], ◌∷◌, ◌++◌, Option-cases, if◌then◌else◌, ◌==◌, Bool-cases, inl, inr,
}
use csc.Malloc.Blocks.{
  BlockHeader, Cursor, cursor, payload, u64, u64_sub, header_size, chunk_size, splitblock,
  findblock, round_up_16,
}
use csc.Malloc.Calls.{
  Sbrk, Heap, copy, use_split, malloc, calloc, realloc, grow_last, grow_into, move_block, resize,
}
use csc.Debug.Events.{
  Event, custom, debug, customs, quietly, address, calloc_id, realloc_id, splitblock_events,
  findblock_events, malloc_events, free_events, calloc_events,
}
use csc.Debug.ReallocEvents.{
  use_split_events, grow_last_events, grow_into_events, move_block_events, resize_events,
  realloc_events,
}
use csc.Debug.Reported.{
  heard, ends, reports, Reports, heard-quietly, heard-customs, malloc-Reports, free-Reports,
}

-- Just `e` is reported, if `suppress_debug` is not set, and it is not set behind.
abbrev pub ReportsOnce : List Event → Event → Type 0
ReportsOnce es e = (reports (heard false es) ≡ e ∷ []) × (ends false es ≡ false)

customs-once :
    (ss : List String) (es : List Event) {e : Event}
    → ReportsOnce es e
    → ReportsOnce (customs ss ++ es) e
customs-once ss es r = let a = heard-customs false ss es in (a.0 ∙ r.0, a.1 ∙ r.1)

quietly-once :
    (es rest : List Event) {e e' : Event}
    → Reports es e
    → ReportsOnce rest e'
    → ReportsOnce (quietly es ++ rest) e'
quietly-once es rest r o = let a = heard-quietly false es rest r in (a.0 ∙ o.0, a.1 ∙ o.1)

no_blocks_or_some :
    (bs : List BlockHeader)
    → (bs ≡ []) ⊎ ((b : BlockHeader) × (rest : List BlockHeader) × (bs ≡ b ∷ rest))
no_blocks_or_some [] = inl refl
no_blocks_or_some (b ∷ rest) = inr (b, rest, refl)

use_split-once :
    (c : Cursor) (n p size : ℕ) (h : Heap)
    → ReportsOnce
        (use_split_events c n p size)
        (debug realloc_id p (address (use_split c n h).0) 0 size (use_split c n h).1.blocks)
unfolding use_split use_split_events
use_split-once c n p size h =
    customs-once (splitblock_events c n)
      (debug realloc_id p (splitblock c n).1 0 size (splitblock c n).0 ∷ []) (refl, refl)

module _ (sbrk : Sbrk) where
  pub calloc-once :
      (nmemb size : ℕ) (h : Heap)
      → ReportsOnce (calloc_events sbrk nmemb size h) (
          debug calloc_id 0
            (address (calloc sbrk nmemb size h).0)
            nmemb
            size
            (calloc sbrk nmemb size h).1.blocks)
  unfolding calloc calloc_events
  calloc-once nmemb size h =
      let total = u64 (nmemb * size) in
      elim (Bool-cases (not (size == 0) && ltb ((2 ^ 64 - 1) / size) nmemb)) [
        | inl over ↦ rw over (refl, refl)
        | inr fits ↦ elim (Option-cases (malloc sbrk total h).0) [
          | inl e ↦
              rw (fits, e)
                (quietly-once (malloc_events sbrk total h) _ (malloc-Reports sbrk total h)
                  (refl, refl))
          | inr (p, e) ↦
              rw (fits, e)
                (quietly-once (malloc_events sbrk total h) _ (malloc-Reports sbrk total h)
                  (refl, refl))
        ]
      ]

  grow_last-once :
      (c : Cursor) (n p size : ℕ) (h : Heap)
      → ReportsOnce (grow_last_events sbrk c n p size h) (
          debug realloc_id p
            (address (grow_last sbrk c n h).0)
            0
            size
            (grow_last sbrk c n h).1.blocks)
  unfolding grow_last grow_last_events
  grow_last-once c n p size h =
      let needed = u64_sub n c.here.payload_capacity in
      let allocated = if ltb needed chunk_size then chunk_size else needed in
      elim (Option-cases (sbrk h.brk allocated)) [
        | inl e ↦ rw (e, grow_last, grow_last_events) (refl, refl)
        | inr ((_, b), e) ↦
            rw (e, grow_last, grow_last_events)
              (use_split-once
                (record c {
                  here = record (c.here) {
                    payload_capacity = u64 (c.here.payload_capacity + allocated);
                  };
                })
                n p size (record h { brk = b }))
      ]

  move_block-once :
      (c : Cursor) (p size : ℕ) (h : Heap)
      → ReportsOnce (move_block_events sbrk c p size h) (
          debug realloc_id p
            (address (move_block sbrk c p size h).0)
            0
            size
            (move_block sbrk c p size h).1.blocks)
  unfolding move_block move_block_events
  move_block-once c p size h = elim (Option-cases (malloc sbrk size h).0) [
    | inl e ↦
        rw (e, move_block)
          (quietly-once (malloc_events sbrk size h) _ (malloc-Reports sbrk size h) (refl, refl))
    | inr (q, e) ↦
        let h' = (malloc sbrk size h).1 in
        let copied : Heap = record h' {
          bytes = copy q (payload c.here) c.here.payload_capacity h'.bytes;
        } in
        rw (e, move_block)
          (quietly-once (malloc_events sbrk size h) _ (malloc-Reports sbrk size h) (
            quietly-once (free_events (some p) copied) _ (free-Reports (some p) copied)
              (refl, refl)))
  ]

  grow_into-once :
      (c : Cursor) (next : BlockHeader) (rest : List BlockHeader) (p size : ℕ) (h : Heap)
      → ReportsOnce (grow_into_events sbrk c next rest p size h) (
          debug realloc_id p
            (address (grow_into sbrk c next rest p size h).0)
            0
            size
            (grow_into sbrk c next rest p size h).1.blocks)
  unfolding grow_into grow_into_events
  grow_into-once c next rest p size h =
      let capacity = c.here.payload_capacity in
      let total = u64 (header_size + next.payload_capacity) in
      elim (Bool-cases (next.is_free && leb (round_up_16 size) (u64 (capacity + total)))) [
        | inl fits ↦ rw fits (
            use_split-once
              (cursor c.before (record (c.here) { payload_capacity = u64 (capacity + total) }) rest)
              (round_up_16 size) p size h)
        | inr small ↦ rw small (move_block-once c p size h)
      ]

  resize-once :
      (c : Cursor) (p size : ℕ) (h : Heap)
      → ReportsOnce (resize_events sbrk c p size h) (
          debug realloc_id p
            (address (resize sbrk c p size h).0)
            0
            size
            (resize sbrk c p size h).1.blocks)
  unfolding resize resize_events
  resize-once c p size h =
      let n = round_up_16 size in
      elim (Bool-cases (c.here.payload_capacity == n)) [
        | inl same ↦ rw same (refl, refl)
        | inr other ↦ elim (Bool-cases (ltb n c.here.payload_capacity)) [
          | inl less ↦ rw (other, less) (use_split-once c n p size h)
          | inr more ↦
              rw (other, more)
                (elim (no_blocks_or_some (c.after)) [
                  | inl e ↦ rw (e, resize, resize_events) (grow_last-once c n p size h)
                  | inr (next, rest, e) ↦
                      rw (e, resize, resize_events) (grow_into-once c next rest p size h)
                ])
        ]
      ]

  pub realloc-once :
      (p : Option ℕ) (size : ℕ) (h : Heap)
      → ReportsOnce (realloc_events sbrk p size h) (
          debug realloc_id
            (address p)
            (address (realloc sbrk p size h).0)
            0
            size
            (realloc sbrk p size h).1.blocks)
  unfolding realloc realloc_events
  realloc-once none size h =
      quietly-once (malloc_events sbrk size h) _ (malloc-Reports sbrk size h) (refl, refl)
  realloc-once (some p) size h = elim (Bool-cases (size == 0)) [
    | inl zero_size ↦
        rw zero_size
          (quietly-once (free_events (some p) h) _ (free-Reports (some p) h) (refl, refl))
    | inr real ↦ elim (Option-cases (findblock p h.blocks)) [
      | inl e ↦ rw (real, e, realloc) (customs-once (findblock_events p h.blocks) _ (refl, refl))
      | inr (c, e) ↦
          rw (real, e, realloc)
            (customs-once (findblock_events p h.blocks)
              (custom "REALLOC: block found\n" ∷ resize_events sbrk c p size h)
              (resize-once c p size h))
    ]
  ]
