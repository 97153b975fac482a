-- ===== src/Debug/ReallocEvents.antt =====
-- Asgn1/malloc.c: the messages of realloc, branch by branch.
use csc.Prelude.{
  ℕ, ◌+◌, ◌&&◌, Option, none, some, List, [], ◌∷◌, ◌++◌, ltb, leb, ◌==◌, if◌then◌else◌,
}
use csc.Malloc.Blocks.{
  BlockHeader, Cursor, cursor, payload, u64, u64_sub, round_up_16, header_size, chunk_size,
  splitblock, findblock,
}
use csc.Malloc.Calls.{Sbrk, Heap, copy, malloc, free}
use csc.Debug.Events.{
  Event, custom, debug, customs, quietly, address, realloc_id, splitblock_events, findblock_events,
  malloc_events, free_events,
}

-- `realloc` with a block that is cut: the split, and the message of the call.
unfoldable pub use_split_events : Cursor → (n p size : ℕ) → List Event
use_split_events c n p size =
    customs (splitblock_events c n)
    ++ debug realloc_id p (splitblock c n).1 0 size (splitblock c n).0 ∷ []

module _ (sbrk : Sbrk) where
  unfoldable pub grow_last_events : Cursor → (n p size : ℕ) → Heap → List Event
  grow_last_events c n p size h =
      let needed = u64_sub n c.here.payload_capacity in
      let allocated = if ltb needed chunk_size then chunk_size else needed in
      custom "REALLOC: at the end of heap, calling sbrk\n" ∷ elim (sbrk h.brk allocated) [
        | none ↦ custom "REALLOC: sbrk failed\n" ∷ debug realloc_id p 0 0 size h.blocks ∷ []
        | some (_, b) ↦
            custom "REALLOC: sbrk succeeded\n"
            ∷ use_split_events
                (record c {
                  here = record (c.here) {
                    payload_capacity = u64 (c.here.payload_capacity + allocated);
                  };
                })
                n p size
      ]

  unfoldable pub move_block_events : Cursor → (p size : ℕ) → Heap → List Event
  move_block_events c p size h =
      let (r, h') = malloc sbrk size h in
      custom "REALLOC: copying, calling malloc\n"
      ∷ (quietly (malloc_events sbrk size h) ++ elim r [
        | none ↦ custom "REALLOC: malloc failed\n" ∷ debug realloc_id p 0 0 size h'.blocks ∷ []
        | some q ↦
            let copied : Heap = record h' {
              bytes = copy q (payload c.here) c.here.payload_capacity h'.bytes;
            } in
            custom "REALLOC: copied bytes\n"
            ∷ (quietly (free_events (some p) copied)
                ++ debug realloc_id p q 0 size (free (some p) copied).blocks ∷ [])
      ])

  unfoldable pub grow_into_events :
      Cursor → BlockHeader → List BlockHeader → (p size : ℕ) → Heap → List Event
  grow_into_events c next rest p size h =
      let capacity = c.here.payload_capacity in
      let total = u64 (header_size + next.payload_capacity) in
      custom "REALLOC: attempting to expand in place\n"
      ∷ (if next.is_free && leb (round_up_16 size) (u64 (capacity + total))
          then custom "REALLOC: expanding in place\n"
            ∷ use_split_events
                (cursor c.before (record (c.here) { payload_capacity = u64 (capacity + total) })
                  rest)
                (round_up_16 size) p size
          else move_block_events c p size h)

  unfoldable pub resize_events : Cursor → (p size : ℕ) → Heap → List Event
  resize_events c p size h =
      let n = round_up_16 size in
      if c.here.payload_capacity == n
      then custom "REALLOC: size didn't change, returning payload ptr\n"
        ∷ debug realloc_id p (payload c.here) 0 size h.blocks
        ∷ []
      else if ltb n c.here.payload_capacity
      then custom "REALLOC: user requested smaller size\n" ∷ use_split_events c n p size
      else elim (c.after) [
        | [] ↦ grow_last_events c n p size h
        | next ∷ rest ↦ grow_into_events c next rest p size h
      ]

  unfoldable pub realloc_events : Option ℕ → ℕ → Heap → List Event
  realloc_events none size h =
      let (r, h') = malloc sbrk size h in
      quietly (malloc_events sbrk size h)
      ++ custom "REALLOC: ptr is NULL, calling malloc\n"
        ∷ debug realloc_id 0 (address r) 0 size h'.blocks
        ∷ []
  realloc_events (some p) size h =
      if size == 0
      then quietly (free_events (some p) h)
        ++ custom "REALLOC: size is 0, calling free\n"
          ∷ debug realloc_id p 0 0 size (free (some p) h).blocks
          ∷ []
      else customs (findblock_events p h.blocks) ++ elim (findblock p h.blocks) [
        | none ↦ custom "REALLOC: block not found\n" ∷ debug realloc_id p 0 0 size h.blocks ∷ []
        | some c ↦ custom "REALLOC: block found\n" ∷ resize_events c p size h
      ]
