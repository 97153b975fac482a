-- ===== src/Malloc/Calls.antt =====
-- Asgn1/malloc.c: malloc, free, calloc and realloc. NULL is `none`. The debug output is in `Debug`.
use csc.Prelude.{
  ℕ, ◌+◌, ◌-◌, ◌*◌, ◌/◌, ◌^◌, Bool, true, false, ◌&&◌, not, Option, none, some, List, [], ◌∷◌, ltb,
  leb, ◌==◌, if◌then◌else◌,
}
use csc.Malloc.Headers.{store_headers}
use csc.Malloc.Blocks.{
  BlockHeader, Cursor, block, cursor, whole, payload, u64, u64_sub, round_up_16, header_size,
  chunk_size, splitblock, findblock, find_fit, merge_free_nodes,
}

-- `sbrk(2)`: from the break and the increment (a 64-bit pattern) to the pointer that it returns
-- and the new break, or nothing when it returns -1.
abbrev pub Sbrk : Type 0
Sbrk = ℕ → ℕ → Option (ℕ × ℕ)

-- `heap_head`, the program break, the bytes of memory, headers included, and whether `errno` has been set
-- to ENOMEM.
pub record Heap : Type 0 where
  pub blocks : List BlockHeader
  pub brk : ℕ
  pub bytes : ℕ → ℕ
  pub enomem : Bool

abbrev pub out_of_memory : Heap → Option ℕ × Heap
out_of_memory h = (none, record h { enomem = true })

-- The pointer that a call of `sbrk` returns; `(void *) -1` on failure.
abbrev pub sbrk_pointer : Option (ℕ × ℕ) → ℕ
sbrk_pointer none = 2 ^ 64 - 1
sbrk_pointer (some (p, _)) = p

-- `splitblock` on a block of the heap, whose payload pointer is returned.
unfoldable pub use_split : Cursor → ℕ → Heap → Option ℕ × Heap
use_split c n h = (
  some (splitblock c n).1,
  record h { blocks = (splitblock c n).0; bytes = store_headers (splitblock c n).0 h.bytes },
)

-- `curr_block->is_free = false`, then the split
unfoldable pub use_block : Cursor → ℕ → Heap → Option ℕ × Heap
use_block c n h = use_split (record c { here = record (c.here) { is_free = false } }) n h

unfoldable pub free : Option ℕ → Heap → Heap
free none h = h
free (some p) h = elim (findblock p h.blocks) [
  | none ↦ h
  | some c ↦ if c.here.is_free then h else record h {
    blocks = merge_free_nodes (whole (record c { here = record (c.here) { is_free = true } }));
    bytes =
        store_headers
          (merge_free_nodes (whole (record c { here = record (c.here) { is_free = true } })))
          h.bytes;
  }
]

-- `memset(p, 0, n)`
abbrev pub clear : ℕ → ℕ → (ℕ → ℕ) → ℕ → ℕ
clear p n m a = if leb p a && ltb a (p + n) then 0 else m a

-- `memcpy(d, s, n)`
abbrev pub copy : ℕ → ℕ → ℕ → (ℕ → ℕ) → ℕ → ℕ
copy d s n m a = if leb d a && ltb a (d + n) then m (s + (a - d)) else m a

module _ (sbrk : Sbrk) where
  -- `malloc` after the padding: ask for a block, link it at the end of the list, and use it.
  unfoldable pub grow : ℕ → ℕ → Heap → Option ℕ × Heap
  grow n new_size h = elim (sbrk h.brk new_size) [
    | none ↦ out_of_memory h
    | some (p, b) ↦
        use_block (cursor h.blocks (block p (u64_sub new_size header_size) true) []) n
          (record h { brk = b })
  ]

  -- `malloc` when no block fits
  unfoldable pub extend : ℕ → Heap → Option ℕ × Heap
  extend n h =
      let used = u64 (header_size + n) in
      let new_size = if ltb used chunk_size then chunk_size else used in
      let curr_break = sbrk_pointer (sbrk h.brk 0) in
      let padding = u64_sub (round_up_16 curr_break) curr_break in
      elim (sbrk h.brk padding) [
        | none ↦ out_of_memory h
        | some (_, b) ↦ grow n new_size (record h { brk = b })
      ]

  unfoldable pub malloc : ℕ → Heap → Option ℕ × Heap
  malloc size h = if size == 0 then (none, h) else elim (find_fit (round_up_16 size) h.blocks) [
    | some c ↦ use_block c (round_up_16 size) h
    | none ↦ extend (round_up_16 size) h
  ]

  unfoldable pub calloc : ℕ → ℕ → Heap → Option ℕ × Heap
  calloc nmemb size h =
      if not (size == 0) && ltb ((2 ^ 64 - 1) / size) nmemb
      then out_of_memory h
      else let (r, h') = malloc (u64 (nmemb * size)) h in
        elim r [
          | none ↦ (none, h')
          | some p ↦ (some p, record h' { bytes = clear p (u64 (nmemb * size)) h'.bytes })
        ]

  -- `realloc` of the last block: the break moves, and the block with it.
  unfoldable pub grow_last : Cursor → ℕ → Heap → Option ℕ × Heap
  grow_last c n h =
      let needed = u64_sub n c.here.payload_capacity in
      let allocated = if ltb needed chunk_size then chunk_size else needed in
      elim (sbrk h.brk allocated) [
        | none ↦ out_of_memory h
        | some (_, b) ↦
            use_split
              (record c {
                here = record (c.here) {
                  payload_capacity = u64 (c.here.payload_capacity + allocated);
                };
              })
              n (record h { brk = b })
      ]

  -- `realloc` by a new block: allocate, copy the old payload, free the old block.
  unfoldable pub move_block : Cursor → ℕ → ℕ → Heap → Option ℕ × Heap
  move_block c p size h =
      let (r, h') = malloc size h in
      elim r [
        | none ↦ (none, h')
        | some q ↦ (
          some q,
          free (some p)
              (record h' { bytes = copy q (payload c.here) c.here.payload_capacity h'.bytes }),
        )
      ]

  -- `realloc` of a block with a next one: take that in if it is free and large enough, else move.
  unfoldable pub grow_into :
      Cursor → BlockHeader → List BlockHeader → ℕ → ℕ → Heap → Option ℕ × Heap
  grow_into c next rest p size h =
      let capacity = c.here.payload_capacity in
      let total = u64 (header_size + next.payload_capacity) in
      if next.is_free && leb (round_up_16 size) (u64 (capacity + total))
      then use_split
          (cursor c.before (record (c.here) { payload_capacity = u64 (capacity + total) }) rest)
          (round_up_16 size) h
      else move_block c p size h

  -- `realloc` once the block is found
  unfoldable pub resize : Cursor → ℕ → ℕ → Heap → Option ℕ × Heap
  resize c p size h =
      let n = round_up_16 size in
      if c.here.payload_capacity == n
      then (some (payload c.here), h)
      else if ltb n c.here.payload_capacity
      then use_split c n h
      else elim (c.after) [ [] ↦ grow_last c n h | next ∷ rest ↦ grow_into c next rest p size h ]

  unfoldable pub realloc : Option ℕ → ℕ → Heap → Option ℕ × Heap
  realloc none size h = malloc size h
  realloc (some p) size h =
      if size == 0
      then (none, free (some p) h)
      else elim (findblock p h.blocks) [ none ↦ (none, h) | some c ↦ resize c p size h ]
