-- ===== src/Debug/Events.antt =====
-- Asgn1/malloc.c: the messages of malloc, free, calloc and realloc, branch by branch, with the assignments
-- of `suppress_debug` around the calls that they make of each other.
use Prim.Native.String.{String}
use csc.Prelude.{
  ℕ, ◌+◌, ◌-◌, ◌*◌, ◌/◌, ◌^◌, Bool, true, false, ◌&&◌, not, Option, none, some, List, [], ◌∷◌, ◌++◌,
  ltb, leb, ◌==◌, if◌then◌else◌,
}
use csc.Malloc.Blocks.{
  BlockHeader, Cursor, block, cursor, whole, u64, u64_sub, round_up_16, header_size,
  minimum_payload_size, chunk_size, leftover_block, splitblock, findblock, find_fit,
  merge_free_nodes,
}
use csc.Malloc.Calls.{Sbrk, Heap, sbrk_pointer, malloc}
use csc.Debug.Output.{Output, Message, print_debug_msg, print_custom_debug_msg}

-- NULL is 0.
abbrev pub address : Option ℕ → ℕ
address none = 0
address (some p) = p

-- A statement that prints, with its arguments and the blocks of the heap, or one that assigns
-- `suppress_debug`.
pub data Event : Type 0 where
  custom : String → Event
  debug : (id ptr new_ptr nmemb size : ℕ) → List BlockHeader → Event
  suppress : Bool → Event

-- The statements in order; `text` is what `snprintf` makes of a custom message.
unfoldable pub execute :
    (env : Bool) (format : Message → Option (List ℕ)) (text : String → Option (List ℕ))
    → List Event
    → Output
    → Output
execute env format text [] o = o
execute env format text (custom s ∷ es) o =
    execute env format text es (print_custom_debug_msg env (text s) o)
execute env format text (debug id ptr new_ptr nmemb size blocks ∷ es) o =
    execute env format text es (print_debug_msg env format id ptr new_ptr nmemb size blocks o)
execute env format text (suppress b ∷ es) o =
    execute env format text es (record o { suppress_debug = b })

abbrev pub malloc_id : ℕ
malloc_id = 1

abbrev pub free_id : ℕ
free_id = 2

abbrev pub calloc_id : ℕ
calloc_id = 3

abbrev pub realloc_id : ℕ
realloc_id = 4

-- The `while` of `merge_free_nodes`; the flag tells whether there is a `first_free`.
unfoldable pub merge_loop_events : Bool → List BlockHeader → List String
merge_loop_events first_free [] = []
merge_loop_events false (b ∷ bs) = merge_loop_events b.is_free bs
merge_loop_events true (b ∷ bs) = elim b.is_free [
  | true ↦ "merged free nodes\n" ∷ merge_loop_events true bs
  | false ↦ merge_loop_events false bs
]

abbrev pub merge_events : List BlockHeader → List String
merge_events bs = "attempting to merge free nodes\n" ∷ merge_loop_events false bs

unfoldable pub splitblock_events : Cursor → ℕ → List String
splitblock_events c requested =
    "attempting to split block\n"
    ∷ (if leb (header_size + minimum_payload_size) (u64_sub c.here.payload_capacity requested)
        then "successfully split block\n"
          ∷ merge_events (
              c.before
              ++ record (c.here) { payload_capacity = requested }
                ∷ leftover_block c.here requested
                ∷ c.after)
        else [])

unfoldable pub findblock_events : ℕ → List BlockHeader → List String
findblock_events p bs =
    "finding block\n"
    ∷ (if p == 0 then "failed to find block because ptr is null\n" ∷ [] else elim (findblock p bs) [
      | some c ↦ "successfully found block\n" ∷ []
      | none ↦ "failed to find block\n" ∷ []
    ])

-- Messages of their own.
abbrev pub customs : List String → List Event
customs [] = []
customs (s ∷ ss) = custom s ∷ customs ss

-- A call with `suppress_debug` set around it.
abbrev pub quietly : List Event → List Event
quietly es = suppress true ∷ (es ++ suppress false ∷ [])

-- `malloc` once it has a block: the split, and the two messages at the end.
unfoldable pub use_block_events : Cursor → (n size : ℕ) → List Event
use_block_events c n size =
    let used : Cursor = record c { here = record (c.here) { is_free = false } } in
    customs (splitblock_events used n)
    ++ debug malloc_id 0 (splitblock used n).1 0 size (splitblock used n).0
      ∷ custom "MALLOC: malloc succeeded\n"
      ∷ []

unfoldable pub free_events : Option ℕ → Heap → List Event
free_events none h = custom "FREE: ptr is NULL\n" ∷ debug free_id 0 0 0 0 h.blocks ∷ []
free_events (some p) h = customs (findblock_events p h.blocks) ++ elim (findblock p h.blocks) [
  | none ↦ custom "FREE: block not found\n" ∷ debug free_id p 0 0 0 h.blocks ∷ []
  | some c ↦
      if c.here.is_free
      then custom "FREE: double free\n" ∷ debug free_id p 0 0 0 h.blocks ∷ []
      else let freed = whole (record c { here = record (c.here) { is_free = true } }) in
        customs (merge_events freed)
        ++ custom "FREE: free succeeded\n" ∷ debug free_id p 0 0 0 (merge_free_nodes freed) ∷ []
]

module _ (sbrk : Sbrk) where
  unfoldable pub grow_events : (n new_size size : ℕ) → Heap → List Event
  grow_events n new_size size h = elim (sbrk h.brk new_size) [
    | none ↦ debug malloc_id 0 0 0 size h.blocks ∷ custom "MALLOC: block sbrk failed\n" ∷ []
    | some (p, b) ↦
        custom "MALLOC: sbrk succeeded\n"
        ∷ use_block_events (cursor h.blocks (block p (u64_sub new_size header_size) true) []) n size
  ]

  unfoldable pub extend_events : (n size : ℕ) → Heap → List Event
  extend_events n size h =
      let used = u64 (header_size + n) in
      let new_size = if ltb used chunk_size then chunk_size else used in
      let curr_break = sbrk_pointer (sbrk h.brk 0) in
      let padding = u64_sub (round_up_16 curr_break) curr_break in
      elim (sbrk h.brk padding) [
        | none ↦ debug malloc_id 0 0 0 size h.blocks ∷ custom "MALLOC: padding sbrk failed\n" ∷ []
        | some (_, b) ↦ grow_events n new_size size (record h { brk = b })
      ]

  unfoldable pub malloc_events : ℕ → Heap → List Event
  malloc_events size h =
      if size == 0
      then debug malloc_id 0 0 0 size h.blocks ∷ custom "MALLOC: size is 0, returning\n" ∷ []
      else elim (find_fit (round_up_16 size) h.blocks) [
        | some c ↦
            custom "MALLOC: found block big enough\n" ∷ use_block_events c (round_up_16 size) size
        | none ↦
            custom "MALLOC: no block big enough, calling sbrk\n"
            ∷ extend_events (round_up_16 size) size h
      ]

  unfoldable pub calloc_events : ℕ → ℕ → Heap → List Event
  calloc_events nmemb size h =
      if not (size == 0) && ltb ((2 ^ 64 - 1) / size) nmemb
      then custom "CALLOC: overflow\n" ∷ debug calloc_id 0 0 nmemb size h.blocks ∷ []
      else let (r, h') = malloc sbrk (u64 (nmemb * size)) h in
        quietly (malloc_events (u64 (nmemb * size)) h)
        ++ custom
            (elim r [ none ↦ "CALLOC: malloc failed\n" | some p ↦ "CALLOC: calloc succeeded\n" ])
          ∷ debug calloc_id 0 (address r) nmemb size h'.blocks
          ∷ []
