-- ===== src/Malloc/Blocks.antt =====
-- Asgn1/malloc.c: block headers, the rounding of sizes, and the walks over the block list
-- (`splitblock`, `findblock`, `merge_free_nodes`, the search of `malloc`).
use csc.Prelude.{
  ℕ, ◌+◌, ◌-◌, ◌*◌, ◌/◌, ◌%◌, ◌^◌, Bool, true, false, ◌&&◌, Option, none, some, List, [], ◌∷◌, ◌++◌,
  ltb, leb, if◌then◌else◌,
}

-- `size_t` arithmetic wraps at 64 bits.
abbrev pub u64 : ℕ → ℕ
u64 n = n % 2 ^ 64

-- `a - b` on `size_t`
abbrev pub u64_sub : ℕ → ℕ → ℕ
u64_sub a b = (a + 2 ^ 64 - b) % 2 ^ 64

abbrev pub chunk_size : ℕ
chunk_size = 64 * 1024

abbrev pub minimum_payload_size : ℕ
minimum_payload_size = 16

abbrev pub round_up_16 : ℕ → ℕ
round_up_16 size = u64 (size + 15) / 16 * 16

-- A size, a flag padded to a word, and a pointer.
abbrev pub sizeof_header : ℕ
sizeof_header = 24

abbrev pub header_size : ℕ
header_size = round_up_16 sizeof_header

-- `struct BlockHeader` at its address. The links `next_block_header` are the order of the list.
pub record BlockHeader : Type 0 where
  pub addr : ℕ
  pub payload_capacity : ℕ
  pub is_free : Bool

abbrev pub block : ℕ → ℕ → Bool → BlockHeader
block a n f = record { addr = a; payload_capacity = n; is_free = f }

abbrev pub payload : BlockHeader → ℕ
payload b = b.addr + header_size

-- A pointer to a header of the list: the headers before it, itself, and those after it.
pub record Cursor : Type 0 where
  pub before : List BlockHeader
  pub here : BlockHeader
  pub after : List BlockHeader

abbrev pub cursor : List BlockHeader → BlockHeader → List BlockHeader → Cursor
cursor xs b ys = record { before = xs; here = b; after = ys }

abbrev pub whole : Cursor → List BlockHeader
whole c = c.before ++ c.here ∷ c.after

-- The walk steps over one more header.
abbrev pub step_over : BlockHeader → Option Cursor → Option Cursor
step_over b none = none
step_over b (some c) = some (record c { before = b ∷ c.before })

-- `first_free` takes in the block after it, header and payload.
abbrev pub absorb : BlockHeader → BlockHeader → BlockHeader
absorb f b = record f {
  payload_capacity = u64 (f.payload_capacity + (header_size + b.payload_capacity));
}

-- The `while` of `merge_free_nodes`; the first argument is `first_free`.
unfoldable pub merge_loop : Option BlockHeader → List BlockHeader → List BlockHeader
merge_loop none [] = []
merge_loop (some f) [] = f ∷ []
merge_loop none (b ∷ bs) = elim b.is_free [
  | true ↦ merge_loop (some b) bs
  | false ↦ b ∷ merge_loop none bs
]
merge_loop (some f) (b ∷ bs) = elim b.is_free [
  | true ↦ merge_loop (some (absorb f b)) bs
  | false ↦ f ∷ b ∷ merge_loop none bs
]

unfoldable pub merge_free_nodes : List BlockHeader → List BlockHeader
merge_free_nodes bs = merge_loop none bs

-- The leftover of a block cut after `n` bytes of its payload.
abbrev pub leftover_block : BlockHeader → ℕ → BlockHeader
leftover_block b n =
    block (b.addr + header_size + n) (u64_sub (u64_sub b.payload_capacity n) header_size) true

-- The list after the call, and the payload pointer.
unfoldable pub splitblock : Cursor → ℕ → List BlockHeader × ℕ
splitblock c requested =
    if leb (header_size + minimum_payload_size) (u64_sub c.here.payload_capacity requested)
    then (
      merge_free_nodes (
          c.before
          ++ record (c.here) { payload_capacity = requested }
            ∷ leftover_block c.here requested
            ∷ c.after),
      payload c.here,
    )
    else (whole c, payload c.here)

unfoldable pub findblock : ℕ → List BlockHeader → Option Cursor
findblock p [] = none
findblock p (b ∷ bs) =
    let rest = findblock p bs in
    if leb (payload b) p && ltb p (payload b + b.payload_capacity)
    then some (cursor [] b bs)
    else if ltb p (payload b)
    then none
    else step_over b rest

-- The search of `malloc` for a free block that is big enough.
unfoldable pub find_fit : ℕ → List BlockHeader → Option Cursor
find_fit n [] = none
find_fit n (b ∷ bs) =
    let rest = find_fit n bs in
    if b.is_free && leb n b.payload_capacity then some (cursor [] b bs) else step_over b rest
