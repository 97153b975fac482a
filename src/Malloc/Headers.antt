-- ===== src/Malloc/Headers.antt =====
-- Asgn1/malloc.c, struct BlockHeader: the headers of the list as they lie in memory.
use csc.Prelude.{
  ℕ, ◌+◌, ◌-◌, ◌/◌, ◌%◌, ◌^◌, ◌&&◌, ◌||◌, ltb, leb, ◌==◌, List, [], ◌∷◌, if◌then◌else◌, ◌≡◌, refl,
  ap, ◌∙◌, Bool-cases, inl, inr,
}
use csc.Malloc.Blocks.{BlockHeader}

-- The byte at the offset `j` of a header: the capacity and the link are words of 8 bytes, the low byte
-- first, and the flag is a byte between them.
unfoldable pub header_byte : BlockHeader → (next_block_header j : ℕ) → ℕ
header_byte b next_block_header j =
    if ltb j 8
    then b.payload_capacity / 256 ^ j % 256
    else if j == 8
    then if b.is_free then 1 else 0
    else next_block_header / 256 ^ (j - 16) % 256

-- The fields of a header are written; the padding behind the flag is left.
unfoldable pub store_header : BlockHeader → (next_block_header : ℕ) → (ℕ → ℕ) → ℕ → ℕ
store_header b next_block_header m a =
    if leb b.addr a && (ltb a (b.addr + 9) || (leb (b.addr + 16) a && ltb a (b.addr + 24)))
    then header_byte b next_block_header (a - b.addr)
    else m a

-- The address of the first header of a list, or NULL.
abbrev pub next_address : List BlockHeader → ℕ
next_address [] = 0
next_address (b ∷ bs) = b.addr

-- All headers of the list are as the list says. A header that a call does not change is written as it
-- is there, as the memory of a heap agrees with its list.
unfoldable pub store_headers : List BlockHeader → (ℕ → ℕ) → ℕ → ℕ
store_headers [] m = m
store_headers (b ∷ bs) m = store_header b (next_address bs) (store_headers bs m)

-- What is stored at an address depends on what was there and on the headers alone.
pub store_headers-cong :
    (bs : List BlockHeader) (m m' : ℕ → ℕ) (a : ℕ)
    → m a ≡ m' a
    → store_headers bs m a ≡ store_headers bs m' a
unfolding store_headers store_header
store_headers-cong [] m m' a e = e
store_headers-cong (b ∷ bs) m m' a e =
    ap
      (λ x.
        if leb b.addr a && (ltb a (b.addr + 9) || (leb (b.addr + 16) a && ltb a (b.addr + 24)))
        then header_byte b (next_address bs) (a - b.addr)
        else x)
      (store_headers-cong bs m m' a e)

-- To store the headers again changes nothing.
pub store_headers-twice :
    (bs : List BlockHeader) (m : ℕ → ℕ) (a : ℕ)
    → store_headers bs (store_headers bs m) a ≡ store_headers bs m a
unfolding store_headers store_header
store_headers-twice [] m a = refl
store_headers-twice (b ∷ bs) m a =
    elim (Bool-cases
      (leb b.addr a && (ltb a (b.addr + 9) || (leb (b.addr + 16) a && ltb a (b.addr + 24))))) [
        | inl hit ↦ rw hit refl
        | inr miss ↦ rw miss (
            store_headers-cong bs (store_headers (b ∷ bs) m) (store_headers bs m) a (rw miss refl)
            ∙ store_headers-twice bs m a)
      ]
