-- ===== src/Lwp/Stacks.antt =====
-- Asgn2/lwp.h and Asgn2/lwp.c: the status word gives back the low byte of the status, and the first stack
-- lies in its memory and is aligned.
use csc.Prelude.{ℕ, ◌+◌, ◌-◌, ◌*◌, ◌/◌, ◌%◌, ◌^◌, ◌<◌, ◌≤◌, ◌≡◌, refl, true, false, arith}
use native.Mathlib.Nat.{lt-div-mul-add, div-mul-le_self, mod-eq_of_lt, mul-mod_left}
use csc.Lwp.Words.{
  mktermstat, lwpterminated, lwptermstat, lwp_term, lwp_live, round_up_page_size, round_down_16,
  first_stack,
}

-- A thread that has exited counts as terminated, with the low 8 bits of its status, whatever these are;
-- a live one does not.
pub mktermstat_lem :
    (status : ℕ)
    → (lwpterminated (mktermstat lwp_term status) ≡ true)
      × (lwptermstat (mktermstat lwp_term status) ≡ status % 256)
      × (mktermstat lwp_term status < 2 ^ 32)
      × (lwpterminated lwp_live ≡ false)
unfolding mktermstat lwpterminated lwptermstat
mktermstat_lem status = (ground arith, omega arith, omega arith, refl)

-- The first stack of a thread, in a memory of at least 48 bytes that ends below 2 ^ 64: the three words
-- lie in the memory, one below the other; the stack pointer and the base pointer start at the lowest;
-- and two words above it, where the stack pointer is when lwp_wrap begins, is 8 modulo 16.
pub first_stack_lem :
    (stack_base stack_size : ℕ)
    → 48 ≤ stack_size
    → stack_base + stack_size < 2 ^ 64
    → let s = first_stack stack_base stack_size in
      (stack_base ≤ s.saved_bp_pointer)
      × (s.wrapper_return_pointer ≡ s.saved_bp_pointer + 8)
      × (s.lwp_exit_return_pointer ≡ s.wrapper_return_pointer + 8)
      × (s.lwp_exit_return_pointer + 8 ≤ stack_base + stack_size)
      × (s.rsp ≡ s.saved_bp_pointer)
      × (s.rbp ≡ s.saved_bp_pointer)
      × ((s.rsp + 16) % 16 ≡ 8)
unfolding first_stack round_down_16
first_stack_lem stack_base stack_size big small =
    (omega arith, omega arith, omega arith, omega arith, refl, refl, omega arith)

-- The size of a stack is rounded up to a multiple of the page size, by less than a page, when the sum of
-- the two fits in 64 bits.
pub round_up_page_size_lem :
    (size page_size : ℕ)
    → 0 < page_size
    → size + page_size < 2 ^ 64
    → (size ≤ round_up_page_size size page_size)
      × (round_up_page_size size page_size < size + page_size)
      × (round_up_page_size size page_size % page_size ≡ 0)
unfolding round_up_page_size
round_up_page_size_lem size page_size pos small =
    let x : ℕ = size + page_size - 1 in
    let word : ((size + page_size) % 2 ^ 64 + 2 ^ 64 - 1) % 2 ^ 64 ≡ x =
      omega (arith, pos, small) in
    let above = lt-div-mul-add {a = x} {b = page_size} pos in
    let below = div-mul-le_self x page_size in
    let fits : (x / page_size * page_size) % 2 ^ 64 ≡ x / page_size * page_size =
      mod-eq_of_lt (omega (arith, below, small)) in
    rw (word, fits)
      (omega (arith, above), omega (arith, below, pos), mul-mod_left (x / page_size) page_size)
