-- ===== src/Lwp/Words.antt =====
-- Asgn2/lwp.h and Asgn2/lwp.c: the status word of a thread, the sizes of stacks, and the first stack of a
-- thread. Words are numbers modulo a power of 2; the status has 32 bits, the others 64.
use csc.Prelude.{ℕ, ◌+◌, ◌-◌, ◌*◌, ◌/◌, ◌%◌, ◌^◌, Bool, ◌==◌, Option, none, some}

-- `1 << TERMOFFSET`
abbrev pub term_base : ℕ
term_base = 2 ^ 8

abbrev pub lwp_term : ℕ
lwp_term = 1

abbrev pub lwp_live : ℕ
lwp_live = 0

-- The status of `lwp_exit` is an int, given by its 32-bit word.
unfoldable pub mktermstat : ℕ → ℕ → ℕ
mktermstat a b = (a * term_base) % 2 ^ 32 + b % term_base

unfoldable pub lwpterminated : ℕ → Bool
lwpterminated s = (s / term_base) % 2 == lwp_term

unfoldable pub lwptermstat : ℕ → ℕ
lwptermstat s = s % term_base

-- `tid_t` is an unsigned long: the id that is given, and the next one.
unfoldable pub assign_tid : ℕ → ℕ × ℕ
assign_tid curr_tid = (curr_tid, (curr_tid + 1) % 2 ^ 64)

unfoldable pub round_up_page_size : ℕ → ℕ → ℕ
round_up_page_size size page_size =
    (((size + page_size) % 2 ^ 64 + 2 ^ 64 - 1) % 2 ^ 64 / page_size * page_size) % 2 ^ 64

abbrev pub stack_alignment : ℕ
stack_alignment = 16

unfoldable pub round_down_16 : ℕ → ℕ
round_down_16 size = size - size % stack_alignment

abbrev pub default_stack_size : ℕ
default_stack_size = 8 * 1024 * 1024

-- `limit` is what `getrlimit` answers, with no answer for a failure and for RLIM_INFINITY;
-- `page` what `sysconf` answers, with no answer for a negative one.
unfoldable pub get_stack_size : Option ℕ → Option ℕ → ℕ
get_stack_size limit page =
    let raw_stack_size : ℕ = elim limit [ none ↦ default_stack_size | some n ↦ n ] in
    elim page [ none ↦ 0 | some page_size ↦ round_up_page_size raw_stack_size page_size ]

-- The addresses of the three words that are written on a new stack, and the registers that point into it.
pub record FirstStack : Type 0 where
  pub lwp_exit_return_pointer : ℕ
  pub wrapper_return_pointer : ℕ
  pub saved_bp_pointer : ℕ
  pub rsp : ℕ
  pub rbp : ℕ

-- Words have 8 bytes.
unfoldable pub first_stack : ℕ → ℕ → FirstStack
first_stack stack_base stack_size =
    let aligned_stack_top = round_down_16 ((stack_base + stack_size) % 2 ^ 64) in
    record {
      lwp_exit_return_pointer = aligned_stack_top - 8;
      wrapper_return_pointer = aligned_stack_top - 16;
      saved_bp_pointer = aligned_stack_top - 24;
      rsp = aligned_stack_top - 24;
      rbp = aligned_stack_top - 24;
    }
