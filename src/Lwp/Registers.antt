-- ===== src/Lwp/Registers.antt =====
-- Asgn2/lwp.h and Asgn2/fp.h: the registers that `swap_rfiles` saves, and the first state of the
-- floating point unit, by its 512 bytes.
use csc.Prelude.{ℕ, zero, suc, List, [], ◌∷◌, ◌++◌}

-- `struct registers`
pub record Registers : Type 0 where
  pub rax : ℕ
  pub rbx : ℕ
  pub rcx : ℕ
  pub rdx : ℕ
  pub rsi : ℕ
  pub rdi : ℕ
  pub rbp : ℕ
  pub rsp : ℕ
  pub r8 : ℕ
  pub r9 : ℕ
  pub r10 : ℕ
  pub r11 : ℕ
  pub r12 : ℕ
  pub r13 : ℕ
  pub r14 : ℕ
  pub r15 : ℕ
  pub fxsave : List ℕ

-- `n` bytes of the same value
unfoldable pub repeat : ℕ → ℕ → List ℕ
repeat zero b = []
repeat (suc n) b = b ∷ repeat n b

-- `FPU_INIT`
unfoldable pub fpu_init : List ℕ
unfolding repeat
fpu_init =
    0x7f ∷ 0x03 ∷ repeat 22 0x00
    ++ (0x80 ∷ 0x1f ∷ 0x00 ∷ 0x00 ∷ 0xff ∷ 0xff ∷ repeat 146 0x00)
    ++ repeat 16 0x25
    ++ repeat 24 0x00
    ++ (0xff ∷ 0x00 ∷ 0x00 ∷ 0x00 ∷ 0x00 ∷ 0xff ∷ repeat 290 0x00)
