-- ===== src/Secret/Driver.antt =====
-- Asgn4/secret.c and secret.h: the state of the driver and the handlers of its requests. What the
-- kernel answers (credentials, copies) is an argument; debug output is left out.
use csc.Prelude.{
  ℕ, ◌+◌, ◌-◌, ◌%◌, ◌^◌, Bool, true, false, not, ◌&&◌, ◌||◌, ltb, leb, ◌==◌, if◌then◌else◌,
}

abbrev pub secret_size : ℕ
secret_size = 8192

-- `struct secret_state`
pub record SecretState : Type 0 where
  pub open_counter : ℕ
  pub secret_owner : ℕ
  pub has_owner : Bool
  pub secret_buf : ℕ → ℕ
  pub secret_len : ℕ
  pub read_offset : ℕ
  pub read_fd_opened : Bool

-- What a handler returns; `failed` is a status of the kernel other than OK.
pub data Status : Type 0 where
  ok eacces enospc enotty einval : Status
  failed : ℕ → Status

-- The answer of a kernel call: a value with OK, or another status.
pub data Answer {ℓ} (A : Type ℓ) : Type ℓ where
  answer : A → Answer A
  refuse : ℕ → Answer A

-- The bits `R_BIT` and `W_BIT` of the mode of an open.
pub record Mode : Type 0 where
  pub r_bit : Bool
  pub w_bit : Bool

unfoldable pub reset_secret_state : SecretState
reset_secret_state = record {
  open_counter = 0;
  secret_owner = 0;
  has_owner = false;
  secret_buf = λ _. 0;
  secret_len = 0;
  read_offset = 0;
  read_fd_opened = false;
}

-- The end of `secret_open`, once the caller may open.
unfoldable pub opened : Mode → SecretState → Status × SecretState
opened m s = (
  ok,
  record s {
    open_counter = s.open_counter + 1;
    read_fd_opened = if m.r_bit then true else s.read_fd_opened;
  },
)

-- `caller` is what `getnucred` answers.
unfoldable pub secret_open : Mode → Answer ℕ → SecretState → Status × SecretState
secret_open m caller s =
    if m.r_bit && m.w_bit
    then (eacces, s)
    else if not (m.r_bit || m.w_bit)
    then (eacces, s)
    else elim caller [
      | refuse e ↦ (failed e, s)
      | answer uid ↦
          if not s.has_owner
          then opened m (record s { has_owner = true; secret_owner = uid })
          else if m.w_bit
          then (enospc, s)
          else if m.r_bit && not (uid == s.secret_owner)
          then (eacces, s)
          else opened m s
    ]

-- The end of `secret_close`, after the count.
unfoldable pub closed : SecretState → Status × SecretState
closed s = if (s.open_counter == 0) && s.read_fd_opened then (ok, reset_secret_state) else (ok, s)

unfoldable pub secret_close : SecretState → Status × SecretState
secret_close s =
    closed (if ltb 0 s.open_counter then record s { open_counter = s.open_counter - 1 } else s)

-- `is_ssgrant` is the test of the request; `grantee` what `sys_safecopyfrom` answers.
unfoldable pub secret_ioctl : Bool → Answer ℕ → SecretState → Status × SecretState
secret_ioctl is_ssgrant grantee s = if not is_ssgrant then (enotty, s) else elim grantee [
  | refuse e ↦ (failed e, s)
  | answer uid ↦ (ok, record s { secret_owner = uid })
]

-- `struct device`: base and size, low and high words
pub record Device : Type 0 where
  pub base_lo : ℕ
  pub base_hi : ℕ
  pub size_lo : ℕ
  pub size_hi : ℕ

abbrev pub secret_prepare : Device
secret_prepare = record { base_lo = 0; base_hi = 0; size_lo = secret_size; size_hi = 0 }

pub record Partition : Type 0 where
  pub cylinders : ℕ
  pub heads : ℕ
  pub sectors : ℕ

abbrev pub secret_geometry : Partition
secret_geometry = record { cylinders = 0; heads = 0; sectors = 0 }

-- The opcodes of `secret_transfer`.
pub data Opcode : Type 0 where
  dev_gather_s dev_scatter_s other_opcode : Opcode

-- What a transfer leaves: the status, the size left in the request, the bytes given to the caller
-- (how many, and each), and the state.
pub record Transfer : Type 0 where
  pub status : Status
  pub iov_size : ℕ
  pub given : ℕ
  pub sent : ℕ → ℕ
  pub state : SecretState

abbrev pub stop : Status → ℕ → SecretState → Transfer
stop e n s = record { status = e; iov_size = n; given = 0; sent = λ _. 0; state = s }

-- `a - b` as the 32-bit pattern that is compared with the unsigned size.
abbrev pub u32_sub : ℕ → ℕ → ℕ
u32_sub a b = (a + 2 ^ 32 - b) % 2 ^ 32

-- `int bytes` is not positive.
abbrev pub not_positive : ℕ → Bool
not_positive n = (n == 0) || leb (2 ^ 31) n

-- `copied` is what `sys_safecopyto` answers.
unfoldable pub gather : ℕ → Answer (Unit {0}) → SecretState → Transfer
gather iov_size copied s =
    let left = u32_sub s.secret_len s.read_offset in
    let bytes = if ltb left iov_size then left else iov_size in
    if not_positive bytes then stop ok iov_size s else elim copied [
      | refuse e ↦ stop (failed e) iov_size s
      | answer _ ↦ record {
        status = ok;
        iov_size = iov_size - bytes;
        given = bytes;
        sent = λ i. s.secret_buf (s.read_offset + i);
        state = record s { read_offset = s.read_offset + bytes };
      }
    ]

-- `n` bytes of the source from index `at` on
abbrev pub write_at : (ℕ → ℕ) → ℕ → ℕ → (ℕ → ℕ) → ℕ → ℕ
write_at source at n buf i = if leb at i && ltb i (at + n) then source (i - at) else buf i

-- `source` is what `sys_safecopyfrom` answers: the bytes of the caller.
unfoldable pub scatter : ℕ → Answer (ℕ → ℕ) → SecretState → Transfer
scatter iov_size source s =
    if iov_size == 0
    then stop ok iov_size s
    else if leb secret_size s.secret_len
    then stop enospc iov_size s
    else let space_remaining = secret_size - s.secret_len in
      let bytes = if ltb space_remaining iov_size then space_remaining else iov_size in
      elim source [
        | refuse e ↦ stop (failed e) iov_size s
        | answer b ↦ record {
          status = ok;
          iov_size = iov_size - bytes;
          given = 0;
          sent = λ _. 0;
          state = record s {
            secret_buf = write_at b s.secret_len bytes s.secret_buf;
            secret_len = s.secret_len + bytes;
          };
        }
      ]

unfoldable pub secret_transfer :
    Opcode → ℕ → Answer (Unit {0}) → Answer (ℕ → ℕ) → SecretState → Transfer
secret_transfer dev_gather_s iov_size copied source s = gather iov_size copied s
secret_transfer dev_scatter_s iov_size copied source s = scatter iov_size source s
secret_transfer other_opcode iov_size copied source s = stop einval iov_size s
