-- ===== src/Secret/Grant.antt =====
-- Asgn4/grant_secret.c: the command that writes a secret and grants it. The system calls are a record;
-- what the file system does with them for this device is stated by `AreCalls`.
use csc.Prelude.{
  ℕ, zero, suc, ◌≡◌, true, false, not, ◌==◌, Option, none, some, List, [], ◌∷◌, length,
  if◌then◌else◌,
}
use csc.Secret.Driver.{
  SecretState, Status, ok, answer, Mode, secret_open, secret_close, secret_ioctl, scatter,
}

-- The calls of a process with a user id; `none` is a result of -1. `write` takes the number of bytes and the
-- bytes.
pub record SystemCalls : Type 0 where
  pub open_device : (uid : ℕ) (m : Mode) → SecretState → Option ℕ × SecretState
  pub write : (fd n : ℕ) (bytes : ℕ → ℕ) → SecretState → Option ℕ × SecretState
  pub ioctl_ssgrant : (fd uid : ℕ) → SecretState → Option ℕ × SecretState
  pub close : (fd : ℕ) → SecretState → Option ℕ × SecretState

-- `-1` exactly if the driver's status is not OK
abbrev pub Reports : Status → Option ℕ → Type 0
Reports ok r = (v : ℕ) × (r ≡ some v)
Reports other r = r ≡ none

-- Each call makes one request of the driver, and is -1 unless the driver answers OK.
pub record AreCalls (c : SystemCalls) : Type 0 where
  pub opens :
      (uid : ℕ) (m : Mode) (s : SecretState)
      → ((c.open_device uid m s).1 ≡ (secret_open m (answer uid) s).1)
        × Reports (secret_open m (answer uid) s).0 (c.open_device uid m s).0
  pub writes :
      (fd n : ℕ) (bytes : ℕ → ℕ) (s : SecretState)
      → ((c.write fd n bytes s).1 ≡ (scatter n (answer bytes) s).state)
        × Reports (scatter n (answer bytes) s).status (c.write fd n bytes s).0
  pub grants :
      (fd uid : ℕ) (s : SecretState)
      → ((c.ioctl_ssgrant fd uid s).1 ≡ (secret_ioctl true (answer uid) s).1)
        × Reports (secret_ioctl true (answer uid) s).0 (c.ioctl_ssgrant fd uid s).0
  pub closes :
      (fd : ℕ) (s : SecretState)
      → ((c.close fd s).1 ≡ (secret_close s).1) × Reports (secret_close s).0 (c.close fd s).0

-- The byte at an index of a text, and 0 behind its end.
unfoldable pub byte : List ℕ → ℕ → ℕ
byte [] i = 0
byte (b ∷ bs) zero = b
byte (b ∷ bs) (suc i) = byte bs i

-- "Hello, world\n"
abbrev pub msg : List ℕ
msg = b'H' ∷ b'e' ∷ b'l' ∷ b'l' ∷ b'o' ∷ b',' ∷ b' ' ∷ b'w' ∷ b'o' ∷ b'r' ∷ b'l' ∷ b'd' ∷ 10 ∷ []

abbrev pub o_wronly : Mode
o_wronly = record { r_bit = false; w_bit = true }

-- After the write. `uid` is what `atoi` gives for the argument, if there is one.
unfoldable pub grant_and_close : SystemCalls → ℕ → Option ℕ → SecretState → ℕ × SecretState
grant_and_close c fd uid s =
    let granted : SecretState = elim uid [
      | none ↦ s
      | some u ↦ if not (u == 0) then (c.ioctl_ssgrant fd u s).1 else s
    ] in
    let (res, s') = c.close fd granted in elim res [ none ↦ (1, s') | some _ ↦ (0, s') ]

-- `grant_secret` run by `caller`: the exit status, and the state of the driver after it.
unfoldable pub grant_secret : SystemCalls → (caller : ℕ) → Option ℕ → SecretState → ℕ × SecretState
grant_secret c caller uid s =
    let (opened, s1) = c.open_device caller o_wronly s in
    elim opened [
      | none ↦ (1, s1)
      | some fd ↦
          let (written, s2) = c.write fd (length msg) (byte msg) s1 in
          elim written [ none ↦ (1, (c.close fd s2).1) | some _ ↦ grant_and_close c fd uid s2 ]
    ]
