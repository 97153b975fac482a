-- ===== src/Secret/Access.antt =====
-- Asgn4/secret.c, `secret_open`, `secret_close` and `secret_ioctl`: who may open the device, and when
-- the secret is gone.
use csc.Prelude.{ℕ, ◌+◌, ◌-◌, ◌≤◌, ◌≡◌, ◌↔◌, ◌⊎◌, ◌≢◌, true, false, ◌||◌, arith, if◌then◌else◌}
use csc.Secret.Driver.{
  SecretState, ok, answer, Mode, opened, closed, secret_open, secret_close, reset_secret_state,
}

-- The right to open: one direction, and of a device that has an owner only reading, by the owner.
abbrev pub MayOpen : Mode → ℕ → SecretState → Type 0
MayOpen m uid s =
    ((m.r_bit ≡ true)
      × (m.w_bit ≡ false)
      × ((s.has_owner ≡ false) ⊎ ((s.has_owner ≡ true) × (uid ≡ s.secret_owner))))
    ⊎ ((m.r_bit ≡ false) × (m.w_bit ≡ true) × (s.has_owner ≡ false))

-- A user whose credentials are known gets the device opened exactly if the user has the right to: to
-- read or to write an empty device, or to read one of which the user is the owner.
pub secret_open-MayOpen :
    (m : Mode) (uid : ℕ) (s : SecretState)
    → ((secret_open m (answer uid) s).0 ≡ ok) ↔ MayOpen m uid s
unfolding secret_open opened
secret_open-MayOpen m uid s = (λ h. ground arith, λ h. ground arith)

-- The state after an open that succeeds.
pub record Opened (m : Mode) (uid : ℕ) (s : SecretState) (s' : SecretState) : Type 0 where
  pub owned : s'.has_owner ≡ true
  pub owner : s'.secret_owner ≡ (if s.has_owner then s.secret_owner else uid)
  pub counted : s'.open_counter ≡ s.open_counter + 1
  pub read : s'.read_fd_opened ≡ (m.r_bit || s.read_fd_opened)
  pub same_buf : s'.secret_buf ≡ s.secret_buf
  pub same_len : s'.secret_len ≡ s.secret_len
  pub same_offset : s'.read_offset ≡ s.read_offset

-- After an open that succeeds the device has an owner, who is the caller if there was none and the
-- old one else; the count has grown by one, the secret is as it was, and the device counts as read
-- if it was opened for reading. An open that fails changes nothing.
pub secret_open-Opened :
    (m : Mode) (uid : ℕ) (s : SecretState)
    → ((secret_open m (answer uid) s).0 ≡ ok → Opened m uid s (secret_open m (answer uid) s).1)
      × ((secret_open m (answer uid) s).0 ≢ ok → (secret_open m (answer uid) s).1 ≡ s)
unfolding secret_open opened
secret_open-Opened m uid s = (λ h. ground arith, λ h. ground arith)

-- The close of the last descriptor of a device that has been read leaves no trace: no owner, no
-- length, and a buffer of zeros. Any other close takes one off the count, down to 0, and leaves the
-- rest of the state alone. Every close is answered with OK.
pub secret_close_forgets :
    (s : SecretState)
    → ((secret_close s).0 ≡ ok)
      × (s.open_counter ≤ 1
          → s.read_fd_opened ≡ true
          → (i : ℕ)
          → ((secret_close s).1.has_owner ≡ false)
            × ((secret_close s).1.secret_buf i ≡ 0)
            × ((secret_close s).1.secret_len ≡ 0)
            × ((secret_close s).1.read_offset ≡ 0)
            × ((secret_close s).1.open_counter ≡ 0)
            × ((secret_close s).1.read_fd_opened ≡ false))
      × ((2 ≤ s.open_counter) ⊎ (s.read_fd_opened ≡ false)
          → (secret_close s).1 ≡ record s { open_counter = s.open_counter - 1 })
unfolding secret_close closed reset_secret_state
secret_close_forgets s = (ground arith, λ few read i. ground arith, λ h. ground arith)
