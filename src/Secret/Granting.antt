-- ===== src/Secret/Granting.antt =====
-- Asgn4/grant_secret.c with Asgn4/secret.c: what the command leaves for whom.
use csc.Prelude.{
  ℕ, ◌<◌, ◌≡◌, ◌≢◌, refl, true, false, ◌==◌, Option, none, some, arith, length, if◌then◌else◌,
}
use csc.Secret.Driver.{
  SecretState, Status, ok, eacces, enospc, enotty, einval, failed, answer, Mode, secret_open,
  opened, secret_close, closed, secret_ioctl, scatter, gather,
}
use csc.Secret.Bytes.{InBounds, IsOwned}
use csc.Secret.Grant.{
  SystemCalls, AreCalls, Reports, byte, msg, o_wronly, grant_and_close, grant_secret,
}

abbrev pub o_rdonly : Mode
o_rdonly = record { r_bit = true; w_bit = false }

-- The states of an empty device after the open, the write, the grant and the close.
abbrev pub after_open : ℕ → SecretState → SecretState
after_open caller s = (secret_open o_wronly (answer caller) s).1

abbrev pub after_scatter : ℕ → SecretState → SecretState
after_scatter caller s = (scatter (length msg) (answer (byte msg)) (after_open caller s)).state

abbrev pub after_close : (caller uid : ℕ) → SecretState → SecretState
after_close caller uid s =
    (secret_close (secret_ioctl true (answer uid) (after_scatter caller s)).1).1

-- A call of which the driver's status is OK succeeds; another one fails.
succeeds : (st : Status) (r : Option ℕ) → Reports st r → st ≡ ok → (v : ℕ) × (r ≡ some v)
succeeds ok r h e = h
succeeds eacces r h e = cc
succeeds enospc r h e = cc
succeeds enotty r h e = cc
succeeds einval r h e = cc
succeeds (failed k) r h e = cc

fails : (st : Status) (r : Option ℕ) → Reports st r → st ≢ ok → r ≡ none
fails ok r h e = absurd (e refl)
fails eacces r h e = h
fails enospc r h e = h
fails enotty r h e = h
fails einval r h e = h
fails (failed k) r h e = h

closes_ok : (s : SecretState) → (secret_close s).0 ≡ ok
unfolding secret_close closed
closes_ok s = ground arith

-- A closed device with the message can be read by its owner.
readable :
    (s : SecretState) (uid : ℕ)
    → (s.has_owner ≡ true)
      × (s.secret_owner ≡ uid)
      × (s.open_counter ≡ 0)
      × (s.secret_len ≡ 13)
      × (s.read_offset ≡ 0)
      × ((i : ℕ) → i < 13 → s.secret_buf i ≡ byte msg i)
    → (◌≡◌ {A = ℕ} 0 0)
      × (s.open_counter ≡ 0)
      × ((reader : ℕ)
          → (secret_open o_rdonly (answer reader) s).0 ≡ (if reader == uid then ok else eacces))
      × (let r = gather 13 (answer tt) (secret_open o_rdonly (answer uid) s).1 in
          (r.status ≡ ok) × (r.given ≡ 13) × ((i : ℕ) → i < 13 → r.sent i ≡ byte msg i))
unfolding secret_open opened gather
readable s uid (owned, owner, shut, long, front, same) = (
  refl,
  shut,
  λ reader. ground arith,
  (ground arith, ground arith, λ i h. ground (arith, same i)),
)

module _ (c : SystemCalls) (are : AreCalls c) (caller : ℕ) (s : SecretState) (o : IsOwned s)
    (empty : s.has_owner ≡ false) where
  -- Both the open and the write are answered with OK.
  accepted :
      ((secret_open o_wronly (answer caller) s).0 ≡ ok)
      × ((scatter (length msg) (answer (byte msg)) (after_open caller s)).status ≡ ok)
  unfolding secret_open opened scatter
  accepted = let nothing = o.no_length empty in (ground arith, ground arith)

  runs : (uid : ℕ) → uid ≢ 0 → grant_secret c caller (some uid) s ≡ (0, after_close caller uid s)
  unfolding grant_secret grant_and_close
  runs uid some_user =
      let (o1, o2) = are.opens caller o_wronly s in
      let (fd, opens) = succeeds _ _ o2 accepted.0 in
      let (w1, w2) = are.writes fd (length msg) (byte msg) (after_open caller s) in
      let (n, writes) = succeeds _ _ w2 accepted.1 in
      let (g1, g2) = are.grants fd uid (after_scatter caller s) in
      let (c1, c2) = are.closes fd (secret_ioctl true (answer uid) (after_scatter caller s)).1 in
      let (v, closes) =
        succeeds _ _ c2 (closes_ok (secret_ioctl true (answer uid) (after_scatter caller s)).1) in
      let nonzero : (uid == 0) ≡ false = ground arith in
      rw
        (
          opens, grant_secret, o1, writes, o1, w1, grant_and_close, nonzero, g1, closes, o1, w1,
          nonzero, g1, c1,
        )
        refl

  -- The secret that the command leaves.
  left :
      (uid : ℕ)
      → InBounds s
      → let s' = after_close caller uid s in
        (s'.has_owner ≡ true)
        × (s'.secret_owner ≡ uid)
        × (s'.open_counter ≡ 0)
        × (s'.secret_len ≡ 13)
        × (s'.read_offset ≡ 0)
        × ((i : ℕ) → i < 13 → s'.secret_buf i ≡ byte msg i)
  unfolding secret_open opened scatter secret_ioctl secret_close closed
  left uid b =
      let nothing = o.no_length empty in
      let shut = o.counted empty in
      let unread = o.unread empty in
      let front = b.read in
      (ground arith, ground arith, ground arith, ground arith, ground arith, λ i h. ground arith)

  -- On an empty device, for a user id other than 0, grant_secret exits with 0. After it the device is
  -- closed; the user to whom the secret was granted, and no one else, may open it to read; and a read
  -- of 13 bytes then gives the message.
  pub grant_secret_lem :
      (uid : ℕ)
      → InBounds s
      → uid ≢ 0
      → let (code, s') = grant_secret c caller (some uid) s in
        (code ≡ 0)
        × (s'.open_counter ≡ 0)
        × ((reader : ℕ)
            → (secret_open o_rdonly (answer reader) s').0 ≡ (if reader == uid then ok else eacces))
        × (let r = gather 13 (answer tt) (secret_open o_rdonly (answer uid) s').1 in
            (r.status ≡ ok) × (r.given ≡ 13) × ((i : ℕ) → i < 13 → r.sent i ≡ byte msg i))
  grant_secret_lem uid b some_user =
      rw (runs uid some_user) (readable (after_close caller uid s) uid (left uid b))

full_device :
    (caller : ℕ) (s : SecretState)
    → s.has_owner ≡ true
    → secret_open o_wronly (answer caller) s ≡ (enospc, s)
unfolding secret_open
full_device caller s full = ground arith

-- On a device that has an owner, be it the caller, grant_secret exits with 1 and changes nothing.
pub grant_secret_refused :
    (c : SystemCalls) (caller : ℕ) (uid : Option ℕ) (s : SecretState)
    → AreCalls c
    → s.has_owner ≡ true
    → grant_secret c caller uid s ≡ (1, s)
unfolding grant_secret
grant_secret_refused c caller uid s are full =
    let (o1, o2) = are.opens caller o_wronly s in
    let refused = full_device caller s full in
    let no_fd = fails _ _ o2 (rw refused (λ h. cc)) in rw (no_fd, grant_secret, o1, refused) refl
