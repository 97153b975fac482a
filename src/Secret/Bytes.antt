-- ===== src/Secret/Bytes.antt =====
-- Asgn4/secret.c, `secret_transfer`: the bytes of the secret, and the states that the driver reaches.
use csc.Prelude.{ℕ, min, ap, ◌+◌, ◌-◌, ◌^◌, ◌≤◌, ◌<◌, ◌≡◌, refl, Bool, true, false, arith}
use csc.Secret.Driver.{
  SecretState, ok, enospc, failed, Answer, answer, refuse, Mode, secret_size, opened, closed,
  secret_open, secret_close, secret_ioctl, reset_secret_state, secret_transfer, Opcode,
  dev_gather_s, dev_scatter_s, other_opcode, gather, scatter,
}

-- The secret lies in the buffer, is read from its front, and the rest of the buffer is zero.
pub record InBounds (s : SecretState) : Type 0 where
  pub read : s.read_offset ≤ s.secret_len
  pub fits : s.secret_len ≤ secret_size
  pub clean : (i : ℕ) → s.secret_len ≤ i → s.secret_buf i ≡ 0

-- A device with no owner is not open and holds nothing; one that counts as read is open.
pub record IsOwned (s : SecretState) : Type 0 where
  pub counted : s.has_owner ≡ false → s.open_counter ≡ 0
  pub no_length : s.has_owner ≡ false → s.secret_len ≡ 0
  pub unread : s.has_owner ≡ false → s.read_fd_opened ≡ false
  pub reading : s.read_fd_opened ≡ true → 0 < s.open_counter

-- One request. The file system transfers only over an open descriptor.
pub data Step (s : SecretState) : SecretState → Type 0 where
  opens : (m : Mode) (caller : Answer ℕ) → Step s (secret_open m caller s).1
  closes : Step s (secret_close s).1
  grants : (is_ssgrant : Bool) (grantee : Answer ℕ) → Step s (secret_ioctl is_ssgrant grantee s).1
  transfers :
      (op : Opcode) (iov_size : ℕ) (copied : Answer (Unit {0})) (source : Answer (ℕ → ℕ))
      → 0 < s.open_counter
      → Step s (secret_transfer op iov_size copied source s).state

pub data Reach : SecretState → Type 0 where
  start : Reach reset_secret_state
  later : {s s' : SecretState} → Reach s → Step s s' → Reach s'

-- From a state within bounds, a read of fewer than 2 ^ 31 bytes answers with OK, gives the next
-- bytes of the secret, as many as are asked for or as are left, moves the offset past them and
-- changes nothing else. If the copy to the caller fails, nothing changes.
pub gather_lem :
    (s : SecretState) (n : ℕ)
    → InBounds s
    → n < 2 ^ 31
    → ((gather n (answer tt) s).status ≡ ok)
      × ((gather n (answer tt) s).given ≡ min n (s.secret_len - s.read_offset))
      × ((gather n (answer tt) s).given + (gather n (answer tt) s).iov_size ≡ n)
      × ((i : ℕ)
          → i < (gather n (answer tt) s).given
          → (gather n (answer tt) s).sent i ≡ s.secret_buf (s.read_offset + i))
      × ((gather n (answer tt) s).state
          ≡ record s { read_offset = s.read_offset + (gather n (answer tt) s).given })
      × ((e : ℕ)
          → ((gather n (refuse e) s).state ≡ s)
            × ((gather n (refuse e) s).iov_size ≡ n)
            × ((gather n (refuse e) s).given ≡ 0))
unfolding gather
gather_lem s n v small = (
  ground arith,
  ground arith,
  ground arith,
  λ i h. ground arith,
  ground arith,
  λ e. (ground arith, ground arith, ground arith),
)

-- From a state within bounds, a write of at least one byte appends the caller's bytes behind the
-- secret, as many as are given or as the buffer has room for, and changes nothing before them. A
-- full buffer refuses with ENOSPC, and a copy that fails with its own status; then nothing
-- changes.
pub scatter_lem :
    (s : SecretState) (n : ℕ) (b : ℕ → ℕ)
    → InBounds s
    → 0 < n
    → ((s.secret_len ≡ secret_size)
        → ((scatter n (answer b) s).status ≡ enospc) × ((scatter n (answer b) s).state ≡ s))
      × (s.secret_len < secret_size
          → ((scatter n (answer b) s).status ≡ ok)
            × ((scatter n (answer b) s).state.secret_len ≡ min (s.secret_len + n) secret_size)
            × ((scatter n (answer b) s).state.secret_len + (scatter n (answer b) s).iov_size
                ≡ s.secret_len + n)
            × ((i : ℕ)
                → (i < s.secret_len → (scatter n (answer b) s).state.secret_buf i ≡ s.secret_buf i)
                  × (s.secret_len + i < (scatter n (answer b) s).state.secret_len
                      → (scatter n (answer b) s).state.secret_buf (s.secret_len + i) ≡ b i))
            × ((e : ℕ)
                → ((scatter n (refuse e) s).status ≡ failed e)
                  × ((scatter n (refuse e) s).state ≡ s)))
unfolding scatter
scatter_lem s n b v some_bytes = (
  λ full. (ground arith, ground arith),
  λ room. (
    ground arith,
    ground arith,
    ground arith,
    λ i. (λ h. ground arith, λ h. behind i (ground arith)),
    λ e. (ground arith, ground arith),
  ),
)
  where
    behind :
        (i : ℕ)
        → s.secret_len + i < (scatter n (answer b) s).state.secret_len
        → (scatter n (answer b) s).state.secret_buf (s.secret_len + i) ≡ b i
    behind i h = let e : s.secret_len + i - s.secret_len ≡ i = omega arith in ground (arith, ap b e)

-- What is written is what is read: from a state within bounds in which everything has been read,
-- a write of at least one byte for which there is room, followed by a read of as many, gives
-- exactly these bytes, in order.
pub scatter-gather :
    (s : SecretState) (n : ℕ) (b : ℕ → ℕ)
    → InBounds s
    → s.read_offset ≡ s.secret_len
    → 0 < n
    → s.secret_len + n ≤ secret_size
    → let r = gather n (answer tt) (scatter n (answer b) s).state in
      (r.given ≡ n) × ((i : ℕ) → i < n → r.sent i ≡ b i)
unfolding scatter gather
scatter-gather s n b v at_end some_bytes room = (
  ground arith,
  λ i h. let e : s.secret_len + i - s.secret_len ≡ i = omega arith in ground (arith, ap b e),
)

record Inv (s : SecretState) : Type 0 where
  bounds : InBounds s
  owned : IsOwned s

reset_Inv : Inv reset_secret_state
unfolding reset_secret_state
reset_Inv = record {
  bounds = record { read = omega arith; fits = omega arith; clean = λ i h. refl };
  owned = record {
    counted = λ e. refl;
    no_length = λ e. refl;
    unread = λ e. refl;
    reading = λ e. cc;
  };
}

open_Inv : (m : Mode) (caller : Answer ℕ) (s : SecretState) → Inv s → Inv (secret_open m caller s).1
unfolding secret_open opened
open_Inv m (refuse e) s v = ground arith
open_Inv m (answer uid) s v = record {
  bounds = record {
    read = ground arith;
    fits = ground arith;
    clean = λ i h. ground (arith, v.bounds.clean i);
  };
  owned = record {
    counted = λ e. ground arith;
    no_length = λ e. ground arith;
    unread = λ e. ground arith;
    reading = λ e. ground arith;
  };
}

close_Inv : (s : SecretState) → Inv s → Inv (secret_close s).1
unfolding secret_close closed reset_secret_state
close_Inv s v = record {
  bounds = record {
    read = ground arith;
    fits = ground arith;
    clean = λ i h. ground (arith, v.bounds.clean i);
  };
  owned = record {
    counted = λ e. ground arith;
    no_length = λ e. ground arith;
    unread = λ e. ground arith;
    reading = λ e. ground arith;
  };
}

ioctl_Inv : (b : Bool) (g : Answer ℕ) (s : SecretState) → Inv s → Inv (secret_ioctl b g s).1
unfolding secret_ioctl
ioctl_Inv b (refuse e) s v = ground arith
ioctl_Inv b (answer uid) s v = record {
  bounds = record {
    read = ground arith;
    fits = ground arith;
    clean = λ i h. ground (arith, v.bounds.clean i);
  };
  owned = record {
    counted = λ e. ground arith;
    no_length = λ e. ground arith;
    unread = λ e. ground arith;
    reading = λ e. ground arith;
  };
}

transfer_Inv :
    (op : Opcode) (n : ℕ) (copied : Answer (Unit {0})) (source : Answer (ℕ → ℕ)) (s : SecretState)
    → 0 < s.open_counter
    → Inv s
    → Inv (secret_transfer op n copied source s).state
unfolding secret_transfer gather scatter
transfer_Inv other_opcode n copied source s h v = v
transfer_Inv dev_gather_s n copied source s h v = record {
  bounds = record {
    read = ground arith;
    fits = ground arith;
    clean = λ i h. ground (arith, v.bounds.clean i);
  };
  owned = record {
    counted = λ e. ground arith;
    no_length = λ e. ground arith;
    unread = λ e. ground arith;
    reading = λ e. ground arith;
  };
}
transfer_Inv dev_scatter_s n copied (refuse e) s h v = record {
  bounds = record {
    read = ground arith;
    fits = ground arith;
    clean = λ i h. ground (arith, v.bounds.clean i);
  };
  owned = record {
    counted = λ e. ground arith;
    no_length = λ e. ground arith;
    unread = λ e. ground arith;
    reading = λ e. ground arith;
  };
}
transfer_Inv dev_scatter_s n copied (answer b) s h v = record {
  bounds = record {
    read = ground arith;
    fits = ground arith;
    clean = λ i h. ground (arith, v.bounds.clean i);
  };
  owned = record {
    counted = λ e. ground arith;
    no_length = λ e. ground arith;
    unread = λ e. ground arith;
    reading = λ e. ground arith;
  };
}

-- In every state that the driver reaches, the offset is within the secret and the secret within the
-- buffer, the buffer holds nothing but the secret, and a device without an owner is closed and empty.
pub Reach-InBounds : {s : SecretState} → Reach s → InBounds s × IsOwned s
Reach-InBounds r = let v = inv r in (v.bounds, v.owned)
  where
    keep : {s s' : SecretState} → Step s s' → Inv s → Inv s'
    keep {s} (opens m caller) v = open_Inv m caller s v
    keep {s} closes v = close_Inv s v
    keep {s} (grants b g) v = ioctl_Inv b g s v
    keep {s} (transfers op n copied source h) v = transfer_Inv op n copied source s h v

    inv : {s : SecretState} → Reach s → Inv s
    inv start = reset_Inv
    inv (later r st) = keep st (inv r)
