-- ===== src/Secret/Tests.antt =====
-- Asgn4/secret.c: runs of the driver, and the theorems at the states that they reach.
use Prim.Native.String.{String}
use csc.Prelude.{
  ℕ, ◌+◌, ◌<◌, ◌≡◌, ◌≢◌, ◌==◌, refl, sym, true, false, arith, List, [], ◌∷◌, Option, none, some,
  if◌then◌else◌, ltb, ap,
}
use csc.Secret.Driver.{
  SecretState, Status, ok, eacces, enospc, enotty, einval, failed, secret_ioctl, Answer, answer,
  refuse, Mode, opened, closed, secret_open, secret_close, reset_secret_state, secret_transfer,
  dev_scatter_s, gather, scatter,
}
use csc.Secret.LiveUpdate.{
  DataStore, IsDataStore, Entry, number, memory, published, first_bytes, update,
  sef_cb_lu_state_save, sef_cb_init, sef_init_lu,
}
use csc.Secret.Access.{MayOpen, secret_open-MayOpen}
use csc.Secret.Bytes.{
  InBounds, IsOwned, opens, transfers, start, later, scatter-gather, Reach-InBounds,
}
use csc.Secret.Grant.{SystemCalls, AreCalls, Reports, byte, msg, grant_secret}
use csc.Secret.Granting.{o_rdonly, grant_secret_lem}
use csc.Secret.Confidential
use csc.Secret.Confidential.{Descriptor, System, AllTrusted, is_trusted, holders_trusted}
use csc.Secret.Survival.{IsGone, Same, lu_state_restore-save}

abbrev reading : Mode
reading = record { r_bit = true; w_bit = false }

abbrev writing : Mode
writing = record { r_bit = false; w_bit = true }

-- User 7 has written three bytes and has read none; the descriptor is open.
abbrev held : SecretState
held = record {
  open_counter = 1;
  secret_owner = 7;
  has_owner = true;
  secret_buf = λ i. if ltb i 3 then 65 + i else 0;
  secret_len = 3;
  read_offset = 0;
  read_fd_opened = false;
}

abbrev read_once : SecretState
read_once = record held { read_offset = 3; read_fd_opened = true }

open_denied : secret_open reading (answer 8) held ≡ (eacces, held)
unfolding secret_open
open_denied = refl

write_denied : secret_open writing (answer 7) held ≡ (enospc, held)
unfolding secret_open
write_denied = refl

close_resets : (secret_close read_once).1 ≡ reset_secret_state
unfolding secret_close closed
close_resets = refl

gather_two : (gather 2 (answer tt) held).sent 1 ≡ 66
unfolding gather
gather_two = refl

held-InBounds : InBounds held
held-InBounds = record { read = omega arith; fits = omega arith; clean = λ i h. ground arith }

read_once-InBounds : InBounds read_once
read_once-InBounds = record { read = omega arith; fits = omega arith; clean = λ i h. ground arith }

secret_open-MayOpen_example :
    ((secret_open reading (answer 7) held).0 ≡ ok) × MayOpen reading 7 held
unfolding secret_open opened
secret_open-MayOpen_example = (refl, (secret_open-MayOpen reading 7 held).0 refl)

scatter-gather_example :
    let r = gather 2 (answer tt) (scatter 2 (answer (λ i. 97 + i)) read_once).state in
    (r.given ≡ 2) × ((i : ℕ) → i < 2 → r.sent i ≡ 97 + i)
scatter-gather_example =
    scatter-gather read_once 2 (λ i. 97 + i) read_once-InBounds refl (omega arith) (omega arith)

Reach-InBounds_example :
    InBounds
      (secret_transfer dev_scatter_s 3
        (answer tt)
        (answer (λ i. 65 + i))
        (secret_open writing (answer 7) reset_secret_state).1).state
    × IsOwned
        (secret_transfer dev_scatter_s 3
          (answer tt)
          (answer (λ i. 65 + i))
          (secret_open writing (answer 7) reset_secret_state).1).state
unfolding secret_open opened reset_secret_state
Reach-InBounds_example = Reach-InBounds (
    later (later start (opens writing (answer 7)))
      (transfers dev_scatter_s 3 (answer tt) (answer (λ i. 65 + i)) (omega arith)))

-- A data store that refuses only what is not there.
abbrev number_at : Option Entry → Answer ℕ
number_at (some (number n)) = answer n
number_at (some (memory b)) = refuse 1
number_at none = refuse 1

abbrev memory_at : ℕ → Option Entry → Answer (List ℕ)
memory_at size (some (memory b)) = answer (first_bytes size b)
memory_at size (some (number n)) = refuse 1
memory_at size none = refuse 1

abbrev entries : DataStore
entries = record {
  Store = String → Option Entry;
  publish_u32 = λ k n st. answer (update st k (some (number n)));
  publish_mem = λ k b size st. answer (update st k (some (memory (published size b))));
  retrieve_u32 = λ k st. number_at (st k);
  retrieve_mem = λ k size st. memory_at size (st k);
  delete_u32 = λ k st. answer (update st k none);
  delete_mem = λ k st. answer (update st k none);
}

abbrev answer_of : {A : Type 0} → A → Answer A → A
answer_of a (answer b) = b
answer_of a (refuse e) = a

abbrev entries-IsDataStore : IsDataStore entries
entries-IsDataStore = record {
  look = λ st. st;
  publish_u32-look = λ k n st st' e. sym (ap (answer_of st) e);
  publish_mem-look = λ k b size st st' e. sym (ap (answer_of st) e);
  retrieve_u32-look = λ k n st e. ap number_at e;
  retrieve_mem-look = λ k b size st e. ap (memory_at size) e;
  delete_u32-look = λ k n st e. (update st k none, refl, refl);
  delete_mem-look = λ k b st e. (update st k none, refl, refl);
}

abbrev kept : String → Option Entry
kept = (sef_cb_lu_state_save entries held (λ _. none)).1

lu_state_restore-save_example :
    ((sef_cb_init entries sef_init_lu reset_secret_state kept).0.status ≡ ok)
    × Same (sef_cb_init entries sef_init_lu reset_secret_state kept).0.state held
    × IsGone (sef_cb_init entries sef_init_lu reset_secret_state kept).0.store
unfolding sef_cb_lu_state_save
lu_state_restore-save_example =
    lu_state_restore-save entries entries-IsDataStore held reset_secret_state (λ _. none) kept
      held-InBounds (omega arith) (omega arith) refl

-- System calls that hand the driver's answers on.
abbrev reported : Status → Option ℕ
reported ok = some 3
reported eacces = none
reported enospc = none
reported enotty = none
reported einval = none
reported (failed e) = none

abbrev calls : SystemCalls
calls = record {
  open_device =
      λ uid m s. (reported (secret_open m (answer uid) s).0, (secret_open m (answer uid) s).1);
  write = λ fd n b s. (reported (scatter n (answer b) s).status, (scatter n (answer b) s).state);
  ioctl_ssgrant = λ fd uid s.
      (reported (secret_ioctl true (answer uid) s).0, (secret_ioctl true (answer uid) s).1);
  close = λ fd s. (reported (secret_close s).0, (secret_close s).1);
}

reported-Reports : (st : Status) → Reports st (reported st)
reported-Reports ok = (3, refl)
reported-Reports eacces = refl
reported-Reports enospc = refl
reported-Reports enotty = refl
reported-Reports einval = refl
reported-Reports (failed e) = refl

calls-AreCalls : AreCalls calls
calls-AreCalls = record {
  opens = λ uid m s. (refl, reported-Reports _);
  writes = λ fd n b s. (refl, reported-Reports _);
  grants = λ fd uid s. (refl, reported-Reports _);
  closes = λ fd s. (refl, reported-Reports _);
}

grant_secret_lem_example :
    let (code, s') = grant_secret calls 7 (some 9) reset_secret_state in
    (code ≡ 0)
    × (s'.open_counter ≡ 0)
    × ((reader : ℕ)
        → (secret_open o_rdonly (answer reader) s').0 ≡ (if reader == 9 then ok else eacces))
    × (let r = gather 13 (answer tt) (secret_open o_rdonly (answer 9) s').1 in
        (r.status ≡ ok) × (r.given ≡ 13) × ((i : ℕ) → i < 13 → r.sent i ≡ byte msg i))
unfolding reset_secret_state
grant_secret_lem_example =
    grant_secret_lem calls calls-AreCalls 7 reset_secret_state (Reach-InBounds start).1 refl 9
      (Reach-InBounds start).0 (omega arith)

-- User 7 opens the empty device and grants it to user 9.
abbrev written_by_7 : System
written_by_7 = record {
  driver = (secret_open writing (answer 7) reset_secret_state).1;
  open_descriptors = record { uid = 7; mode = writing } ∷ [];
  trusted = 7 ∷ [];
}

abbrev granted_to_9 : System
granted_to_9 = record written_by_7 {
  driver = (secret_ioctl true (answer 9) written_by_7.driver).1;
  trusted = 9 ∷ 7 ∷ [];
}

granted_to_9-Reach : Confidential.Reach granted_to_9
unfolding secret_open opened reset_secret_state
granted_to_9-Reach =
    Confidential.Reach.later
      (Confidential.Reach.later Confidential.Reach.start (Confidential.Step.opens 7 writing refl))
      (Confidential.Step.grants [] (record { uid = 7; mode = writing }) [] 9 refl)

holders_trusted_example :
    AllTrusted (9 ∷ 7 ∷ []) (record { uid = 7; mode = writing } ∷ [])
    × (granted_to_9.driver.has_owner ≡ true
        → is_trusted granted_to_9.driver.secret_owner (9 ∷ 7 ∷ []) ≡ true)
    × (granted_to_9.open_descriptors ≢ [] → granted_to_9.driver.has_owner ≡ true)
    × (granted_to_9.driver.open_counter ≡ 1)
holders_trusted_example = holders_trusted granted_to_9 granted_to_9-Reach
