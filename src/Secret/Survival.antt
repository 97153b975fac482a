-- ===== src/Secret/Survival.antt =====
-- Asgn4/secret.c: a state saved for a live update is restored as it was, and its entries are deleted.
use Prim.Native.String.{String}
use csc.Prelude.{
  ℕ, zero, suc, ◌+◌, ◌^◌, List, ◌<◌, ◌≡◌, refl, sym, ap, subst, ◌∙◌, Bool, true, false, Option,
  none, some, arith,
}
use csc.Secret.Driver.{SecretState, Status, ok, Answer, answer, refuse, secret_size}
use csc.Secret.LiveUpdate.{
  DataStore, IsDataStore, Entry, number, memory, published, overlay, first_bytes, update, u32, flag,
  truth, after, take, take_mem, Restored, sef_cb_lu_state_save, lu_state_restore, sef_cb_init,
  sef_init_lu,
}
use csc.Secret.Bytes.{InBounds}

abbrev pub Look : Type 0
Look = String → Option Entry

-- The entries of a saved state, over those that were there.
abbrev saved : SecretState → Look → Look
saved s f =
    update
      (update
        (update
          (update
            (update
              (update (update f "open_counter" (some (number (u32 s.open_counter)))) "secret_buf"
                (some (memory (published secret_size s.secret_buf))))
              "secret_len" (some (number (u32 s.secret_len))))
            "read_offset" (some (number (u32 s.read_offset))))
          "secret_owner" (some (number (u32 s.secret_owner))))
        "has_owner" (some (number (u32 (flag s.has_owner)))))
      "read_fd_opened" (some (number (u32 (flag s.read_fd_opened))))

-- None of the names of the driver has an entry.
abbrev pub IsGone : Look → Type 0
IsGone g =
    (g "open_counter" ≡ none)
    × (g "secret_buf" ≡ none)
    × (g "secret_len" ≡ none)
    × (g "read_offset" ≡ none)
    × (g "secret_owner" ≡ none)
    × (g "has_owner" ≡ none)
    × (g "read_fd_opened" ≡ none)

-- Two states with the same numbers and flags, and the same bytes in the buffer.
pub record Same (s t : SecretState) : Type 0 where
  pub open_counter : s.open_counter ≡ t.open_counter
  pub secret_owner : s.secret_owner ≡ t.secret_owner
  pub has_owner : s.has_owner ≡ t.has_owner
  pub secret_buf : (i : ℕ) → i < secret_size → s.secret_buf i ≡ t.secret_buf i
  pub secret_len : s.secret_len ≡ t.secret_len
  pub read_offset : s.read_offset ≡ t.read_offset
  pub read_fd_opened : s.read_fd_opened ≡ t.read_fd_opened

truth-flag : (b : Bool) → truth (u32 (flag b)) ≡ b
truth-flag true = refl
truth-flag false = refl

-- A byte that was published, and for which the buffer has room, is the byte in the buffer.
read_back :
    (room size i : ℕ) (b m : ℕ → ℕ)
    → i < size
    → i < room
    → overlay (first_bytes room (published size b)) m i ≡ b i
unfolding overlay published
read_back room zero i b m h k = absurd (omega (arith, h))
read_back zero (suc size) i b m h k = absurd (omega (arith, k))
read_back (suc room) (suc size) zero b m h k = refl
read_back (suc room) (suc size) (suc i) b m h k =
    read_back room size i (λ j. b (j + 1)) (λ j. m (j + 1)) (omega (arith, h)) (omega (arith, k))
    ∙ ap b (omega arith)

module _ (d : DataStore) (laws : IsDataStore d) where
  open d use {Store, publish_u32, publish_mem}
  open laws use {look}

  -- A call after which the saving went on has succeeded.
  after-eq-ok :
      (a : Answer Store) (st st' : Store) (next : Store → Status × Store)
      → after d a st next ≡ (ok, st')
      → (x : Store) × (a ≡ answer x) × (next x ≡ (ok, st'))
  after-eq-ok (refuse e) st st' next h = cc
  after-eq-ok (answer x) st st' next h = (x, refl, h)

  -- A number that is put and does not stop the saving has its entry, and the saving goes on.
  put-look :
      (C : Type 0) (k : String) (n : ℕ) (st st' : Store) (next : Store → Status × Store) (f : Look)
      → look st ≡ f
      → after d (publish_u32 k (u32 n) st) st next ≡ (ok, st')
      → ((x : Store) → look x ≡ update f k (some (number (u32 n))) → next x ≡ (ok, st') → C)
      → C
  put-look C k n st st' next f h e go =
      let (x, made, rest) = after-eq-ok (publish_u32 k (u32 n) st) st st' next e in
      go x
        (laws.publish_u32-look k (u32 n) st x made ∙ ap (λ g. update g k (some (number (u32 n)))) h)
        rest

  put_mem-look :
      (C : Type 0) (b : ℕ → ℕ) (st st' : Store) (next : Store → Status × Store) (f : Look)
      → look st ≡ f
      → after d (publish_mem "secret_buf" b secret_size st) st next ≡ (ok, st')
      → ((x : Store)
          → look x ≡ update f "secret_buf" (some (memory (published secret_size b)))
          → next x ≡ (ok, st')
          → C)
      → C
  put_mem-look C b st st' next f h e go =
      let (x, made, rest) = after-eq-ok (publish_mem "secret_buf" b secret_size st) st st' next e in
      go x
        (laws.publish_mem-look "secret_buf" b secret_size st x made
          ∙ ap (λ g. update g "secret_buf" (some (memory (published secret_size b)))) h)
        rest

  save-look :
      (s : SecretState) (st st' : Store)
      → sef_cb_lu_state_save d s st ≡ (ok, st')
      → look st' ≡ saved s (look st)
  unfolding sef_cb_lu_state_save
  save-look s st st' e = put-look _ "open_counter" s.open_counter st st' _ _ refl e λ a la ea.
      put_mem-look _ s.secret_buf a st' _ _ la ea λ b lb eb.
        put-look _ "secret_len" s.secret_len b st' _ _ lb eb λ c lc ec.
          put-look _ "read_offset" s.read_offset c st' _ _ lc ec λ i li ei.
            put-look _ "secret_owner" s.secret_owner i st' _ _ li ei λ j lj ej.
              put-look _ "has_owner" (flag s.has_owner) j st' _ _ lj ej λ k lk ek.
                put-look _ "read_fd_opened" (flag s.read_fd_opened) k st' _ _ lk ek
                  λ l ll el. sym (ap (λ (r : Status × Store). look r.1) el) ∙ ll

  -- A number that is there is taken: it is kept, its entry is gone, and the restore goes on.
  take_lem :
      (P : Restored d → Type 0) (k : String) (n : ℕ) (keep : ℕ → SecretState → SecretState)
      (next : SecretState → Store → Restored d) (s : SecretState) (st : Store) (f : Look)
      → look st ≡ f
      → f k ≡ some (number n)
      → ((x : Store) → look x ≡ update f k none → P (next (keep n s) x))
      → P (take d k keep next s st)
  unfolding take
  take_lem P k n keep next s st f h there go =
      let here : look st k ≡ some (number n) = ap (λ (g : Look). g k) h ∙ there in
      let (st', gone, rest) = laws.delete_u32-look k n st here in
      rw (laws.retrieve_u32-look k n st here, take)
        (rw (gone, take) (go st' (rest ∙ ap (λ g. update g k none) h)))

  take_mem_lem :
      (P : Restored d → Type 0) (b : List ℕ) (next : SecretState → Store → Restored d)
      (s : SecretState) (st : Store) (f : Look)
      → look st ≡ f
      → f "secret_buf" ≡ some (memory b)
      → ((x : Store)
          → look x ≡ update f "secret_buf" none
          → P (next (record s { secret_buf = overlay (first_bytes secret_size b) s.secret_buf }) x))
      → P (take_mem d next s st)
  unfolding take_mem
  take_mem_lem P b next s st f h there go =
      let here : look st "secret_buf" ≡ some (memory b) =
        ap (λ (g : Look). g "secret_buf") h ∙ there in
      let (st', gone, rest) = laws.delete_mem-look "secret_buf" b st here in
      rw (laws.retrieve_mem-look "secret_buf" b secret_size st here, take_mem)
        (rw (gone, take_mem) (go st' (rest ∙ ap (λ g. update g "secret_buf" none) h)))

  -- The state that a restore leaves, from the entries of `s`.
  abbrev restored : SecretState → SecretState → SecretState
  restored s old = record {
    open_counter = u32 s.open_counter;
    secret_owner = u32 s.secret_owner;
    has_owner = truth (u32 (flag s.has_owner));
    secret_buf =
        overlay (first_bytes secret_size (published secret_size s.secret_buf)) old.secret_buf;
    secret_len = u32 s.secret_len;
    read_offset = u32 s.read_offset;
    read_fd_opened = truth (u32 (flag s.read_fd_opened));
  }

  abbrev Restores : SecretState → SecretState → Restored d → Type 0
  Restores s old r = (r.status ≡ ok) × (r.state ≡ restored s old) × IsGone (look r.store)

  restore-Restores :
      (s old : SecretState) (st : Store) (f : Look)
      → look st ≡ saved s f
      → Restores s old (lu_state_restore d old st)
  unfolding lu_state_restore
  restore-Restores s old st f h =
      let P = Restores s old in
      take_lem P "open_counter" (u32 s.open_counter) _ _ old st _ h refl λ a la.
        take_mem_lem P (published secret_size s.secret_buf) _ _ a _ la refl λ b lb.
          take_lem P "secret_len" (u32 s.secret_len) _ _ _ b _ lb refl λ c lc.
            take_lem P "read_offset" (u32 s.read_offset) _ _ _ c _ lc refl λ i li.
              take_lem P "secret_owner" (u32 s.secret_owner) _ _ _ i _ li refl λ j lj.
                take_lem P "has_owner" (u32 (flag s.has_owner)) _ _ _ j _ lj refl λ k lk.
                  take_lem P "read_fd_opened" (u32 (flag s.read_fd_opened)) _ _ _ k _ lk refl
                    λ l ll.
                      (refl, refl, subst IsGone (sym ll) (refl, refl, refl, refl, refl, refl, refl))

  restored-Same :
      (s old : SecretState)
      → InBounds s
      → s.open_counter < 2 ^ 32
      → s.secret_owner < 2 ^ 32
      → Same (restored s old) s
  restored-Same s old v few small = record {
    open_counter = omega arith;
    secret_owner = omega arith;
    has_owner = truth-flag s.has_owner;
    secret_buf = λ i h. read_back secret_size secret_size i s.secret_buf old.secret_buf h h;
    secret_len = omega arith;
    read_offset = omega arith;
    read_fd_opened = truth-flag s.read_fd_opened;
  }

  -- A live update keeps the secret: once a state within bounds, with a count and an owner below
  -- 2 ^ 32, has been saved with OK in a data store that keeps its documented laws, the restore
  -- in the new process, whatever its state, ends with OK and with the state saved, and no entry
  -- of the driver is left in the data store.
  pub lu_state_restore-save :
      (s old : SecretState) (st st' : Store)
      → InBounds s
      → s.open_counter < 2 ^ 32
      → s.secret_owner < 2 ^ 32
      → sef_cb_lu_state_save d s st ≡ (ok, st')
      → let r = (sef_cb_init d sef_init_lu old st').0 in
        (r.status ≡ ok) × Same r.state s × IsGone (look r.store)
  unfolding sef_cb_init
  lu_state_restore-save s old st st' v few small e =
      let (done, state, gone) = restore-Restores s old st' (look st) (save-look s st st' e) in
      (done, subst (λ x. Same x s) (sym state) (restored-Same s old v few small), gone)
