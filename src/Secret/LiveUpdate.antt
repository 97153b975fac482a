-- ===== src/Secret/LiveUpdate.antt =====
-- Asgn4/secret.c: the state in the data store of MINIX during a live update, and the start-up.
-- The data store is not part of the repository: it is a parameter with its documented behaviour.
use Prim.Native.String.{String}
use text.Mathlib.Text.{◌==◌ as str_eq}
use csc.Prelude.{
  ℕ, zero, suc, ◌+◌, ◌%◌, ◌^◌, ◌≡◌, Bool, true, false, Option, none, some, List, [], ◌∷◌, ◌==◌,
  if◌then◌else◌,
}
use csc.Secret.Driver.{
  SecretState, Status, ok, failed, Answer, answer, refuse, secret_size, reset_secret_state,
}

abbrev pub u32 : ℕ → ℕ
u32 n = n % 2 ^ 32

-- The first bytes of a memory, and a memory over whose first bytes a list is written.
unfoldable pub published : (size : ℕ) → (ℕ → ℕ) → List ℕ
published zero b = []
published (suc size) b = b 0 ∷ published size (λ i. b (i + 1))

unfoldable pub overlay : List ℕ → (ℕ → ℕ) → ℕ → ℕ
overlay [] m i = m i
overlay (x ∷ xs) m zero = x
overlay (x ∷ xs) m (suc i) = overlay xs (λ j. m (j + 1)) i

-- The first elements of a list.
abbrev pub first_bytes : ℕ → List ℕ → List ℕ
first_bytes zero xs = []
first_bytes (suc size) [] = []
first_bytes (suc size) (x ∷ xs) = x ∷ first_bytes size xs

-- The calls of the data store. A publish or a delete answers with the store that it leaves; a
-- status other than OK leaves the store alone. A memory is published from its first bytes, of which the
-- size is given; a retrieval of it answers with the bytes that it copies into the caller's buffer.
pub record DataStore : Type 1 where
  pub Store : Type 0
  pub publish_u32 : String → ℕ → Store → Answer Store
  pub publish_mem : String → (ℕ → ℕ) → ℕ → Store → Answer Store
  pub retrieve_u32 : String → Store → Answer ℕ
  pub retrieve_mem : String → ℕ → Store → Answer (List ℕ)
  pub delete_u32 : String → Store → Answer Store
  pub delete_mem : String → Store → Answer Store

-- The numbers of the state that is saved, each under its name.
abbrev pub flag : Bool → ℕ
flag b = if b then 1 else 0

-- `(int) value` used as a truth value
abbrev pub truth : ℕ → Bool
truth n = if n == 0 then false else true

module _ (d : DataStore) where
  open d use {Store, publish_u32, publish_mem, retrieve_u32, retrieve_mem, delete_u32, delete_mem}

  -- The status of a call; with OK the next call is made.
  abbrev pub after : Answer Store → Store → (Store → Status × Store) → Status × Store
  after (refuse e) st next = (failed e, st)
  after (answer st') st next = next st'

  abbrev put : String → ℕ → (Store → Status × Store) → Store → Status × Store
  put k n next st = after (publish_u32 k (u32 n) st) st next

  unfoldable pub sef_cb_lu_state_save : SecretState → Store → Status × Store
  sef_cb_lu_state_save s = put "open_counter" s.open_counter λ st.
      after (publish_mem "secret_buf" s.secret_buf secret_size st) st (
        put "secret_len" s.secret_len (
          put "read_offset" s.read_offset (
            put "secret_owner" s.secret_owner (
              put "has_owner" (flag s.has_owner)
                (put "read_fd_opened" (flag s.read_fd_opened) (λ st'. (ok, st')))))))

  -- What a restore leaves: its status, the state and the store.
  pub record Restored : Type 0 where
    pub status : Status
    pub state : SecretState
    pub store : Store

  abbrev halt : ℕ → SecretState → Store → Restored
  halt e s st = record { status = failed e; state = s; store = st }

  -- Retrieve a number, keep it, and delete its entry.
  unfoldable pub take :
      String
      → (ℕ → SecretState → SecretState)
      → (SecretState → Store → Restored)
      → SecretState
      → Store
      → Restored
  take k keep next s st = elim (retrieve_u32 k st) [
    | refuse e ↦ halt e s st
    | answer n ↦ elim (delete_u32 k st) [
      | refuse e ↦ halt e (keep n s) st
      | answer st' ↦ next (keep n s) st'
    ]
  ]

  unfoldable pub take_mem : (SecretState → Store → Restored) → SecretState → Store → Restored
  take_mem next s st = elim (retrieve_mem "secret_buf" secret_size st) [
    | refuse e ↦ halt e s st
    | answer copied ↦
        let s' = record s { secret_buf = overlay copied s.secret_buf } in
        elim (delete_mem "secret_buf" st) [ refuse e ↦ halt e s' st | answer st' ↦ next s' st' ]
  ]

  unfoldable pub lu_state_restore : SecretState → Store → Restored
  lu_state_restore =
      take "open_counter" (λ n s. record s { open_counter = n })
        (take_mem (
          take "secret_len" (λ n s. record s { secret_len = n })
            (take "read_offset" (λ n s. record s { read_offset = n })
              (take "secret_owner" (λ n s. record s { secret_owner = n })
                (take "has_owner" (λ n s. record s { has_owner = truth n })
                  (take "read_fd_opened" (λ n s. record s { read_fd_opened = truth n })
                    (λ s st. record { status = ok; state = s; store = st })))))))

  pub data InitType : Type 0 where
    sef_init_fresh sef_init_lu sef_init_restart : InitType

  -- The result of a start, and whether the driver announces itself.
  unfoldable pub sef_cb_init : InitType → SecretState → Store → Restored × Bool
  sef_cb_init sef_init_fresh s st =
      (record { status = ok; state = reset_secret_state; store = st }, true)
  sef_cb_init sef_init_lu s st = (lu_state_restore s st, false)
  sef_cb_init sef_init_restart s st =
      (record { status = ok; state = reset_secret_state; store = st }, true)

-- An entry of the data store.
pub data Entry : Type 0 where
  number : ℕ → Entry
  memory : List ℕ → Entry

abbrev pub update : (String → Option Entry) → String → Option Entry → String → Option Entry
update f k e j = if str_eq k j then e else f j

-- What the driver relies on of the data store: it maps names to entries; a publish that succeeds sets
-- one entry, of a memory as many bytes as are published; a number that is there is read back as it is,
-- and of a memory that is there as many bytes as the buffer takes; and its delete succeeds.
pub record IsDataStore (d : DataStore) : Type 0 where
  pub look : DataStore.Store d → String → Option Entry
  pub publish_u32-look :
      (k : String) (n : ℕ) (st st' : DataStore.Store d)
      → DataStore.publish_u32 d k n st ≡ answer st'
      → look st' ≡ update (look st) k (some (number n))
  pub publish_mem-look :
      (k : String) (b : ℕ → ℕ) (size : ℕ) (st st' : DataStore.Store d)
      → DataStore.publish_mem d k b size st ≡ answer st'
      → look st' ≡ update (look st) k (some (memory (published size b)))
  pub retrieve_u32-look :
      (k : String) (n : ℕ) (st : DataStore.Store d)
      → look st k ≡ some (number n)
      → DataStore.retrieve_u32 d k st ≡ answer n
  pub retrieve_mem-look :
      (k : String) (b : List ℕ) (size : ℕ) (st : DataStore.Store d)
      → look st k ≡ some (memory b)
      → DataStore.retrieve_mem d k size st ≡ answer (first_bytes size b)
  pub delete_u32-look :
      (k : String) (n : ℕ) (st : DataStore.Store d)
      → look st k ≡ some (number n)
      → (st' : DataStore.Store d) × (DataStore.delete_u32 d k st ≡ answer st')
        × (look st' ≡ update (look st) k none)
  pub delete_mem-look :
      (k : String) (b : List ℕ) (st : DataStore.Store d)
      → look st k ≡ some (memory b)
      → (st' : DataStore.Store d) × (DataStore.delete_mem d k st ≡ answer st')
        × (look st' ≡ update (look st) k none)
