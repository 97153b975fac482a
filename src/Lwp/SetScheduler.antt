-- ===== src/Lwp/SetScheduler.antt =====
-- Asgn2/lwp.c, lwp_set_scheduler, and the interface of schedulers in Asgn2/lwp.h. A scheduler keeps a
-- state of its own; a thread is its address, and NULL is 0.
use csc.Prelude.{
  ℕ, zero, suc, ◌+◌, ◌-◌, ◌<◌, ◌≡◌, Bool, true, false, not, ◌&&◌, ◌||◌, ◌==◌, Option, none, some,
}

-- `struct scheduler`; `init` and `shutdown` may be NULL.
pub record Scheduler (S : Type 0) : Type 0 where
  pub init : Option (S → S)
  pub shutdown : Option (S → S)
  pub admit : ℕ → S → S
  pub remove_thread : ℕ → S → S
  pub next_thread : S → ℕ × S
  pub qlen : S → ℕ

-- A call through a pointer that may be NULL.
unfoldable pub call_if : {S : Type 0} → Option (S → S) → S → S
call_if none s = s
call_if (some f) s = f s

-- `fun`, or round robin for NULL
abbrev pub chosen : {A : Type 0} → A → Option A → A
chosen round_robin none = round_robin
chosen round_robin (some fun) = fun

-- The loop of the transfer, with the thread that `next` has given.
unfoldable pub transfer_loop : {S T : Type 0} → Scheduler S → Scheduler T → ℕ → ℕ → S → T → S × T
transfer_loop old new zero scheduler_thread s t = (s, t)
transfer_loop old new (suc left) scheduler_thread s t =
    let s' = old.remove_thread scheduler_thread s in
    let t' = new.admit scheduler_thread t in
    transfer_loop old new left (old.next_thread s').0 (old.next_thread s').1 t'

-- `is_current` is the test for the same pointer; `old` is the current scheduler, if there is one.
unfoldable pub lwp_set_scheduler :
    {S T : Type 0} → Bool → Option (Scheduler S) → Scheduler T → S → T → S × T
lwp_set_scheduler true old new s t = (s, t)
lwp_set_scheduler false none new s t = (s, call_if new.init t)
lwp_set_scheduler false (some old) new s t =
    let (scheduler_thread, s') = old.next_thread s in
    let (s'', t') = transfer_loop old new (old.qlen s') scheduler_thread s' (call_if new.init t) in
    (call_if old.shutdown s'', t')

-- What the library relies on: a scheduler keeps a pool of threads, `n` of them, given by the test
-- `m`, and `next` picks one of them.
pub record IsScheduler {S : Type 0} (ops : Scheduler S) : Type 1 where
  pub Pool : S → ℕ → (ℕ → Bool) → Type 0
  pub pool_ext :
      (s : S) (n : ℕ) (m m' : ℕ → Bool) → ((x : ℕ) → m x ≡ m' x) → Pool s n m → Pool s n m'
  pub pool_empty : (s : S) (m : ℕ → Bool) → Pool s 0 m → (x : ℕ) → m x ≡ false
  pub pool_nonnull : (s : S) (n : ℕ) (m : ℕ → Bool) → Pool s n m → (x : ℕ) → m x ≡ true → 0 < x
  pub admits :
      (s : S) (n : ℕ) (m : ℕ → Bool) (x : ℕ)
      → Pool s n m
      → 0 < x
      → m x ≡ false
      → Pool (ops.admit x s) (n + 1) (λ y. (y == x) || m y)
  pub removes :
      (s : S) (n : ℕ) (m : ℕ → Bool) (x : ℕ)
      → Pool s n m
      → m x ≡ true
      → Pool (ops.remove_thread x s) (n - 1) (λ y. not (y == x) && m y)
  pub picks :
      (s : S) (n : ℕ) (m : ℕ → Bool)
      → Pool s n m
      → Pool (ops.next_thread s).1 n m × (0 < n → m (ops.next_thread s).0 ≡ true)
  pub counts : (s : S) (n : ℕ) (m : ℕ → Bool) → Pool s n m → ops.qlen s ≡ n
