-- ===== src/Lwp/Consistent.antt =====
-- Asgn2/lwp.c: the invariant of the library's state. A thread is live, or a zombie, or unknown to the
-- library; of the live ones those that do not wait are in the scheduler.
use csc.Prelude.{ℕ, ◌+◌, ◌^◌, ◌<◌, ◌≤◌, ◌≡◌, ◌⊎◌, Bool, true, false, not, ◌&&◌, List, length}
use csc.Scheduler.Links.{has}
use csc.Lwp.Chains.{Queued}
use csc.Lwp.SetScheduler.{Scheduler, IsScheduler}
use csc.Lwp.Words.{lwpterminated}
use csc.Lwp.Library.{Library}

-- Of the live threads, one that does not wait.
abbrev pub ready : List ℕ → List ℕ → ℕ → Bool
ready ts ws x = has x ts && not (has x ws)

-- A zombie: one of the nodes `zs` is its wrapper.
abbrev pub IsDead : (ℕ → ℕ) → List ℕ → ℕ → Type 0
IsDead zombie_thread zs x = (z : ℕ) × (has z zs ≡ true) × (zombie_thread z ≡ x)

-- A thread that the library knows.
abbrev pub IsKnown : {S : Type 0} → Library S → List ℕ → List ℕ → ℕ → Type 0
IsKnown l ts zs x = (has x ts ≡ true) ⊎ IsDead l.zombie_thread zs x

-- The threads that the library knows have ids of their own, below the next one, and are not freed.
pub record IsNamed {S : Type 0} (l : Library S) (ts zs : List ℕ) : Type 0 where
  pub nonnull : (x : ℕ) → IsKnown l ts zs x → 0 < x
  pub named : (x : ℕ) → IsKnown l ts zs x → (0 < l.tid x) × (l.tid x < l.curr_tid)
  pub apart : (x y : ℕ) → IsKnown l ts zs x → IsKnown l ts zs y → l.tid x ≡ l.tid y → x ≡ y
  pub kept : (x : ℕ) → IsKnown l ts zs x → l.freed x ≡ false

-- The live threads are not terminated. A zombie is, is not live, and has one wrapper.
pub record IsSplit {S : Type 0} (l : Library S) (ts zs : List ℕ) : Type 0 where
  pub lives : (x : ℕ) → has x ts ≡ true → lwpterminated (l.status x) ≡ false
  pub dead :
      (z : ℕ)
      → has z zs ≡ true
      → (has (l.zombie_thread z) ts ≡ false) × (lwpterminated (l.status (l.zombie_thread z)) ≡ true)
  pub once :
      (y z : ℕ) → has y zs ≡ true → has z zs ≡ true → l.zombie_thread y ≡ l.zombie_thread z → y ≡ z

-- The queues hold the live threads `ts`, the waiting ones `ws` and the wrappers `zs`, and the fuel
-- reaches to the end of each.
pub record AreQueues {S : Type 0} (l : Library S) (ts ws zs : List ℕ) : Type 0 where
  pub live : Queued l.live ts
  pub waiting : Queued l.waiting ws
  pub zombies : Queued l.zombies zs
  pub sleepers : (x : ℕ) → has x ws ≡ true → has x ts ≡ true
  pub few : length ts + length zs < l.curr_tid
  pub fewer : length ws ≤ length ts
  pub enough : l.curr_tid ≤ l.fuel
  pub word : l.fuel < 2 ^ 64

module _ {S : Type 0} {ops : Scheduler S} (laws : IsScheduler ops) where
  -- The scheduler has the threads that are ready.
  pub record IsPooled (l : Library S) (ts ws : List ℕ) : Type 0 where
    pub awake : ℕ
    pub pool : laws.Pool l.sched awake (ready ts ws)
    pub number : awake + length ws ≡ length ts

  pub record IsConsistent (l : Library S) (ts ws zs : List ℕ) : Type 0 where
    pub queues : AreQueues l ts ws zs
    pub pooled : IsPooled l ts ws
    pub split : IsSplit l ts zs
    pub ids : IsNamed l ts zs

  -- The running thread is one that is ready; there is none before the library is started.
  abbrev pub IsRunning : Library S → List ℕ → List ℕ → Type 0
  IsRunning l ts ws = 0 < l.curr_thread → ready ts ws l.curr_thread ≡ true

  -- A state of the library is sound: for some live threads, waiting threads and zombies it is consistent,
  -- and the running thread is ready.
  pub record IsSound (l : Library S) : Type 0 where
    pub ts : List ℕ
    pub ws : List ℕ
    pub zs : List ℕ
    pub consistent : IsConsistent l ts ws zs
    pub running : IsRunning l ts ws
