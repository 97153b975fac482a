-- ===== src/Lwp/Reachable.antt =====
-- Asgn2/lwp.c: the calls of the library as steps, and its state at the start.
use csc.Prelude.{
  ℕ, ◌<◌, ◌≤◌, ◌^◌, ◌≡◌, refl, subst, Bool, true, false, [], arith, Option, some, inl, inr,
}
use csc.Lwp.ThreadQueue.{null}
use csc.Lwp.SetScheduler.{Scheduler, IsScheduler}
use csc.Lwp.Library.{Library, lwp_yield, lwp_exit, lwp_wait, lwp_wait_resumed}
use csc.Lwp.Create.{lwp_create, lwp_start}
use csc.Lwp.Consistent.{IsSound}
use csc.Lwp.Calls.{IsNewNode, IsNewThread, lwp_exit-IsSound}
use csc.Lwp.Waits.{waits_on, lwp_wait_resumed-IsSound, lwp_wait-IsSound}
use csc.Lwp.Creation.{lwp_create-IsSound, lwp_start-IsSound}
use csc.Lwp.Yielding.{Idles, goes_on, lwp_yield-IsSound}

-- A call after which the process goes on. The running thread makes it, in any order: the code of a
-- thread may call what it likes, and a thread that is resumed in its wait goes on there.
pub data Step {S : Type 0} (ops : Scheduler S) (l : Library S) : Library S → Type 0 where
  creates :
      (lwp_exit_at lwp_wrap_at new_thread : ℕ) (limit page mapped : Option ℕ)
      → (function argument : ℕ) (l' : Library S) → IsNewThread l new_thread
      → (lwp_create ops lwp_exit_at lwp_wrap_at
          (some new_thread)
          limit
          page
          mapped
          function
          argument
          l).1
        ≡ l'
      → Step ops l l'
  starts :
      (unmapped : Bool) (new_thread : ℕ) (l' : Library S)
      → IsNewThread l new_thread
      → goes_on (lwp_start ops unmapped (some new_thread) l).0 ≡ true
      → (lwp_start ops unmapped (some new_thread) l).1 ≡ l'
      → Step ops l l'
  yields :
      (unmapped : Bool) (l' : Library S)
      → goes_on (lwp_yield ops unmapped l).0 ≡ true
      → (lwp_yield ops unmapped l).1 ≡ l'
      → Step ops l l'
  ends :
      (unmapped : Bool) (node exit_status : ℕ) (l' : Library S)
      → IsNewNode l.zombies node
      → goes_on (lwp_exit ops (some node) unmapped exit_status l).0 ≡ true
      → (lwp_exit ops (some node) unmapped exit_status l).1 ≡ l'
      → Step ops l l'
  waits :
      (unmapped : Bool) (l' : Library S)
      → waits_on (lwp_wait ops unmapped l).0 ≡ true
      → (lwp_wait ops unmapped l).1 ≡ l'
      → Step ops l l'
  resumes :
      (unmapped : Bool) (l' : Library S)
      → waits_on (lwp_wait_resumed ops unmapped l).0 ≡ true
      → (lwp_wait_resumed ops unmapped l).1 ≡ l'
      → Step ops l l'

-- The static variables at the start of the program, with a fuel that fits a word, and a scheduler
-- without threads.
pub record IsInitial {S : Type 0} {ops : Scheduler S} (laws : IsScheduler ops) (l : Library S)
    : Type 0 where
  pub no_live : (l.live.head ≡ null) × (l.live.tail ≡ null)
  pub no_waiting : (l.waiting.head ≡ null) × (l.waiting.tail ≡ null)
  pub no_zombies : (l.zombies.head ≡ null) × (l.zombies.tail ≡ null)
  pub no_curr : l.curr_thread ≡ null
  pub first_tid : l.curr_tid ≡ 1
  pub fuelled : (1 ≤ l.fuel) × (l.fuel < 2 ^ 64)
  pub no_threads : laws.Pool l.sched 0 (λ x. false)

module _ {S : Type 0} {ops : Scheduler S} (laws : IsScheduler ops) (idles : Idles laws) where
  pub IsInitial-IsSound : (l : Library S) → IsInitial laws l → IsSound laws l
  IsInitial-IsSound l i = record {
    ts = [];
    ws = [];
    zs = [];
    consistent = record {
      queues = record {
        live = record { chain = i.no_live.0; tail_last = i.no_live.1; distinct = tt };
        waiting = record { chain = i.no_waiting.0; tail_last = i.no_waiting.1; distinct = tt };
        zombies = record { chain = i.no_zombies.0; tail_last = i.no_zombies.1; distinct = tt };
        sleepers = λ x h. h;
        few = let a = i.first_tid in omega (arith, a);
        fewer = omega arith;
        enough = let a = i.first_tid in let b = i.fuelled in omega (arith, a, b);
        word = i.fuelled.1;
      };
      pooled = record { awake = 0; pool = i.no_threads; number = refl };
      split = record { lives = λ x h. cc; dead = λ z h. cc; once = λ y z h. cc };
      ids = record {
        nonnull = λ x k. elim k [ inl h ↦ cc | inr (z, h, e) ↦ cc ];
        named = λ x k. elim k [ inl h ↦ cc | inr (z, h, e) ↦ cc ];
        apart = λ x y k. elim k [ inl h ↦ cc | inr (z, h, e) ↦ cc ];
        kept = λ x k. elim k [ inl h ↦ cc | inr (z, h, e) ↦ cc ];
      };
    };
    running = λ pos. absurd (let a = i.no_curr in omega (arith, a, pos));
  }

  pub Step-IsSound : {l l' : Library S} → Step ops l l' → IsSound laws l → IsSound laws l'
  Step-IsSound {l} (creates e w new_thread limit page mapped f a l' new same) s =
      subst (IsSound laws) same
        (lwp_create-IsSound laws idles e w new_thread limit page mapped f a l s new)
  Step-IsSound {l} (starts u new_thread l' new goes same) s =
      subst (IsSound laws) same (lwp_start-IsSound laws idles u new_thread l s new goes)
  Step-IsSound {l} (yields u l' goes same) s =
      subst (IsSound laws) same
        (lwp_yield-IsSound laws idles u l s.ts s.ws s.zs s.consistent (λ e lives. s.running) goes)
  Step-IsSound {l} (ends u node status l' new goes same) s =
      subst (IsSound laws) same (lwp_exit-IsSound laws idles u l node status s new goes)
  Step-IsSound {l} (waits u l' goes same) s =
      subst (IsSound laws) same (lwp_wait-IsSound laws idles u l s goes)
  Step-IsSound {l} (resumes u l' goes same) s =
      subst (IsSound laws) same (lwp_wait_resumed-IsSound laws idles u l s goes)
