-- ===== src/Lwp/Switching.antt =====
-- Asgn2/lwp.c: the calls of the library, with changes of its scheduler between them.
use csc.Prelude.{false, some}
use csc.Lwp.SetScheduler.{Scheduler, IsScheduler, call_if, lwp_set_scheduler}
use csc.Lwp.Transfer.{lwp_set_scheduler-Pool}
use csc.Lwp.Library.{Library}
use csc.Lwp.Consistent.{IsSound}
use csc.Lwp.Yielding.{Idles}
use csc.Lwp.Reachable.{Step, Step-IsSound, IsInitial, IsInitial-IsSound}

-- The same library over the state of another scheduler.
abbrev pub over : {S T : Type 0} → T → Library S → Library T
over t l = record {
  sched = t;
  curr_thread = l.curr_thread;
  live = l.live;
  waiting = l.waiting;
  zombies = l.zombies;
  zombie_thread = l.zombie_thread;
  tid = l.tid;
  stack = l.stack;
  status = l.status;
  exited = l.exited;
  freed = l.freed;
  fuel = l.fuel;
  curr_tid = l.curr_tid;
  stacksize = l.stacksize;
  state = l.state;
  word = l.word;
}

-- The program: `current_scheduler`, which keeps the laws, with the state of the library.
pub record Scheduled : Type 1 where
  pub carrier : Type 0
  pub current_scheduler : Scheduler carrier
  pub laws : IsScheduler current_scheduler
  pub idles : Idles laws
  pub library : Library carrier

-- `lwp_set_scheduler` with another scheduler than the current one, whose state is `t`.
abbrev pub set_scheduler :
    {T : Type 0} {new : Scheduler T} (laws : IsScheduler new)
    → Idles laws
    → T
    → Scheduled
    → Scheduled
set_scheduler {T} {new} laws idles t p = record {
  carrier = T;
  current_scheduler = new;
  laws = laws;
  idles = idles;
  library =
      over (lwp_set_scheduler false (some p.current_scheduler) new p.library.sched t).1 p.library;
}

-- A call of the library, or a change to another scheduler, which is empty after its `init`.
pub data Move (p : Scheduled) : Scheduled → Type 1 where
  calls :
      (l : Library p.carrier)
      → Step p.current_scheduler p.library l
      → Move p (record p { library = l })
  switches :
      {T : Type 0} {new : Scheduler T} (laws : IsScheduler new) (idles : Idles laws) (t : T)
      → laws.Pool (call_if new.init t) 0 (λ _. false)
      → Move p (set_scheduler laws idles t p)

pub data Run (p : Scheduled) : Scheduled → Type 1 where
  here : Run p p
  next : {q r : Scheduled} → Run p q → Move q r → Run p r

abbrev pub IsSoundLibrary : Scheduled → Type 0
IsSoundLibrary p = IsSound p.laws p.library

set_scheduler-IsSound :
    {T : Type 0} {new : Scheduler T} (laws : IsScheduler new) (idles : Idles laws) (t : T)
    → (p : Scheduled) → laws.Pool (call_if new.init t) 0 (λ _. false)
    → IsSoundLibrary p
    → IsSoundLibrary (set_scheduler laws idles t p)
set_scheduler-IsSound laws idles t p empty s =
    let c = s.consistent in
    let moved = lwp_set_scheduler-Pool p.laws laws p.library.sched t _ _ c.pooled.pool empty in
    record {
      ts = s.ts;
      ws = s.ws;
      zs = s.zs;
      consistent = record {
        queues = record {
          live = c.queues.live;
          waiting = c.queues.waiting;
          zombies = c.queues.zombies;
          sleepers = c.queues.sleepers;
          few = c.queues.few;
          fewer = c.queues.fewer;
          enough = c.queues.enough;
          word = c.queues.word;
        };
        pooled = record { awake = c.pooled.awake; pool = moved.0; number = c.pooled.number };
        split = record { lives = c.split.lives; dead = c.split.dead; once = c.split.once };
        ids = record {
          nonnull = c.ids.nonnull;
          named = c.ids.named;
          apart = c.ids.apart;
          kept = c.ids.kept;
        };
      };
      running = s.running;
    }

Move-IsSound : {p q : Scheduled} → Move p q → IsSoundLibrary p → IsSoundLibrary q
Move-IsSound {p} (calls l step) s = Step-IsSound p.laws p.idles step s
Move-IsSound {p} (switches laws idles t empty) s = set_scheduler-IsSound laws idles t p empty s

-- Suppose that every scheduler that the program uses keeps the laws of the interface, has no next thread
-- when it is empty, and is empty after its `init` when the library changes to it; that malloc answers
-- with memory that is not in use, and that not so many threads are made that ids wrap around. Then in
-- every state that calls of the library and changes of its scheduler reach from the start, in any
-- order, while the process goes on: the three queues are well-formed, and a search reaches their end;
-- the waiting threads are live, and the current scheduler has exactly the live threads that do not
-- wait; no live thread is terminated, and every zombie is terminated, is not live and has one wrapper;
-- the known threads have different ids and are not freed; and the running thread, if there is one, is
-- one that the scheduler has.
pub Run-IsSound : {p q : Scheduled} → IsInitial p.laws p.library → Run p q → IsSoundLibrary q
Run-IsSound {p} i here = IsInitial-IsSound p.laws p.idles p.library i
Run-IsSound i (next run move) = Move-IsSound move (Run-IsSound i run)
