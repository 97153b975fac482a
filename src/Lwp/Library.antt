-- ===== src/Lwp/Library.antt =====
-- Asgn2/lwp.c: the state of the library, with lwp_yield, lwp_exit, lwp_wait, reap_and_remove and lwp_gettid.
-- The scheduler in use is a parameter. A call that passes control to another thread or ends the
-- process says so in its result; what a caller does after it is resumed is an operation of its own.
use csc.Prelude.{ℕ, Bool, true, not, ◌&&◌, ◌==◌, leb, Option, none, some, if◌then◌else◌}
use csc.Lwp.ThreadQueue.{
  null, NodeQueue, remove_live, insert_waiting, remove_waiting, insert_zombie, remove_zombie,
  find_zombie,
}
use csc.Lwp.SetScheduler.{Scheduler}
use csc.Lwp.Registers.{Registers}
use csc.Lwp.Words.{mktermstat, lwpterminated, lwptermstat, lwp_term}

abbrev pub no_thread : ℕ
no_thread = 0

abbrev pub exit_failure : ℕ
exit_failure = 1

-- The static variables, the fields of the threads by address, and the words of the stacks. `fuel` bounds
-- the queues, and `freed` tells which threads have been freed.
pub record Library (S : Type 0) : Type 0 where
  pub sched : S
  pub curr_thread : ℕ
  pub live : NodeQueue
  pub waiting : NodeQueue
  pub zombies : NodeQueue
  pub zombie_thread : ℕ → ℕ
  pub tid : ℕ → ℕ
  pub stack : ℕ → ℕ
  pub status : ℕ → ℕ
  pub exited : ℕ → ℕ
  pub freed : ℕ → Bool
  pub fuel : ℕ
  pub curr_tid : ℕ
  pub stacksize : ℕ → ℕ
  pub state : ℕ → Registers
  pub word : ℕ → ℕ

-- How a call ends: it returns, `swap_rfiles` passes control, or the process exits.
pub data Control : Type 0 where
  returns : Control
  swaps : (from to : ℕ) → Control
  exits : (code : ℕ) → Control

-- How a wait ends: it returns a thread id and the status for the caller, if there is one; it blocks; or
-- the process exits.
pub data Waited : Type 0 where
  reaped : (tid : ℕ) → (status : Option ℕ) → Waited
  blocks : Control → Waited
  dies : (code : ℕ) → Waited

-- `unmapped` is whether `munmap` succeeds.
unfoldable pub reap_and_remove : {S : Type 0} → Bool → ℕ → Library S → Waited × Library S
reap_and_remove unmapped dead_thread l =
    if dead_thread == null
    then (reaped no_thread none, l)
    else if find_zombie l.fuel l.zombie_thread dead_thread l.zombies == null
    then (reaped no_thread none, l)
    else let l' = record l {
      zombies = remove_zombie l.fuel l.zombie_thread dead_thread l.zombies;
    } in
      if not (l.stack dead_thread == null) && not unmapped then (dies exit_failure, l') else (
        reaped (l.tid dead_thread) (some (lwptermstat (l.status dead_thread))),
        record l' { freed = λ t. if t == dead_thread then true else l.freed t },
      )

module _ {S : Type 0} (ops : Scheduler S) where
  -- The last thread has terminated: the converted system thread is reaped.
  unfoldable pub last_exit : Bool → Library S → Control × Library S
  last_exit unmapped l =
      let code = lwptermstat (l.status l.curr_thread) in
      if l.stack l.curr_thread == null
      then (
        exits code,
        record ((reap_and_remove unmapped l.curr_thread l).1) { curr_thread = null },
      )
      else (exits code, l)

  unfoldable pub lwp_yield : Bool → Library S → Control × Library S
  lwp_yield unmapped l =
      let (next_thread, s) = ops.next_thread l.sched in
      let l' = record l { sched = s } in
      if next_thread == null
      then if l.curr_thread == null
        then (returns, l')
        else if not (lwpterminated (l.status l.curr_thread))
        then (returns, l')
        else last_exit unmapped l'
      else if l.curr_thread == next_thread
      then (returns, l')
      else (swaps l.curr_thread next_thread, record l' { curr_thread = next_thread })

  -- `lwp_exit`: the oldest waiting thread is told whom to reap, and wakes.
  unfoldable pub wake_waiter : Library S → Library S
  wake_waiter l =
      let thread_to_wake = l.waiting.head in
      if thread_to_wake == null then l else record l {
        exited = λ t. if t == thread_to_wake then l.curr_thread else l.exited t;
        sched = ops.admit thread_to_wake l.sched;
        waiting = remove_waiting l.fuel thread_to_wake l.waiting;
      }

  -- `lwp_exit` up to its yield; no result where `malloc` has no wrapper for the zombie.
  unfoldable pub terminate : Option ℕ → ℕ → Library S → Option (Library S)
  terminate new_zombie exit_status l =
      elim (insert_zombie new_zombie l.curr_thread l.zombie_thread l.zombies) [
        | none ↦ none
        | some (threads, zs) ↦ some (
            wake_waiter (record l {
              status =
                  λ t. if t == l.curr_thread then mktermstat lwp_term exit_status else l.status t;
              zombie_thread = threads;
              zombies = zs;
              sched = ops.remove_thread l.curr_thread l.sched;
              live = remove_live l.fuel l.curr_thread l.live;
            }))
      ]

  unfoldable pub lwp_exit : Option ℕ → Bool → ℕ → Library S → Control × Library S
  lwp_exit new_zombie unmapped exit_status l =
      if l.curr_thread == null then (returns, l) else elim (terminate new_zombie exit_status l) [
        | none ↦ (exits exit_failure, l)
        | some l' ↦ lwp_yield unmapped l'
      ]

  -- The thread that is left for the caller in `exited`, which is cleared.
  unfoldable pub reap_exited : Bool → Library S → Waited × Library S
  reap_exited unmapped l =
      reap_and_remove unmapped (l.exited l.curr_thread)
        (record l { exited = λ t. if t == l.curr_thread then null else l.exited t })

  unfoldable pub lwp_wait : Bool → Library S → Waited × Library S
  lwp_wait unmapped l =
      if l.curr_thread == null
      then (reaped no_thread none, l)
      else if not (l.exited l.curr_thread == null)
      then reap_exited unmapped l
      else if not (l.zombies.head == null)
      then reap_and_remove unmapped (l.zombie_thread l.zombies.head) l
      else if leb (ops.qlen l.sched) 1
      then (reaped no_thread none, l)
      else let (control, l') = lwp_yield unmapped (record l {
        sched = ops.remove_thread l.curr_thread l.sched;
        waiting = insert_waiting l.curr_thread l.waiting;
      }) in
        (blocks control, l')

  -- `lwp_wait` after its yield, when the caller runs again.
  unfoldable pub lwp_wait_resumed : Bool → Library S → Waited × Library S
  lwp_wait_resumed unmapped l =
      if l.exited l.curr_thread == null then (reaped no_thread none, l) else reap_exited unmapped l

  unfoldable pub lwp_gettid : Library S → ℕ
  lwp_gettid l = if l.curr_thread == null then no_thread else l.tid l.curr_thread
