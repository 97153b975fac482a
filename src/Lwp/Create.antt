-- ===== src/Lwp/Create.antt =====
-- Asgn2/lwp.c: lwp_create, lwp_start and tid2thread. The answers of `malloc`, `getrlimit`, `sysconf` and
-- `mmap` are parameters, with no answer for a failure; so are the addresses of lwp_exit and lwp_wrap.
-- The links of the scheduler that are cleared here are set by `admit`, in the scheduler's own state.
use csc.Prelude.{ℕ, Bool, true, false, not, ◌==◌, Option, none, some, if◌then◌else◌}
use csc.Lwp.ThreadQueue.{null, NodeQueue, insert_live, find_zombie}
use csc.Lwp.SetScheduler.{Scheduler}
use csc.Lwp.Words.{assign_tid, get_stack_size, first_stack, lwp_live}
use csc.Lwp.Registers.{fpu_init}
use csc.Lwp.Library.{Library, Control, exits, exit_failure, no_thread, lwp_yield, lwp_exit}

abbrev pub fake_saved_bp : ℕ
fake_saved_bp = 0

-- A write at the address `p`.
abbrev pub set_field {ℓ} : {A : Type ℓ} → (ℕ → A) → ℕ → A → ℕ → A
set_field f p v q = if q == p then v else f q

-- The address of a thread that `malloc` gives is not a freed one any more; `free` makes it one again.
unfoldable pub malloc_thread : {S : Type 0} → ℕ → Library S → Library S
malloc_thread new_thread l = record l { freed = set_field l.freed new_thread false }

unfoldable pub free_thread : {S : Type 0} → ℕ → Library S → Library S
free_thread new_thread l = record l { freed = set_field l.freed new_thread true }

unfoldable pub name_thread : {S : Type 0} → ℕ → Library S → Library S
unfolding assign_tid
name_thread new_thread l =
    let (tid, next_tid) = assign_tid l.curr_tid in
    record l { curr_tid = next_tid; tid = set_field l.tid new_thread tid }

unfoldable pub clear_links : ℕ → NodeQueue → NodeQueue
clear_links new_thread q = record q { next = set_field q.next new_thread null }

-- What lwp_create and lwp_start have in common: a live thread with no links and nothing to reap, at the
-- end of the live queue and in the scheduler.
unfoldable pub enter_live : {S : Type 0} → Scheduler S → ℕ → Library S → Library S
unfolding clear_links
enter_live ops new_thread l = record l {
  status = set_field l.status new_thread lwp_live;
  exited = set_field l.exited new_thread null;
  live = insert_live new_thread (clear_links new_thread l.live);
  waiting = clear_links new_thread l.waiting;
  sched = ops.admit new_thread l.sched;
}

-- The stack of a new thread, with the three words at its top, and the registers that it starts with.
unfoldable pub first_context :
    {S : Type 0}
    → (lwp_exit_at lwp_wrap_at function argument : ℕ) → (new_thread stack_base stack_size : ℕ)
    → Library S
    → Library S
first_context lwp_exit_at lwp_wrap_at function argument new_thread stack_base stack_size l =
    let s = first_stack stack_base stack_size in
    record l {
      stack = set_field l.stack new_thread stack_base;
      stacksize = set_field l.stacksize new_thread stack_size;
      word =
          set_field
            (set_field (set_field l.word s.lwp_exit_return_pointer lwp_exit_at)
              s.wrapper_return_pointer lwp_wrap_at)
            s.saved_bp_pointer fake_saved_bp;
      state = set_field l.state new_thread (record (l.state new_thread) {
        rdi = function;
        rsi = argument;
        rsp = s.rsp;
        rbp = s.rbp;
        fxsave = fpu_init;
      });
    }

module _ {S : Type 0} (ops : Scheduler S) where
  -- Once there is a thread, with an id, and a stack size.
  unfoldable pub create_with :
      (lwp_exit_at lwp_wrap_at function argument : ℕ)
      → (new_thread stack_size : ℕ) (mapped : Option ℕ) → Library S
      → ℕ × Library S
  create_with lwp_exit_at lwp_wrap_at function argument new_thread stack_size mapped l =
      if stack_size == 0 then (no_thread, free_thread new_thread l) else elim mapped [
        | none ↦ (no_thread, free_thread new_thread l)
        | some stack_base ↦ (
          l.tid new_thread,
          enter_live ops new_thread (
              first_context lwp_exit_at lwp_wrap_at function argument new_thread stack_base
                stack_size l),
        )
      ]

  unfoldable pub lwp_create :
      (lwp_exit_at lwp_wrap_at : ℕ) (thread limit page mapped : Option ℕ)
      → (function argument : ℕ) → Library S
      → ℕ × Library S
  lwp_create lwp_exit_at lwp_wrap_at thread limit page mapped function argument l = elim thread [
    | none ↦ (no_thread, l)
    | some new_thread ↦
        create_with lwp_exit_at lwp_wrap_at function argument new_thread (get_stack_size limit page)
          mapped (name_thread new_thread (malloc_thread new_thread l))
  ]

  -- The calling thread keeps the stack that it has.
  unfoldable pub start_with : ℕ → Library S → Library S
  start_with new_thread l =
      let l' = name_thread new_thread (malloc_thread new_thread l) in
      record (enter_live ops new_thread (record l' {
        stack = set_field l.stack new_thread null;
        stacksize = set_field l.stacksize new_thread 0;
      })) { curr_thread = new_thread }

  unfoldable pub lwp_start : Bool → Option ℕ → Library S → Control × Library S
  lwp_start unmapped thread l = elim thread [
    | none ↦ (exits exit_failure, l)
    | some new_thread ↦ lwp_yield ops unmapped (start_with new_thread l)
  ]

  -- `fun` gives the value that the thread's function returns, and the state when it does, which depends on
  -- all threads.
  unfoldable pub lwp_wrap :
      Option ℕ → Bool → (ℕ → Library S → ℕ × Library S) → ℕ → Library S → Control × Library S
  lwp_wrap new_zombie unmapped fun arg l =
      let (rval, l') = fun arg l in lwp_exit ops new_zombie unmapped rval l'

-- A loop of tid2thread: the first node whose thread has the id, or NULL.
unfoldable pub find_tid : {S : Type 0} → (ℕ → ℕ) → NodeQueue → ℕ → Library S → ℕ
find_tid thread_of q tid l = find_zombie l.fuel (λ p. l.tid (thread_of p)) tid q

unfoldable pub tid2thread : {S : Type 0} → ℕ → Library S → ℕ
unfolding find_tid
tid2thread tid l =
    let live_thread = find_tid (λ p. p) l.live tid l in
    let waiting_thread = find_tid (λ p. p) l.waiting tid l in
    let curr_zombie = find_tid l.zombie_thread l.zombies tid l in
    if not (live_thread == null)
    then live_thread
    else if not (waiting_thread == null)
    then waiting_thread
    else if not (curr_zombie == null)
    then l.zombie_thread curr_zombie
    else null
