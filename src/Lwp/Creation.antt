-- ===== src/Lwp/Creation.antt =====
-- Asgn2/lwp.c, lwp_create and lwp_start: a thread is made, or none, and the invariant is kept.
use csc.Prelude.{
  ℕ, ◌+◌, ◌%◌, ◌^◌, ◌<◌, ◌≡◌, ◌⊎◌, refl, sym, ◌∙◌, Bool, true, false, ◌==◌, List, [], ◌∷◌, ◌++◌,
  arith, Bool-cases, inl, inr, Option, none, some,
}
use native.Mathlib.Nat.{mod-eq_of_lt}
use csc.Scheduler.Links.{has}
use csc.Lwp.ThreadQueue.{null}
use csc.Lwp.SetScheduler.{Scheduler, IsScheduler}
use csc.Lwp.Words.{get_stack_size, FirstStack, first_stack}
use csc.Lwp.Registers.{Registers, fpu_init}
use csc.Lwp.Library.{Library, no_thread}
use csc.Lwp.Create.{
  set_field, fake_saved_bp, malloc_thread, free_thread, name_thread, enter_live, first_context,
  create_with, lwp_create, start_with, lwp_start,
}
use csc.Lwp.Consistent.{IsKnown, IsConsistent, IsSound}
use csc.Lwp.Ending.{has-snoc}
use csc.Lwp.Entering.{IsFresh, known_other, set_field-other, Rest, entered, enters}
use csc.Lwp.Calls.{IsNewThread, IsNewThread-IsFresh}
use csc.Lwp.Yielding.{Idles, goes_on, lwp_yield-IsSound}

-- The registers of a thread that has been given a first stack.
abbrev pub first_registers : FirstStack → (function argument : ℕ) → Registers → Registers
first_registers s function argument r = record r {
  rdi = function;
  rsi = argument;
  rsp = s.rsp;
  rbp = s.rbp;
  fxsave = fpu_init;
}

-- The fields of a state with a stack and registers for a new thread.
abbrev pub created_rest :
    {S : Type 0}
    → (lwp_exit_at lwp_wrap_at function argument new_thread stack_base stack_size : ℕ) → Library S
    → Rest
created_rest lwp_exit_at lwp_wrap_at function argument new_thread stack_base stack_size l =
    let s = first_stack stack_base stack_size in
    record {
      curr_thread = l.curr_thread;
      stack = set_field l.stack new_thread stack_base;
      stacksize = set_field l.stacksize new_thread stack_size;
      exited = set_field l.exited new_thread null;
      state =
          set_field l.state new_thread (first_registers s function argument (l.state new_thread));
      word =
          set_field
            (set_field (set_field l.word s.lwp_exit_return_pointer lwp_exit_at)
              s.wrapper_return_pointer lwp_wrap_at)
            s.saved_bp_pointer fake_saved_bp;
    }

-- The state after a creation that has failed with a thread: an id is used up.
abbrev pub used_up : {S : Type 0} → ℕ → Library S → Library S
used_up new_thread l = record l {
  curr_tid = (l.curr_tid + 1) % 2 ^ 64;
  tid = set_field l.tid new_thread l.curr_tid;
  freed = set_field (set_field l.freed new_thread false) new_thread true;
}

pub lwp_create_fails :
    {S : Type 0} (ops : Scheduler S) (lwp_exit_at lwp_wrap_at new_thread : ℕ)
    → (limit page mapped : Option ℕ) (function argument : ℕ) (l : Library S)
    → (get_stack_size limit page ≡ 0) ⊎ (mapped ≡ none)
    → lwp_create ops lwp_exit_at lwp_wrap_at (some new_thread) limit page mapped function argument l
      ≡ (no_thread, used_up new_thread l)
unfolding lwp_create create_with name_thread malloc_thread free_thread
lwp_create_fails ops lwp_exit_at lwp_wrap_at new_thread limit page mapped function argument l
      (inl zero_size) =
    let z : (get_stack_size limit page == 0) ≡ true = ground arith in rw z refl
lwp_create_fails ops lwp_exit_at lwp_wrap_at new_thread limit page mapped function argument l
      (inr no_stack) =
    elim (Bool-cases (get_stack_size limit page == 0)) [
      | inl z ↦ rw z refl
      | inr nz ↦ rw (nz, no_stack) refl
    ]

pub lwp_create_succeeds :
    {S : Type 0} (ops : Scheduler S) (lwp_exit_at lwp_wrap_at new_thread stack_base : ℕ)
    → (limit page : Option ℕ) (function argument : ℕ) (l : Library S)
    → 0 < get_stack_size limit page
    → lwp_create ops lwp_exit_at lwp_wrap_at
        (some new_thread)
        limit
        page
        (some stack_base)
        function
        argument
        l
      ≡ (
        l.curr_tid,
        entered ops new_thread
            (created_rest lwp_exit_at lwp_wrap_at function argument new_thread stack_base
              (get_stack_size limit page)
              l)
            l,
      )
unfolding lwp_create create_with name_thread malloc_thread enter_live first_context
lwp_create_succeeds ops lwp_exit_at lwp_wrap_at new_thread stack_base limit page function argument l
      big =
    let nz : (get_stack_size limit page == 0) ≡ false = ground arith in
    let same : (new_thread == new_thread) ≡ true = ground arith in rw (nz, same) refl

module _ {S : Type 0} {ops : Scheduler S} (laws : IsScheduler ops) (idles : Idles laws) where
  used_up-IsConsistent :
      (l : Library S) (new_thread : ℕ) (ts ws zs : List ℕ)
      → IsConsistent laws l ts ws zs
      → IsFresh l ts zs new_thread
      → IsConsistent laws (used_up new_thread l) ts ws zs
  used_up-IsConsistent l new_thread ts ws zs k fresh =
      let q = k.queues in
      let n = k.ids in
      let next : (l.curr_tid + 1) % 2 ^ 64 ≡ l.curr_tid + 1 =
        mod-eq_of_lt (let a = fresh.few_ids in let b = q.word in omega (arith, a, b)) in
      let tid_of = λ (x : ℕ) (o : IsKnown l ts zs x).
        set_field-other l.tid new_thread l.curr_tid x (known_other l ts zs new_thread fresh x o) in
      record {
        queues = record {
          live = q.live;
          waiting = q.waiting;
          zombies = q.zombies;
          sleepers = q.sleepers;
          few = let a = q.few in omega (arith, next, a);
          fewer = q.fewer;
          enough = let a = fresh.few_ids in omega (arith, next, a);
          word = q.word;
        };
        pooled = record { awake = k.pooled.awake; pool = k.pooled.pool; number = k.pooled.number };
        split = record { lives = k.split.lives; dead = k.split.dead; once = k.split.once };
        ids = record {
          nonnull = n.nonnull;
          named =
              λ x o. let a = tid_of x o in let (b, c) = n.named x o in omega (arith, next, a, b, c);
          apart = λ x y o o' e. n.apart x y o o' (sym (tid_of x o) ∙ (e ∙ tid_of y o'));
          kept = λ x o.
              let ne = known_other l ts zs new_thread fresh x o in
              set_field-other (set_field l.freed new_thread false) new_thread true x ne
              ∙ (set_field-other l.freed new_thread false x ne ∙ n.kept x o);
        };
      }

  pub lwp_create-IsSound :
      (lwp_exit_at lwp_wrap_at new_thread : ℕ) (limit page mapped : Option ℕ)
      → (function argument : ℕ) (l : Library S) → IsSound laws l
      → IsNewThread l new_thread
      → IsSound laws
          (lwp_create ops lwp_exit_at lwp_wrap_at
            (some new_thread)
            limit
            page
            mapped
            function
            argument
            l).1
  lwp_create-IsSound lwp_exit_at lwp_wrap_at new_thread limit page none function argument l s new =
      rw
        (lwp_create_fails ops lwp_exit_at lwp_wrap_at new_thread limit page none function argument l
          (inr refl))
        (record {
          ts = s.ts;
          ws = s.ws;
          zs = s.zs;
          consistent =
              used_up-IsConsistent l new_thread s.ts s.ws s.zs s.consistent
                (IsNewThread-IsFresh l s.ts s.zs new_thread s.consistent.ids new);
          running = s.running;
        })
  lwp_create-IsSound lwp_exit_at lwp_wrap_at new_thread limit page (some stack_base) function
        argument l s new =
      let fresh = IsNewThread-IsFresh l s.ts s.zs new_thread s.consistent.ids new in
      elim (Bool-cases (get_stack_size limit page == 0)) [
        | inl z ↦
            let zero_size : get_stack_size limit page ≡ 0 = ground arith in
            rw
              (lwp_create_fails ops lwp_exit_at lwp_wrap_at new_thread limit page (some stack_base)
                function argument l (inl zero_size))
              (record {
                ts = s.ts;
                ws = s.ws;
                zs = s.zs;
                consistent = used_up-IsConsistent l new_thread s.ts s.ws s.zs s.consistent fresh;
                running = s.running;
              })
        | inr nz ↦
            let big : 0 < get_stack_size limit page = ground arith in
            rw
              (lwp_create_succeeds ops lwp_exit_at lwp_wrap_at new_thread stack_base limit page
                function argument l big)
              (record {
                ts = s.ts ++ new_thread ∷ [];
                ws = s.ws;
                zs = s.zs;
                consistent = enters laws l new_thread _ s.ts s.ws s.zs s.consistent fresh;
                running = λ pos.
                    let r = s.running pos in
                    let a = has-snoc l.curr_thread new_thread s.ts in ground arith;
              })
      ]

  pub lwp_start-IsSound :
      (unmapped : Bool) (new_thread : ℕ) (l : Library S)
      → IsSound laws l
      → IsNewThread l new_thread
      → goes_on (lwp_start ops unmapped (some new_thread) l).0 ≡ true
      → IsSound laws (lwp_start ops unmapped (some new_thread) l).1
  unfolding lwp_start start_with name_thread malloc_thread enter_live
  lwp_start-IsSound unmapped new_thread l s new =
      let fresh = IsNewThread-IsFresh l s.ts s.zs new_thread s.consistent.ids new in
      let q = s.consistent.queues in
      let off : has new_thread s.ws ≡ false = elim (Bool-cases (has new_thread s.ws)) [
        | inl asleep ↦ let a = q.sleepers new_thread asleep in let b = fresh.not_live in cc
        | inr o ↦ o
      ] in
      lwp_yield-IsSound laws idles unmapped _ (s.ts ++ new_thread ∷ []) s.ws s.zs
        (enters laws l new_thread
          (record {
            curr_thread = new_thread;
            stack = set_field l.stack new_thread null;
            stacksize = set_field l.stacksize new_thread 0;
            exited = set_field l.exited new_thread null;
            state = l.state;
            word = l.word;
          })
          s.ts s.ws s.zs s.consistent fresh)
        (λ e lives pos. let a = has-snoc new_thread new_thread s.ts in ground arith)
