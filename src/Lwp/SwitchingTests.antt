-- ===== src/Lwp/SwitchingTests.antt =====
-- Asgn2/lwp.c: a first thread is made, the scheduler is changed from round robin to a stack of threads, and
-- a second thread is made.
use csc.Prelude.{
  ℕ, ◌-◌, ◌<◌, ◌≡◌, refl, sym, ap, ◌∙◌, Bool, true, not, ◌&&◌, ◌==◌, none, some, List, [], ◌∷◌,
  length, arith, inl, inr, Bool-cases,
}
use csc.Scheduler.RoundRobin.{Sched}
use csc.Scheduler.Links.{has, IsDistinct}
use csc.Scheduler.Erasure.{erase}
use csc.Scheduler.Rotation.{first}
use csc.Lwp.SetScheduler.{Scheduler, IsScheduler, call_if}
use csc.Lwp.RoundRobinPool.{
  round_robin, round_robin_laws, round_robin_idles, has-erase, length-erase, no_members, has-first,
}
use csc.Lwp.Yielding.{Idles}
use csc.Lwp.Library.{Library}
use csc.Lwp.Words.{get_stack_size, round_up_page_size}
use csc.Lwp.Create.{lwp_create, create_with, enter_live, first_context, name_thread, malloc_thread}
use csc.Lwp.Reachable.{Step, IsInitial}
use csc.Lwp.Switching.{Scheduled, Move, Run, IsSoundLibrary, set_scheduler, Run-IsSound}
use csc.Lwp.LibraryTests.{zero_registers}

-- A scheduler that runs the newest thread.
abbrev newest_first : Scheduler (List ℕ)
newest_first = record {
  init = none;
  shutdown = none;
  admit = λ x xs. x ∷ xs;
  remove_thread = erase;
  next_thread = λ xs. (first xs, xs);
  qlen = length;
}

record IsStack (xs : List ℕ) (n : ℕ) (m : ℕ → Bool) : Type 0 where
  pub distinct : IsDistinct xs
  pub number : length xs ≡ n
  pub members : (x : ℕ) → has x xs ≡ m x
  pub nonnull : (x : ℕ) → m x ≡ true → 0 < x

IsDistinct-erase : (a : ℕ) (xs : List ℕ) → IsDistinct xs → IsDistinct (erase a xs)
IsDistinct-erase a [] d = tt
IsDistinct-erase a (x ∷ xs) d = elim (Bool-cases (a == x)) [
  | inl at ↦ rw at (d.1)
  | inr off ↦
      rw off
        (let h = has-erase a x xs d.1 in let e = d.0 in (ground arith, IsDistinct-erase a xs d.1))
]

abbrev newest_first_laws : IsScheduler newest_first
newest_first_laws = record {
  Pool = IsStack;
  pool_ext = λ xs n m m' same q. record {
    distinct = q.distinct;
    number = q.number;
    members = λ x. q.members x ∙ same x;
    nonnull = λ x i. q.nonnull x (same x ∙ i);
  };
  pool_empty = λ xs m q x. sym (q.members x) ∙ no_members x xs q.number;
  pool_nonnull = λ xs n m q. q.nonnull;
  admits = λ xs n m x q pos fresh. record {
    distinct = (q.members x ∙ fresh, q.distinct);
    number = let l = q.number in omega (arith, l);
    members = λ y. let l = q.members y in ground arith;
    nonnull = λ y i. elim (Bool-cases (y == x)) [
      | inl at ↦ ground arith
      | inr off ↦ q.nonnull y (ground arith)
    ];
  };
  removes = λ xs n m x q i. record {
    distinct = IsDistinct-erase x xs q.distinct;
    number = length-erase x xs (q.members x ∙ i) ∙ ap (λ k. k - 1) q.number;
    members = λ y. has-erase x y xs q.distinct ∙ ap (λ b. not (y == x) && b) (q.members y);
    nonnull = λ y j. q.nonnull y (ground arith);
  };
  picks = λ xs n m q. (
    q,
    λ pos. sym (q.members (first xs)) ∙ has-first xs (let l = q.number in omega (arith, pos, l)),
  );
  counts = λ xs n m q. q.number;
}

newest_first-Idles : Idles newest_first_laws
newest_first-Idles xs m q = first_of_none xs q.number
  where
    first_of_none : (xs : List ℕ) → length xs ≡ 0 → first xs ≡ 0
    first_of_none [] e = refl
    first_of_none (x ∷ xs) e = absurd (omega (arith, e))

-- Nothing has been called.
abbrev fresh : Library Sched
fresh = record {
  sched = record { count = 0; head = 0; tail = 0; prev = λ p. 0; next = λ p. 0 };
  curr_thread = 0;
  live = record { head = 0; tail = 0; next = λ p. 0 };
  waiting = record { head = 0; tail = 0; next = λ p. 0 };
  zombies = record { head = 0; tail = 0; next = λ p. 0 };
  zombie_thread = λ p. 0;
  tid = λ p. 0;
  stack = λ p. 0;
  status = λ p. 0;
  exited = λ p. 0;
  freed = λ p. true;
  fuel = 100;
  curr_tid = 1;
  stacksize = λ p. 0;
  state = λ p. zero_registers;
  word = λ p. 0;
}

fresh-IsInitial : IsInitial round_robin_laws fresh
fresh-IsInitial = record {
  no_live = (refl, refl);
  no_waiting = (refl, refl);
  no_zombies = (refl, refl);
  no_curr = refl;
  first_tid = refl;
  fuelled = (omega arith, omega arith);
  no_threads = record {
    threads = [];
    held = record { counted = refl; distinct = tt; linked = (refl, refl) };
    number = refl;
    members = λ x. refl;
  };
}

abbrev start : Scheduled
start = record {
  carrier = Sched;
  current_scheduler = round_robin;
  laws = round_robin_laws;
  idles = round_robin_idles;
  library = fresh;
}

abbrev first_made : Scheduled
first_made = record start {
  library =
      (lwp_create round_robin 1000 2000 (some 8) none (some 4096) (some 65536) 3000 7 fresh).1;
}

abbrev switched : Scheduled
switched = set_scheduler newest_first_laws newest_first-Idles [] first_made

abbrev second_made : Scheduled
second_made = record switched {
  library =
      (lwp_create newest_first 1000 2000 (some 16) none (some 4096) (some 131072) 3000 9
        (switched.library)).1;
}

switched-run : Run start switched
unfolding call_if
switched-run =
    Run.next
      (Run.next Run.here (
        Move.calls (first_made.library) (
          Step.creates 1000 2000 8 none (some 4096) (some 65536) 3000 7 (first_made.library)
            (record { real = omega arith; unused = refl; few_ids = omega arith }) refl)))
      (Move.switches newest_first_laws newest_first-Idles []
        (record { distinct = tt; number = refl; members = λ x. refl; nonnull = λ x i. cc }))

second_made-run : Run start second_made
unfolding lwp_create create_with get_stack_size round_up_page_size enter_live first_context
    name_thread malloc_thread
second_made-run = Run.next switched-run (
    Move.calls (second_made.library) (
      Step.creates 1000 2000 16 none (some 4096) (some 131072) 3000 9 (second_made.library)
        (record { real = omega arith; unused = refl; few_ids = omega arith }) refl))

Run-IsSound_example : IsSoundLibrary second_made
Run-IsSound_example = Run-IsSound fresh-IsInitial second_made-run
