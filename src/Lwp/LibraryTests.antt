-- ===== src/Lwp/LibraryTests.antt =====
-- Asgn2/lwp.c: the library with round robin, in a state with a running, a waiting and a ready thread and a
-- zombie, and the theorems there.
use csc.Prelude.{
  ℕ, ◌+◌, ◌^◌, ◌<◌, ◌≤◌, ◌≡◌, ◌≢◌, ◌⊎◌, refl, true, false, ◌==◌, none, some, List, [], ◌∷◌, length,
  arith, inl, inr, if◌then◌else◌,
}
use csc.Scheduler.RoundRobin.{Sched}
use csc.Scheduler.Links.{has}
use csc.Lwp.ThreadQueue.{null}
use csc.Lwp.Chains.{Queued}
use csc.Lwp.RoundRobinPool.{round_robin, round_robin_laws, round_robin_idles}
use csc.Lwp.Registers.{Registers, fpu_init, repeat}
use csc.Lwp.Words.{get_stack_size, round_up_page_size, lwpterminated}
use csc.Lwp.Library.{Library, swaps, exits, reaped, no_thread, lwp_exit, lwp_wait}
use csc.Lwp.Create.{lwp_create, tid2thread}
use csc.Lwp.Consistent.{IsKnown, IsConsistent, IsSound}
use csc.Lwp.Lookup.{tid2thread_lem}
use csc.Lwp.Created.{IsStartable, lwp_create_lem}
use csc.Lwp.Handover.{lwp_exit_hands_over}
use csc.Lwp.Serving.{Reaps, Waits, lwp_wait_serves}

abbrev pub zero_registers : Registers
zero_registers = record {
  rax = 0;
  rbx = 0;
  rcx = 0;
  rdx = 0;
  rsi = 0;
  rdi = 0;
  rbp = 0;
  rsp = 0;
  r8 = 0;
  r9 = 0;
  r10 = 0;
  r11 = 0;
  r12 = 0;
  r13 = 0;
  r14 = 0;
  r15 = 0;
  fxsave = [];
}

fpu_init_size : length fpu_init ≡ 512
unfolding fpu_init repeat
fpu_init_size = refl

-- Thread 8 runs, thread 16 waits, thread 24 is ready, and thread 32 is a zombie, with the wrapper 100.
abbrev busy : Library Sched
busy = record {
  sched = record {
    count = 2;
    head = 24;
    tail = 8;
    prev = λ p. if p == 8 then 24 else 0;
    next = λ p. if p == 24 then 8 else 0;
  };
  curr_thread = 8;
  live = record {
    head = 8;
    tail = 24;
    next = λ p. if p == 8 then 16 else if p == 16 then 24 else 0;
  };
  waiting = record { head = 16; tail = 16; next = λ p. 0 };
  zombies = record { head = 100; tail = 100; next = λ p. 0 };
  zombie_thread = λ p. if p == 100 then 32 else 0;
  tid = λ p. if p == 8 then 1 else if p == 16 then 2 else if p == 24 then 3 else 4;
  stack = λ p. 65536;
  status = λ p. if p == 32 then 256 + 7 else 0;
  exited = λ p. 0;
  freed = λ p.
      if p == 8
      then false
      else if p == 16
      then false
      else if p == 24
      then false
      else if p == 32
      then false
      else true;
  fuel = 100;
  curr_tid = 5;
  stacksize = λ p. 8192;
  state = λ p. zero_registers;
  word = λ p. 0;
}

known_in_busy :
    (x : ℕ)
    → IsKnown busy (8 ∷ 16 ∷ 24 ∷ []) (100 ∷ []) x
    → (x ≡ 8) ⊎ ((x ≡ 16) ⊎ ((x ≡ 24) ⊎ (x ≡ 32)))
known_in_busy x (inl alive) = ground arith
known_in_busy x (inr (z, i, e)) = let at : z ≡ 100 = ground arith in inr (inr (inr (ground arith)))

busy-IsConsistent : IsConsistent round_robin_laws busy (8 ∷ 16 ∷ 24 ∷ []) (16 ∷ []) (100 ∷ [])
unfolding lwpterminated
busy-IsConsistent = record {
  queues = record {
    live = record {
      chain = (refl, omega arith, (refl, omega arith, (refl, omega arith, refl)));
      tail_last = refl;
      distinct = (refl, (refl, (refl, tt)));
    };
    waiting = record { chain = (refl, omega arith, refl); tail_last = refl; distinct = (refl, tt) };
    zombies = record { chain = (refl, omega arith, refl); tail_last = refl; distinct = (refl, tt) };
    sleepers = λ x i. ground arith;
    few = omega arith;
    fewer = omega arith;
    enough = omega arith;
    word = omega arith;
  };
  pooled = record {
    awake = 2;
    pool = record {
      threads = 24 ∷ 8 ∷ [];
      held = record {
        counted = refl;
        distinct = (refl, (refl, tt));
        linked = (refl, omega arith, refl, (refl, omega arith, refl, (refl, refl)));
      };
      number = refl;
      members = λ x. ground arith;
    };
    number = refl;
  };
  split = record {
    lives = λ x i. ground arith;
    dead = λ z i. ground arith;
    once = λ y z i j e. ground arith;
  };
  ids = record {
    nonnull = λ x k. let a = known_in_busy x k in ground arith;
    named = λ x k. let a = known_in_busy x k in ground arith;
    apart = λ x y k j e. let a = known_in_busy x k in let b = known_in_busy y j in ground arith;
    kept = λ x k. let a = known_in_busy x k in ground arith;
  };
}

abbrev busy-IsSound : IsSound round_robin_laws busy
busy-IsSound = record {
  ts = 8 ∷ 16 ∷ 24 ∷ [];
  ws = 16 ∷ [];
  zs = 100 ∷ [];
  consistent = busy-IsConsistent;
  running = λ pos. refl;
}

tid2thread_lem_example :
    ((x : ℕ) → IsKnown busy (8 ∷ 16 ∷ 24 ∷ []) (100 ∷ []) x → tid2thread (busy.tid x) busy ≡ x)
    × ((tid : ℕ)
        → ((x : ℕ) → IsKnown busy (8 ∷ 16 ∷ 24 ∷ []) (100 ∷ []) x → busy.tid x ≢ tid)
        → tid2thread tid busy ≡ null)
tid2thread_lem_example = tid2thread_lem round_robin_laws busy busy-IsSound

lwp_exit_hands_over_example :
    let control = (lwp_exit round_robin (some 200) true 300 busy).0 in
    ((to : ℕ) × (control ≡ swaps 8 to) × (has to (8 ∷ 16 ∷ 24 ∷ []) ≡ true) × (to ≢ 8))
    ⊎ ((control ≡ exits 44) × ((x : ℕ) → has x (8 ∷ 16 ∷ 24 ∷ []) ≡ true → x ≡ 8))
lwp_exit_hands_over_example =
    lwp_exit_hands_over round_robin_laws round_robin_idles true busy 200 300 busy-IsSound
      (omega arith) (record { real = omega arith; unused = not_a_zombie })
  where
    not_a_zombie : (zs : List ℕ) → Queued busy.zombies zs → has 200 zs ≡ false
    not_a_zombie [] q = refl
    not_a_zombie (x ∷ []) q = let (at, pos, end) = q.chain in ground arith
    not_a_zombie (x ∷ y ∷ zs) q = let (at, pos, (end, pos2, rest)) = q.chain in absurd (omega arith)

lwp_wait_serves_example :
    let s = busy-IsSound in
    ((z : ℕ) × (zs : List ℕ) × (s.zs ≡ z ∷ zs) × Reaps round_robin_laws busy z zs)
    ⊎ (((s.zs ≡ [])
          × (busy.sched.count ≤ 1)
          × (lwp_wait round_robin true busy ≡ (reaped no_thread none, busy)))
        ⊎ ((s.zs ≡ []) × (1 < busy.sched.count) × Waits round_robin_laws busy s.ts s.ws))
lwp_wait_serves_example =
    lwp_wait_serves round_robin_laws round_robin_idles busy busy-IsSound (omega arith) refl

lwp_create_lem_example :
    let r =
      lwp_create round_robin 1000 2000 (some 40) none (some 4096) (some 1048576) 3000 7 busy in
    (r.0 ≡ 5)
    × IsStartable r.1 r.0 40 1000 2000 3000 7
    × ((a : ℕ)
        → (a < 1048576) ⊎ (1048576 + get_stack_size none (some 4096) ≤ a)
        → r.1.word a ≡ busy.word a)
    × ((x : ℕ)
        → IsKnown busy (8 ∷ 16 ∷ 24 ∷ []) (100 ∷ []) x
        → (r.1.state x ≡ busy.state x) × (r.1.stack x ≡ busy.stack x))
unfolding get_stack_size round_up_page_size
lwp_create_lem_example =
    lwp_create_lem round_robin_laws 1000 2000 40 none (some 4096) 3000 7 busy busy-IsSound
      (record { real = omega arith; unused = refl; few_ids = omega arith }) 1048576 enough fits
  where
    enough : 48 ≤ get_stack_size none (some 4096)
    enough = omega arith

    fits : 1048576 + get_stack_size none (some 4096) < 2 ^ 64
    fits = omega arith
