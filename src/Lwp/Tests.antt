-- ===== src/Lwp/Tests.antt =====
-- Asgn2/lwp.c: queues of three nodes, a change of scheduler, and the theorems at them.
use csc.Prelude.{
  none, ◌*◌, ◌/◌, ℕ, ◌<◌, ◌≡◌, ◌≢◌, refl, true, false, ◌==◌, some, [], ◌∷◌, arith, if◌then◌else◌,
}
use csc.Scheduler.RoundRobin.{Sched, rr_init}
use csc.Scheduler.Links.{has}
use csc.Lwp.ThreadQueue.{NodeQueue, itself, remove_live, remove, search, unlink_node}
use csc.Lwp.Chains.{Queued}
use csc.Lwp.Removal.{remove-Queued}
use csc.Lwp.SetScheduler.{call_if}
use csc.Lwp.RoundRobinPool.{round_robin, IsQueue}
use csc.Lwp.Registers.{Registers}
use csc.Lwp.Library.{Library, reaped, terminate, lwp_wait, lwp_wait_resumed, no_thread}
use csc.Lwp.Waiting.{Exiting, lwp_exit-wait, lwp_wait_robs}

-- The queue 8, 16, 24.
abbrev three : NodeQueue
three = record { head = 8; tail = 24; next = λ p. if p == 8 then 16 else if p == 16 then 24 else 0 }

three-Queued : Queued three (8 ∷ 16 ∷ 24 ∷ [])
three-Queued = record {
  chain = (refl, omega arith, (refl, omega arith, (refl, omega arith, refl)));
  tail_last = refl;
  distinct = (refl, (refl, (refl, tt)));
}

removed_tail : (remove_live 4 24 three).tail ≡ 16
unfolding remove search unlink_node
removed_tail = refl

remove-Queued_example :
    (0 < 16 → Queued (remove 4 itself 16 three) (8 ∷ 24 ∷ []))
    × (((x : ℕ) → has x (8 ∷ 16 ∷ 24 ∷ []) ≡ true → itself x ≢ 16)
        → remove 4 itself 16 three ≡ three)
    × (◌≡◌ {A = ℕ} 16 0 → remove 4 itself 16 three ≡ three)
remove-Queued_example =
    remove-Queued 4 itself 16 three (8 ∷ 16 ∷ 24 ∷ []) three-Queued (omega arith)

-- A round-robin queue of one thread, and an empty one.
abbrev single : Sched
single = record { count = 1; head = 8; tail = 8; prev = λ p. 0; next = λ p. 0 }

single-IsQueue : IsQueue single 1 (λ x. x == 8)
single-IsQueue = record {
  threads = 8 ∷ [];
  held = record {
    counted = refl;
    distinct = (refl, tt);
    linked = (refl, omega arith, refl, (refl, refl));
  };
  number = refl;
  members = λ x. ground arith;
}

empty-IsQueue : IsQueue (call_if (some rr_init) single) 0 (λ x. false)
unfolding call_if rr_init
empty-IsQueue = record {
  threads = [];
  held = record { counted = refl; distinct = tt; linked = (refl, refl) };
  number = refl;
  members = λ x. refl;
}

abbrev no_registers : Registers
no_registers = record {
  rax = 0;
  rbx = 0;
  rcx = 0;
  rdx = 0;
  rsi = 0;
  rdi = 0;
  rbp = 0;
  rsp = 0;
  r8 = 0;
  r9 = 0;
  r10 = 0;
  r11 = 0;
  r12 = 0;
  r13 = 0;
  r14 = 0;
  r15 = 0;
  fxsave = [];
}

-- Thread 8 runs, thread 16 waits, and thread 24 can run.
abbrev exiting : Library Sched
exiting = record {
  sched = record {
    count = 2;
    head = 24;
    tail = 8;
    prev = λ p. if p == 8 then 24 else 0;
    next = λ p. if p == 24 then 8 else 0;
  };
  curr_thread = 8;
  live = three;
  waiting = record { head = 16; tail = 16; next = λ p. 0 };
  zombies = record { head = 0; tail = 0; next = λ p. 0 };
  zombie_thread = λ p. 0;
  tid = λ p. p / 8;
  stack = λ p. p * 1000;
  status = λ p. 0;
  exited = λ p. 0;
  freed = λ p. false;
  fuel = 4;
  curr_tid = 4;
  stacksize = λ p. 8192;
  state = λ p. no_registers;
  word = λ p. 0;
}

exiting-Exiting : Exiting exiting 100 []
exiting-Exiting = record {
  running = omega arith;
  queued = record { chain = refl; tail_last = refl; distinct = tt };
  wrapper = omega arith;
  fresh = refl;
  enough = omega arith;
  not_yet = λ x i. cc;
  waiter = omega arith;
}

lwp_exit-wait_example :
    (l' : Library Sched) × (l'' : Library Sched) × (terminate round_robin (some 100) 300 exiting
      ≡ some l')
    × (lwp_wait_resumed round_robin true (record l' { curr_thread = 16 })
        ≡ (reaped 1 (some 44), l''))
    × Queued l''.zombies []
    × (l''.freed 8 ≡ true)
    × (l''.exited 16 ≡ 0)
lwp_exit-wait_example = lwp_exit-wait round_robin exiting 100 300 [] exiting-Exiting

lwp_wait_robs_example :
    (l' : Library Sched) × (l'' : Library Sched) × (terminate round_robin (some 100) 300 exiting
      ≡ some l')
    × (lwp_wait round_robin true (record l' { curr_thread = 24 }) ≡ (reaped 1 (some 44), l''))
    × ((lwp_wait_resumed round_robin true (record l'' { curr_thread = 16 })).0
        ≡ reaped no_thread none)
lwp_wait_robs_example =
    lwp_wait_robs round_robin exiting 100 300 24 exiting-Exiting (omega arith) (omega arith) refl
