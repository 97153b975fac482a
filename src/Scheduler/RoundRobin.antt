-- ===== src/Scheduler/RoundRobin.antt =====
-- Asgn2/scheduler.c: the global queue, with the two links of every thread, and its operations. A
-- thread is its address, and NULL is 0.
use csc.Prelude.{ℕ, zero, suc, ◌+◌, ◌-◌, Bool, true, false, ◌&&◌, ◌==◌, if◌then◌else◌}

abbrev pub Thread : Type 0
Thread = ℕ

abbrev pub null : Thread
null = 0

-- `scheduler_thread_count`, `sched_head`, `sched_tail`, and the fields `sched_prev` and `sched_next`.
pub record Sched : Type 0 where
  pub count : ℕ
  pub head : Thread
  pub tail : Thread
  pub prev : Thread → Thread
  pub next : Thread → Thread

-- One field of one thread is written.
abbrev pub set : (Thread → Thread) → Thread → Thread → Thread → Thread
set f p v q = if q == p then v else f q

unfoldable pub rr_init : Sched → Sched
rr_init s = record s { count = 0; head = null; tail = null }

unfoldable pub rr_shutdown : Sched → Sched
rr_shutdown s = record s { count = 0; head = null; tail = null }

unfoldable pub rr_admit : Thread → Sched → Sched
rr_admit new s =
    if new == null
    then s
    else if s.head == null
    then record {
      count = s.count + 1;
      head = new;
      tail = new;
      prev = set s.prev new null;
      next = set s.next new null;
    }
    else record {
      count = s.count + 1;
      head = s.head;
      tail = new;
      prev = set s.prev new s.tail;
      next = set (set s.next s.tail new) new null;
    }

-- The search of `rr_remove`, from a thread on. The queue has `count` threads, so that many rounds
-- and one more see its end.
unfoldable pub find_loop : ℕ → Sched → Thread → Thread → Bool
find_loop zero s victim current = false
find_loop (suc fuel) s victim current =
    let rest = find_loop fuel s victim (s.next current) in
    if current == null then false else if current == victim then true else rest

-- The links around a thread that is in the queue, and the two ends.
unfoldable pub unlink : Thread → Sched → Sched
unlink victim s =
    let prev_thread = s.prev victim in
    let next_thread = s.next victim in
    if (victim == s.head) && (victim == s.tail)
    then record s { head = null; tail = null }
    else if victim == s.head
    then record s { prev = set s.prev next_thread null; head = next_thread }
    else if victim == s.tail
    then record s { next = set s.next prev_thread null; tail = prev_thread }
    else record s {
      next = set s.next prev_thread next_thread;
      prev = set s.prev next_thread prev_thread;
    }

-- The end of `rr_remove`: the links of the victim are cleared, and the count falls.
unfoldable pub detach : Thread → Sched → Sched
detach victim s = record s {
  prev = set s.prev victim null;
  next = set s.next victim null;
  count = s.count - 1;
}

unfoldable pub rr_remove : Thread → Sched → Sched
rr_remove victim s =
    if victim == null
    then s
    else if find_loop (s.count + 1) s victim s.head
    then detach victim (unlink victim s)
    else s

-- The thread to run, and the queue after the old head has gone to its end.
unfoldable pub rr_next : Sched → Thread × Sched
rr_next s =
    if s.head == null
    then (null, s)
    else if s.head == s.tail
    then (s.head, s)
    else let next_thread = s.next s.head in
      (
        s.head,
        record {
          count = s.count;
          head = next_thread;
          tail = s.head;
          prev = set (set s.prev s.head s.tail) next_thread null;
          next = set (set s.next s.tail s.head) s.head null;
        },
      )

abbrev pub rr_qlen : Sched → ℕ
rr_qlen s = s.count
