-- ===== src/Lwp/Waiting.antt =====
-- Asgn2/lwp.c, lwp_exit and lwp_wait: the oldest waiting thread gets the thread that exits.
use csc.Prelude.{
  ℕ, ◌+◌, ◌%◌, ◌<◌, ◌≡◌, ◌≢◌, refl, sym, subst, ap, ◌∙◌, Bool, true, false, not, ◌&&◌, ◌==◌, none,
  some, List, [], ◌∷◌, ◌++◌, length, length-append, arith, if◌then◌else◌,
}
use csc.Scheduler.Links.{has}
use csc.Lwp.ThreadQueue.{
  null, set_next, insert, insert_zombie, remove, find_zombie, remove_live, remove_waiting,
}
use csc.Lwp.Chains.{Queued, insert-Queued}
use csc.Lwp.Removal.{erase_first, first_node, remove-Queued, find_zombie-first_node}
use csc.Lwp.SetScheduler.{Scheduler}
use csc.Lwp.Words.{mktermstat, lwptermstat, lwp_term}
use csc.Lwp.Stacks.{mktermstat_lem}
use csc.Lwp.Library.{
  Library, reaped, reap_and_remove, wake_waiter, terminate, reap_exited, lwp_wait, lwp_wait_resumed,
  no_thread,
}

-- The wrapper that is added last is the one of its thread, and goes first.
last_node :
    (f : ℕ → ℕ) (c node : ℕ) (zs : List ℕ)
    → ((x : ℕ) → has x zs ≡ true → f x ≢ c)
    → f node ≡ c
    → (first_node f c (zs ++ node ∷ []) ≡ node) × (erase_first f c (zs ++ node ∷ []) ≡ zs)
last_node f c node [] others mine =
    let hit : (f node == c) ≡ true = ground arith in rw hit (refl, refl)
last_node f c node (x ∷ xs) others mine =
    let miss : (f x == c) ≡ false = ground (arith, others x) in
    let (a, b) = last_node f c node xs (λ y i. others y (ground arith)) mine in
    rw miss (a, ap (λ l. x ∷ l) b)

-- What a thread that is found among the zombies leaves.
pub reap_found :
    {S : Type 0} (unmapped : Bool) (c node : ℕ) (l : Library S)
    → 0 < c
    → 0 < node
    → find_zombie l.fuel l.zombie_thread c l.zombies ≡ node
    → (not (l.stack c == null) && not unmapped) ≡ false
    → reap_and_remove unmapped c l ≡ (
      reaped (l.tid c) (some (lwptermstat (l.status c))),
      record l {
        zombies = remove l.fuel l.zombie_thread c l.zombies;
        freed = λ t. if t == c then true else l.freed t;
      },
    )
unfolding reap_and_remove
reap_found unmapped c node l pos real found fits =
    let some_thread : (c == null) ≡ false = ground arith in
    let there : (find_zombie l.fuel l.zombie_thread c l.zombies == null) ≡ false = ground arith in
    rw (some_thread, there, fits) refl

-- A thread that may exit while another waits.
pub record Exiting {S : Type 0} (l : Library S) (node : ℕ) (zs : List ℕ) : Type 0 where
  pub running : 0 < l.curr_thread
  pub queued : Queued l.zombies zs
  pub wrapper : 0 < node
  pub fresh : has node zs ≡ false
  pub enough : length zs + 1 < l.fuel
  pub not_yet : (x : ℕ) → has x zs ≡ true → l.zombie_thread x ≢ l.curr_thread
  pub waiter : 0 < l.waiting.head

module _ {S : Type 0} (ops : Scheduler S) where
  -- What `lwp_exit` leaves, up to its yield.
  abbrev left_by : Library S → ℕ → ℕ → Library S
  left_by l node exit_status =
      let c = l.curr_thread in
      record l {
        sched = ops.admit l.waiting.head (ops.remove_thread c l.sched);
        live = remove_live l.fuel c l.live;
        waiting = remove_waiting l.fuel l.waiting.head l.waiting;
        zombies = insert node l.zombies;
        zombie_thread = set_next l.zombie_thread node c;
        status = λ t. if t == c then mktermstat lwp_term exit_status else l.status t;
        exited = λ t. if t == l.waiting.head then c else l.exited t;
      }

  pub wraps :
      (l : Library S) (node : ℕ)
      → 0 < l.curr_thread
      → insert_zombie (some node) l.curr_thread l.zombie_thread l.zombies
        ≡ some (set_next l.zombie_thread node l.curr_thread, insert node l.zombies)
  unfolding insert_zombie
  wraps l node running =
      let some_thread : (l.curr_thread == null) ≡ false = ground arith in rw some_thread refl

  pub wakes :
      (l : Library S)
      → 0 < l.waiting.head
      → wake_waiter ops l ≡ record l {
        exited = λ t. if t == l.waiting.head then l.curr_thread else l.exited t;
        sched = ops.admit l.waiting.head l.sched;
        waiting = remove_waiting l.fuel l.waiting.head l.waiting;
      }
  unfolding wake_waiter
  wakes l waits = let someone : (l.waiting.head == null) ≡ false = ground arith in rw someone refl

  terminates :
      (l : Library S) (node exit_status : ℕ)
      → 0 < l.curr_thread
      → 0 < l.waiting.head
      → terminate ops (some node) exit_status l ≡ some (left_by l node exit_status)
  unfolding terminate
  terminates l node exit_status running waits =
      rw (terminate, wraps l node running) (ap some (wakes _ waits))

  -- `lwp_exit` up to its yield, for a thread that may exit.
  terminated :
      (l : Library S) (node exit_status : ℕ) (zs : List ℕ)
      → Exiting l node zs
      → let l' = left_by l node exit_status in
        (find_zombie l'.fuel l'.zombie_thread l.curr_thread l'.zombies ≡ node)
        × Queued (remove l'.fuel l'.zombie_thread l.curr_thread l'.zombies) zs
        × Queued l'.zombies (zs ++ node ∷ [])
        × (l'.exited l.waiting.head ≡ l.curr_thread)
        × (l'.status l.curr_thread ≡ mktermstat lwp_term exit_status)
  terminated l node exit_status zs e =
      let c = l.curr_thread in
      let w = l.waiting.head in
      let f = set_next l.zombie_thread node c in
      let mine : f node ≡ c = ground arith in
      let others : (x : ℕ) → has x zs ≡ true → f x ≢ c = λ x i h.
        e.not_yet x i
          (sym (set_next-other l.zombie_thread node c x (apart x node zs i e.fresh)) ∙ h) in
      let q = insert-Queued l.zombies node zs e.queued e.wrapper e.fresh in
      let long : length (zs ++ node ∷ []) < l.fuel =
        (let a = length-append {0} zs (node ∷ []) in let b = e.enough in omega (arith, a, b)) in
      let (first, rest) = last_node f c node zs others mine in
      (
        find_zombie-first_node l.fuel f c (insert node l.zombies) (zs ++ node ∷ []) q long ∙ first,
        subst (Queued (remove l.fuel f c (insert node l.zombies))) rest (
            (remove-Queued l.fuel f c (insert node l.zombies) (zs ++ node ∷ []) q long).0
              e.running),
        q,
        ground arith,
        ground arith,
      )
    where
      set_next-other : (f : ℕ → ℕ) (p v x : ℕ) → x ≢ p → set_next f p v x ≡ f x
      set_next-other f p v x ne = ground arith

      apart : (x node : ℕ) (zs : List ℕ) → has x zs ≡ true → has node zs ≡ false → x ≢ node
      apart x node zs i fresh same = absurd (sym i ∙ (ap (λ k. has k zs) same ∙ fresh))
        where
          absurd : {A : Type 0} → true ≡ false → A
          absurd h = cc

  -- A thread that waits gets the thread that exits. Suppose that a thread runs and another
  -- waits, that the zombies are well-formed and shorter than the fuel, without the running
  -- thread among them, that malloc has a new wrapper and that munmap succeeds. When the running
  -- thread exits and the oldest waiting thread is resumed next, its wait returns the id of the
  -- thread that has exited and the low 8 bits of its status; that thread is freed and leaves the
  -- zombies, and the other zombies stay, in their order.
  pub lwp_exit-wait :
      (l : Library S) (node exit_status : ℕ) (zs : List ℕ)
      → Exiting l node zs
      → (l' : Library S) × (l'' : Library S) × (terminate ops (some node) exit_status l ≡ some l')
        × (lwp_wait_resumed ops true (record l' { curr_thread = l.waiting.head })
            ≡ (reaped (l.tid l.curr_thread) (some (exit_status % 256)), l''))
        × Queued l''.zombies zs
        × (l''.freed l.curr_thread ≡ true)
        × (l''.exited l.waiting.head ≡ null)
  unfolding lwp_wait_resumed reap_exited
  lwp_exit-wait l node exit_status zs e =
      let c = l.curr_thread in
      let w = l.waiting.head in
      let l' = left_by l node exit_status in
      let (found, rest, all, told, word) = terminated l node exit_status zs e in
      let resumed = record l' {
        curr_thread = w;
        exited = λ t. if t == w then null else l'.exited t;
      } in
      let after : Library S = record resumed {
        zombies = remove l'.fuel l'.zombie_thread c l'.zombies;
        freed = λ t. if t == c then true else l'.freed t;
      } in
      let pending : (l'.exited w == null) ≡ false = ground (arith, told, e.running) in
      let got = reap_found true c node resumed e.running e.wrapper found (ground arith) in
      let code : lwptermstat (l'.status c) ≡ exit_status % 256 =
        ap lwptermstat word ∙ (mktermstat_lem exit_status).1 in
      (
        l',
        after,
        terminates l node exit_status e.running e.waiter,
        rw pending (
            ap (λ x. reap_and_remove true x resumed) told
            ∙ got
            ∙ ap (λ y. (reaped (l.tid c) (some y), after)) code),
        rest,
        ground arith,
        ground arith,
      )

  pub takes_zombie :
      (unmapped : Bool) (l : Library S)
      → 0 < l.curr_thread
      → l.exited l.curr_thread ≡ null
      → 0 < l.zombies.head
      → lwp_wait ops unmapped l ≡ reap_and_remove unmapped (l.zombie_thread l.zombies.head) l
  unfolding lwp_wait
  takes_zombie unmapped l running none_left more =
      let a : (l.curr_thread == null) ≡ false = ground arith in
      let b : (l.exited l.curr_thread == null) ≡ true = ground arith in
      let c : (l.zombies.head == null) ≡ false = ground arith in rw (a, b, c) refl

  finds_nothing :
      (unmapped : Bool) (l : Library S)
      → 0 < l.exited l.curr_thread
      → Queued l.zombies []
      → 0 < l.fuel
      → (lwp_wait_resumed ops unmapped l).0 ≡ reaped no_thread none
  unfolding lwp_wait_resumed reap_exited reap_and_remove
  finds_nothing unmapped l told q fuelled =
      let a : (l.exited l.curr_thread == null) ≡ false = ground arith in
      let found =
        find_zombie-first_node l.fuel l.zombie_thread (l.exited l.curr_thread) l.zombies [] q
          fuelled in
      rw (a, found) refl

  -- The order of the threads matters. In the situation of an exit while a thread waits, with no
  -- other zombie, let a third thread, to which no exited thread has been told, run before the
  -- waiting one and wait as well: the third gets the thread that has exited, and the waiting one
  -- returns NO_THREAD.
  pub lwp_wait_robs :
      (l : Library S) (node exit_status third : ℕ)
      → Exiting l node []
      → 0 < third
      → third ≢ l.waiting.head
      → l.exited third ≡ null
      → (l' : Library S) × (l'' : Library S) × (terminate ops (some node) exit_status l ≡ some l')
        × (lwp_wait ops true (record l' { curr_thread = third })
            ≡ (reaped (l.tid l.curr_thread) (some (exit_status % 256)), l''))
        × ((lwp_wait_resumed ops true (record l'' { curr_thread = l.waiting.head })).0
            ≡ reaped no_thread none)
  lwp_wait_robs l node exit_status third e real other none_left =
      let c = l.curr_thread in
      let w = l.waiting.head in
      let l' = left_by l node exit_status in
      let (found, rest, all, told, word) = terminated l node exit_status [] e in
      let taker = record l' { curr_thread = third } in
      let got = reap_found true c node taker e.running e.wrapper found (ground arith) in
      let after : Library S = record taker {
        zombies = remove l'.fuel l'.zombie_thread c l'.zombies;
        freed = λ t. if t == c then true else l'.freed t;
      } in
      let code : lwptermstat (l'.status c) ≡ exit_status % 256 =
        ap lwptermstat word ∙ (mktermstat_lem exit_status).1 in
      let head : l'.zombies.head ≡ node = all.chain.0 in
      let mine : l'.zombie_thread l'.zombies.head ≡ c =
        ap l'.zombie_thread head ∙ set_next-same l.zombie_thread node c in
      let waits =
        takes_zombie true taker real (ground arith) (let pos = e.wrapper in ground arith) in
      (
        l',
        after,
        terminates l node exit_status e.running e.waiter,
        waits
            ∙ ap (λ x. reap_and_remove true x taker) mine
            ∙ got
            ∙ ap (λ y. (reaped (l.tid c) (some y), after)) code,
        finds_nothing true (record after { curr_thread = w }) (let pos = e.running in ground arith)
            rest (let long = e.enough in omega (arith, long)),
      )
    where
      set_next-same : (f : ℕ → ℕ) (p v : ℕ) → set_next f p v p ≡ v
      set_next-same f p v = ground arith
