-- ===== src/Lwp/Handover.antt =====
-- Asgn2/lwp.c, lwp_exit and lwp_wait: to whom control passes, and when the process ends.
use csc.Prelude.{
  ℕ, ◌%◌, ◌<◌, ◌≡◌, ◌≢◌, ◌⊎◌, refl, sym, ap, ◌∙◌, subst, Bool, true, false, not, ◌&&◌, ◌==◌, arith,
  Bool-cases, inl, inr, some,
}
use csc.Scheduler.Links.{has}
use csc.Lwp.ThreadQueue.{null, itself}
use csc.Lwp.Removal.{erase_first}
use csc.Lwp.SetScheduler.{Scheduler, IsScheduler}
use csc.Lwp.Words.{lwpterminated, lwptermstat}
use csc.Lwp.Stacks.{mktermstat_lem}
use csc.Lwp.Library.{Library, swaps, exits, last_exit, lwp_yield, lwp_exit}
use csc.Lwp.Erased.{has-erase_first}
use csc.Lwp.Consistent.{IsSound}
use csc.Lwp.Calls.{IsNewNode, terminate-IsConsistent}
use csc.Lwp.Yielding.{Idles, next_ready}

-- A yield leaves the queue of waiting threads.
pub yield_keeps :
    {S : Type 0} (ops : Scheduler S) (unmapped : Bool) (l : Library S)
    → 0 < (ops.next_thread l.sched).0
    → (lwp_yield ops unmapped l).1.waiting ≡ l.waiting
unfolding lwp_yield
yield_keeps ops unmapped l pos =
    let a : ((ops.next_thread l.sched).0 == null) ≡ false = ground arith in
    elim (Bool-cases (l.curr_thread == (ops.next_thread l.sched).0)) [
      | inl same ↦ rw (a, same) refl
      | inr other ↦ rw (a, other) refl
    ]

-- A yield that finds another thread.
pub yields_to :
    {S : Type 0} (ops : Scheduler S) (unmapped : Bool) (l : Library S)
    → 0 < (ops.next_thread l.sched).0
    → (ops.next_thread l.sched).0 ≢ l.curr_thread
    → (lwp_yield ops unmapped l).0 ≡ swaps l.curr_thread (ops.next_thread l.sched).0
unfolding lwp_yield
yields_to ops unmapped l pos ne =
    let a : ((ops.next_thread l.sched).0 == null) ≡ false = ground arith in
    let b : (l.curr_thread == (ops.next_thread l.sched).0) ≡ false = ground arith in rw (a, b) refl

-- A yield of a terminated thread that finds none.
yields_last :
    {S : Type 0} (ops : Scheduler S) (unmapped : Bool) (l : Library S)
    → (ops.next_thread l.sched).0 ≡ null
    → 0 < l.curr_thread
    → lwpterminated (l.status l.curr_thread) ≡ true
    → (lwp_yield ops unmapped l).0 ≡ exits (lwptermstat (l.status l.curr_thread))
unfolding lwp_yield last_exit
yields_last ops unmapped l idle pos over =
    let a : ((ops.next_thread l.sched).0 == null) ≡ true = ground arith in
    let b : (l.curr_thread == null) ≡ false = ground arith in
    elim (Bool-cases (l.stack l.curr_thread == null)) [
      | inl system ↦ rw (a, b, over, system) refl
      | inr mapped ↦ rw (a, b, over, mapped) refl
    ]

module _ {S : Type 0} {ops : Scheduler S} (laws : IsScheduler ops) (idles : Idles laws) where
  -- In a sound state with a running thread, and with memory for its wrapper, lwp_exit does not
  -- return. While another thread is live, control passes to a live thread other than the caller;
  -- when there is none, the process exits, with the low 8 bits of the status.
  pub lwp_exit_hands_over :
      (unmapped : Bool) (l : Library S) (node exit_status : ℕ) (s : IsSound laws l)
      → 0 < l.curr_thread
      → IsNewNode l.zombies node
      → let control = (lwp_exit ops (some node) unmapped exit_status l).0 in
        ((to : ℕ) × (control ≡ swaps l.curr_thread to)
          × (has to s.ts ≡ true)
          × (to ≢ l.curr_thread))
        ⊎ ((control ≡ exits (exit_status % 256))
            × ((x : ℕ) → has x s.ts ≡ true → x ≡ l.curr_thread))
  unfolding lwp_exit
  lwp_exit_hands_over unmapped l node exit_status s pos new =
      let c = l.curr_thread in
      let started : (c == null) ≡ false = ground arith in
      let r = s.running pos in
      let (l', ws', runs, k, same, word, nobody_left) =
        terminate-IsConsistent laws idles l node exit_status s.ts s.ws s.zs s.consistent r new in
      let (some_next, no_next) = next_ready laws idles l' _ ws' _ k in
      let next = (ops.next_thread l'.sched).0 in
      let left = λ (x : ℕ). has-erase_first c x s.ts s.consistent.queues.live.distinct in
      let over : lwpterminated (l'.status l'.curr_thread) ≡ true =
        ap (λ x. lwpterminated (l'.status x)) same
        ∙ (ap lwpterminated word ∙ (mktermstat_lem exit_status).0) in
      let code : lwptermstat (l'.status l'.curr_thread) ≡ exit_status % 256 =
        ap (λ x. lwptermstat (l'.status x)) same
        ∙ (ap lwptermstat word ∙ (mktermstat_lem exit_status).1) in
      elim (Bool-cases (next == null)) [
        | inr somebody ↦
            let real : 0 < next = ground arith in
            let goes = some_next real in
            let e = left next in
            let other : next ≢ c = ground arith in
            let there : has next s.ts ≡ true = ground arith in
            rw (started, runs)
              (inl (
                next,
                yields_to ops unmapped l' real (λ h. other (h ∙ same))
                    ∙ ap (λ x. swaps x next) same,
                there,
                other,
              ))
        | inl nobody ↦
            let idle : next ≡ null = ground arith in
            let gone = nobody_left (no_next idle) in
            rw (started, runs)
              (inr (
                yields_last ops unmapped l' idle (subst (λ x. 0 < x) (sym same) pos) over
                    ∙ ap exits code,
                λ x i. only x i (left x) (gone x),
              ))
      ]
    where
      only :
          (x : ℕ)
          → has x s.ts ≡ true
          → has x (erase_first itself l.curr_thread s.ts) ≡ (not (x == l.curr_thread) && has x s.ts)
          → has x (erase_first itself l.curr_thread s.ts) ≡ false
          → x ≡ l.curr_thread
      only x i e gone = ground arith
