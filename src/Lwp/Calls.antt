-- ===== src/Lwp/Calls.antt =====
-- Asgn2/lwp.c: each call of the library keeps the invariant, if the process goes on.
use csc.Prelude.{
  ℕ, ◌<◌, ◌≡◌, refl, ap, ◌∙◌, Bool, true, false, ◌==◌, List, [], ◌∷◌, ◌++◌, arith, Bool-cases, inl,
  inr, some, if◌then◌else◌,
}
use csc.Scheduler.Links.{has}
use csc.Lwp.ThreadQueue.{null, NodeQueue, set_next, itself, insert, remove_live, remove_waiting}
use csc.Lwp.Chains.{Queued}
use csc.Lwp.Removal.{erase_first}
use csc.Lwp.SetScheduler.{Scheduler, IsScheduler}
use csc.Lwp.Words.{lwpterminated, mktermstat, lwp_term}
use csc.Lwp.Stacks.{mktermstat_lem}
use csc.Lwp.Library.{Library, terminate, wake_waiter, lwp_exit}
use csc.Lwp.Waiting.{wraps, wakes}
use csc.Lwp.Erased.{has-erase_first, Queued-head}
use csc.Lwp.Consistent.{ready, IsNamed, IsConsistent, IsSound}
use csc.Lwp.Changes.{wakes_up}
use csc.Lwp.Ending.{ends, ended_status}
use csc.Lwp.Entering.{IsFresh}
use csc.Lwp.Yielding.{Idles, goes_on, lwp_yield-IsSound}

-- What malloc promises of a new wrapper: it is not NULL, and not one of the queue of zombies.
pub record IsNewNode (q : NodeQueue) (node : ℕ) : Type 0 where
  pub real : 0 < node
  pub unused : (zs : List ℕ) → Queued q zs → has node zs ≡ false

-- What malloc promises of a new thread: it is not NULL, and its memory is not in use. The ids are not used
-- up.
pub record IsNewThread {S : Type 0} (l : Library S) (new_thread : ℕ) : Type 0 where
  pub real : 0 < new_thread
  pub unused : l.freed new_thread ≡ true
  pub few_ids : l.curr_tid < l.fuel

pub IsNewThread-IsFresh :
    {S : Type 0} (l : Library S) (ts zs : List ℕ) (new_thread : ℕ)
    → IsNamed l ts zs
    → IsNewThread l new_thread
    → IsFresh l ts zs new_thread
IsNewThread-IsFresh l ts zs new_thread n new = record {
  real = new.real;
  not_live = elim (Bool-cases (has new_thread ts)) [
    | inl alive ↦ let a = n.kept new_thread (inl alive) in let b = new.unused in cc
    | inr o ↦ o
  ];
  not_dead = λ z i e. let a = n.kept new_thread (inr (z, i, e)) in let b = new.unused in cc;
  few_ids = new.few_ids;
}

module _ {S : Type 0} {ops : Scheduler S} (laws : IsScheduler ops) (idles : Idles laws) where
  -- `lwp_exit` up to its yield: the running thread is terminated and not live any more. If no thread is
  -- ready then, there is no live one.
  pub terminate-IsConsistent :
      (l : Library S) (node exit_status : ℕ) (ts ws zs : List ℕ)
      → IsConsistent laws l ts ws zs
      → ready ts ws l.curr_thread ≡ true
      → IsNewNode l.zombies node
      → (l' : Library S) × (ws' : List ℕ) × (terminate ops (some node) exit_status l ≡ some l')
        × IsConsistent laws l' (erase_first itself l.curr_thread ts) ws' (zs ++ node ∷ [])
        × (l'.curr_thread ≡ l.curr_thread)
        × (l'.status l.curr_thread ≡ mktermstat lwp_term exit_status)
        × (((x : ℕ) → ready (erase_first itself l.curr_thread ts) ws' x ≡ false)
            → (x : ℕ) → has x (erase_first itself l.curr_thread ts) ≡ false)
  unfolding terminate wake_waiter
  terminate-IsConsistent l node exit_status ts ws zs k r new =
      let c = l.curr_thread in
      let ts' = erase_first itself c ts in
      let zs' = zs ++ node ∷ [] in
      let pos : 0 < c = k.ids.nonnull c (inl (ground arith)) in
      let mid : Library S = record l {
        status = ended_status l node exit_status ts zs;
        zombie_thread = set_next l.zombie_thread node c;
        zombies = insert node l.zombies;
        sched = ops.remove_thread c l.sched;
        live = remove_live l.fuel c l.live;
      } in
      let m = ends laws l node exit_status ts ws zs k r new.real (new.unused zs k.queues.zombies) in
      let word : ended_status l node exit_status ts zs c ≡ mktermstat lwp_term exit_status =
        ground arith in
      let runs : terminate ops (some node) exit_status l ≡ some (wake_waiter ops mid) =
        rw (terminate, wraps ops l node pos) refl in
      elim (Bool-cases (l.waiting.head == null)) [
        | inl nobody ↦ (
          mid,
          ws,
          runs ∙ ap some (nobody_wakes mid nobody),
          m,
          refl,
          word,
          λ idle x. no_sleepers ws k.queues.waiting nobody ts' x (idle x),
        )
        | inr somebody ↦
            let waits : 0 < l.waiting.head = ground arith in
            let exited : ℕ → ℕ = λ t. if t == l.waiting.head then c else l.exited t in
            (
              record mid {
                exited = exited;
                sched = ops.admit l.waiting.head mid.sched;
                waiting = remove_waiting l.fuel l.waiting.head l.waiting;
              },
              erase_first itself l.waiting.head ws,
              runs ∙ ap some (wakes ops mid waits),
              wakes_up laws mid exited ts' ws zs' m waits,
              refl,
              word,
              λ idle x.
                  let w = l.waiting.head in
                  let asleep = Queued-head ws k.queues.waiting waits in
                  let alive = m.queues.sleepers w asleep in
                  let gone = has-erase_first w w ws k.queues.waiting.distinct in
                  let up = idle w in ground arith,
            )
      ]
    where
      head_null : {w : ℕ} → l.waiting.head ≡ w → 0 < w → (l.waiting.head == null) ≡ true → ⊥
      head_null at pos nobody = ground arith

      no_sleepers :
          (ws : List ℕ)
          → Queued l.waiting ws
          → (l.waiting.head == null) ≡ true
          → (ts : List ℕ) (x : ℕ) → ready ts ws x ≡ false
          → has x ts ≡ false
      no_sleepers [] q nobody ts x idle = ground arith
      no_sleepers (w ∷ ws) q nobody ts x idle =
          absurd (let (at, pos, rest) = q.chain in head_null at pos nobody)

      nobody_wakes :
          (mid : Library S) → (mid.waiting.head == null) ≡ true → wake_waiter ops mid ≡ mid
      nobody_wakes mid nobody = rw (wake_waiter, nobody) refl

  pub lwp_exit-IsSound :
      (unmapped : Bool) (l : Library S) (node exit_status : ℕ)
      → IsSound laws l
      → IsNewNode l.zombies node
      → goes_on (lwp_exit ops (some node) unmapped exit_status l).0 ≡ true
      → IsSound laws (lwp_exit ops (some node) unmapped exit_status l).1
  unfolding lwp_exit
  lwp_exit-IsSound unmapped l node exit_status s new = elim (Bool-cases (l.curr_thread == null)) [
    | inl unstarted ↦ rw unstarted (λ _. s)
    | inr started ↦
        let r = s.running (ground arith) in
        let (l', ws', runs, k, same, word, _) =
          terminate-IsConsistent l node exit_status s.ts s.ws s.zs s.consistent r new in
        let over : lwpterminated (l'.status l'.curr_thread) ≡ true =
          ap (λ c. lwpterminated (l'.status c)) same
          ∙ (ap lwpterminated word ∙ (mktermstat_lem exit_status).0) in
        rw (started, runs) (lwp_yield-IsSound laws idles unmapped l' _ ws' _ k (λ e lives. cc))
  ]
