-- ===== src/Lwp/Serving.antt =====
-- Asgn2/lwp.c, lwp_wait: the oldest zombie, no thread, or a wait.
use csc.Prelude.{
  ℕ, ◌<◌, ◌≤◌, ◌≡◌, ◌≢◌, ◌⊎◌, refl, sym, ap, ◌∙◌, subst, true, false, not, ◌&&◌, ◌==◌, leb, List,
  [], ◌∷◌, ◌++◌, arith, Bool-cases, inl, inr, none, some, length,
}
use csc.Lwp.ThreadQueue.{null, insert_waiting, find_zombie, remove}
use csc.Lwp.Chains.{Queued}
use csc.Lwp.Removal.{find_zombie-first_node, remove-Queued}
use csc.Lwp.SetScheduler.{Scheduler, IsScheduler}
use csc.Lwp.Words.{lwptermstat}
use csc.Lwp.Library.{
  Library, swaps, reaped, blocks, no_thread, lwp_yield, reap_and_remove, lwp_wait,
}
use csc.Lwp.Consistent.{ready, IsConsistent, IsSound}
use csc.Lwp.Changes.{falls_asleep}
use csc.Lwp.Waits.{another_ready}
use csc.Lwp.Yielding.{Idles, next_ready}
use csc.Lwp.Ending.{has-snoc}
use csc.Lwp.Waiting.{reap_found, takes_zombie}
use csc.Lwp.Handover.{yields_to, yield_keeps}

module _ {S : Type 0} {ops : Scheduler S} (laws : IsScheduler ops) where
  -- What a wait returns for the oldest zombie, and the state after it.
  abbrev pub Reaps : Library S → ℕ → List ℕ → Type 0
  Reaps l z zs =
      let dead = l.zombie_thread z in
      ((lwp_wait ops true l).0 ≡ reaped (l.tid dead) (some (lwptermstat (l.status dead))))
      × Queued (lwp_wait ops true l).1.zombies zs
      × ((lwp_wait ops true l).1.freed dead ≡ true)

  Reaps-oldest :
      (l : Library S) (ts ws : List ℕ) (z : ℕ) (zs : List ℕ)
      → IsConsistent laws l ts ws (z ∷ zs)
      → 0 < l.curr_thread
      → l.exited l.curr_thread ≡ null
      → Reaps l z zs
  unfolding lwp_wait reap_and_remove
  Reaps-oldest l ts ws z zs k pos untold =
      let q = k.queues in
      let dead = l.zombie_thread z in
      let (at, real, rest) = q.zombies.chain in
      let short : length (z ∷ zs) < l.fuel =
        (let a = q.few in let b = q.enough in omega (arith, a, b)) in
      let mine : (l.zombie_thread z == dead) ≡ true = ground arith in
      let dead_pos : 0 < dead = k.ids.nonnull dead (inr (z, ground arith, refl)) in
      let found : find_zombie l.fuel l.zombie_thread dead l.zombies ≡ z =
        find_zombie-first_node l.fuel l.zombie_thread dead l.zombies (z ∷ zs) q.zombies short
        ∙ rw mine refl in
      let gone : Queued (remove l.fuel l.zombie_thread dead l.zombies) zs =
        subst (Queued (remove l.fuel l.zombie_thread dead l.zombies)) (rw mine refl) (
          (remove-Queued l.fuel l.zombie_thread dead l.zombies (z ∷ zs) q.zombies short).0
            dead_pos) in
      let f : (not (l.stack dead == null) && false) ≡ false = ground arith in
      let takes =
        takes_zombie ops true l pos untold (subst (λ h. 0 < h) (sym at) real)
        ∙ (ap (λ h. reap_and_remove true (l.zombie_thread h) l) at
            ∙ reap_found true dead z l dead_pos real found f) in
      rw takes (refl, gone, rw mine refl)

  -- A wait that finds no zombie.
  waits_for :
      (l : Library S)
      → 0 < l.curr_thread
      → l.exited l.curr_thread ≡ null
      → l.zombies.head ≡ null
      → leb (ops.qlen l.sched) 1 ≡ false
      → let y = lwp_yield ops true (record l {
        sched = ops.remove_thread l.curr_thread l.sched;
        waiting = insert_waiting l.curr_thread l.waiting;
      }) in
        lwp_wait ops true l ≡ (blocks y.0, y.1)
  unfolding lwp_wait
  waits_for l pos untold idle more =
      let a : (l.curr_thread == null) ≡ false = ground arith in
      let b : (l.exited l.curr_thread == null) ≡ true = ground arith in
      let c : (l.zombies.head == null) ≡ true = ground arith in rw (a, b, c, more) refl

  returns_none :
      (l : Library S)
      → 0 < l.curr_thread
      → l.exited l.curr_thread ≡ null
      → l.zombies.head ≡ null
      → leb (ops.qlen l.sched) 1 ≡ true
      → lwp_wait ops true l ≡ (reaped no_thread none, l)
  unfolding lwp_wait
  returns_none l pos untold idle alone =
      let a : (l.curr_thread == null) ≡ false = ground arith in
      let b : (l.exited l.curr_thread == null) ≡ true = ground arith in
      let c : (l.zombies.head == null) ≡ true = ground arith in rw (a, b, c, alone) refl

  -- The caller waits, and another thread runs.
  abbrev pub Waits : Library S → List ℕ → List ℕ → Type 0
  Waits l ts ws =
      (to : ℕ) × ((lwp_wait ops true l).0 ≡ blocks (swaps l.curr_thread to))
      × (ready ts ws to ≡ true)
      × (to ≢ l.curr_thread)
      × Queued (lwp_wait ops true l).1.waiting (ws ++ l.curr_thread ∷ [])

  Waits-behind :
      (idles : Idles laws) (l : Library S) (ts ws : List ℕ)
      → IsConsistent laws l ts ws []
      → ready ts ws l.curr_thread ≡ true
      → 0 < l.curr_thread
      → l.exited l.curr_thread ≡ null
      → leb (ops.qlen l.sched) 1 ≡ false
      → Waits l ts ws
  Waits-behind idles l ts ws k r pos untold more =
      let c = l.curr_thread in
      let l' = record l {
        sched = ops.remove_thread c l.sched;
        waiting = insert_waiting c l.waiting;
      } in
      let asleep = falls_asleep laws l c ts ws [] k r in
      let next = (ops.next_thread l'.sched).0 in
      let real = another_ready laws idles l ts ws [] r k more in
      let goes = (next_ready laws idles l' ts (ws ++ c ∷ []) [] asleep).0 real in
      let a = has-snoc next c ws in
      let other : next ≢ c = ground arith in
      let runs = waits_for l pos untold k.queues.zombies.chain more in
      (
        next,
        ap (λ y. y.0) runs ∙ ap blocks (yields_to ops true l' real other),
        ground arith,
        other,
        subst (λ q. Queued q (ws ++ c ∷ []))
            (sym (ap (λ y. y.1.waiting) runs ∙ yield_keeps ops true l' real)) asleep.queues.waiting,
      )

  -- In a sound state let a thread wait to which no exited thread has been told, and let munmap
  -- succeed. If there are zombies, lwp_wait returns the id and the status of the oldest, which is
  -- freed, and the others stay, in their order. If there are none and no other thread is ready, it
  -- returns NO_THREAD and changes nothing. Otherwise it blocks: the caller is at the end of the queue
  -- of waiting threads, and control passes to a ready thread other than the caller.
  pub lwp_wait_serves :
      (idles : Idles laws) (l : Library S) (s : IsSound laws l)
      → 0 < l.curr_thread
      → l.exited l.curr_thread ≡ null
      → ((z : ℕ) × (zs : List ℕ) × (s.zs ≡ z ∷ zs) × Reaps l z zs)
        ⊎ (((s.zs ≡ [])
              × (ops.qlen l.sched ≤ 1)
              × (lwp_wait ops true l ≡ (reaped no_thread none, l)))
            ⊎ ((s.zs ≡ []) × (1 < ops.qlen l.sched) × Waits l s.ts s.ws))
  lwp_wait_serves idles l s pos untold = by_zombies s.zs s.consistent
    where
      by_zombies :
          (zs : List ℕ)
          → IsConsistent laws l s.ts s.ws zs
          → ((z : ℕ) × (zs' : List ℕ) × (zs ≡ z ∷ zs') × Reaps l z zs')
            ⊎ (((zs ≡ [])
                  × (ops.qlen l.sched ≤ 1)
                  × (lwp_wait ops true l ≡ (reaped no_thread none, l)))
                ⊎ ((zs ≡ []) × (1 < ops.qlen l.sched) × Waits l s.ts s.ws))
      by_zombies (z ∷ zs) k = inl (z, zs, refl, Reaps-oldest l s.ts s.ws z zs k pos untold)
      by_zombies [] k = elim (Bool-cases (leb (ops.qlen l.sched) 1)) [
        | inl alone ↦
            inr (inl (refl, ground arith, returns_none l pos untold k.queues.zombies.chain alone))
        | inr more ↦ inr (
            inr (
              refl,
              ground arith,
              Waits-behind idles l s.ts s.ws k (s.running pos) pos untold more,
            ))
      ]
