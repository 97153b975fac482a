-- ===== src/Lwp/Waits.antt =====
-- Asgn2/lwp.c, lwp_wait and reap_and_remove: a zombie leaves, or the caller waits, and the invariant is
-- kept.
use csc.Prelude.{
  ℕ, ◌<◌, ◌≡◌, Bool, true, false, not, ◌&&◌, ◌==◌, leb, List, [], ◌∷◌, ◌++◌, arith, Bool-cases, inl,
  inr,
}
use csc.Lwp.ThreadQueue.{null, insert_waiting, find_zombie}
use csc.Lwp.Removal.{first_node, find_zombie-first_node}
use csc.Lwp.SetScheduler.{Scheduler, IsScheduler}
use csc.Lwp.Library.{
  Library, Waited, reaped, blocks, dies, reap_and_remove, reap_exited, lwp_wait, lwp_wait_resumed,
}
use csc.Lwp.Erased.{first_node-has}
use csc.Lwp.Consistent.{ready, IsConsistent, IsSound}
use csc.Lwp.Changes.{falls_asleep, leaves}
use csc.Lwp.Yielding.{Idles, goes_on, same_queues, lwp_yield-IsSound}

-- The process goes on.
abbrev pub waits_on : Waited → Bool
waits_on (reaped tid status) = true
waits_on (blocks control) = goes_on control
waits_on (dies code) = false

module _ {S : Type 0} {ops : Scheduler S} (laws : IsScheduler ops) (idles : Idles laws) where
  pub reap_and_remove-IsSound :
      (unmapped : Bool) (victim : ℕ) (l : Library S)
      → IsSound laws l
      → waits_on (reap_and_remove unmapped victim l).0 ≡ true
      → IsSound laws (reap_and_remove unmapped victim l).1
  unfolding reap_and_remove
  reap_and_remove-IsSound unmapped victim l s =
      let k = s.consistent in
      let q = k.queues in
      let z = find_zombie l.fuel l.zombie_thread victim l.zombies in
      let found : z ≡ first_node l.zombie_thread victim s.zs =
        find_zombie-first_node l.fuel l.zombie_thread victim l.zombies s.zs q.zombies
          (let a = q.few in let b = q.enough in omega (arith, a, b)) in
      elim (Bool-cases (victim == null)) [
        | inl nobody ↦ rw nobody (λ _. s)
        | inr somebody ↦ elim (Bool-cases (z == null)) [
          | inl missing ↦ rw (somebody, missing) (λ _. s)
          | inr there ↦
              let (i, mine) =
                first_node-has l.zombie_thread victim s.zs (ground (arith, found, there)) in
              elim (Bool-cases (not (l.stack victim == null) && not unmapped)) [
                | inl fails ↦ rw (somebody, there, fails) (λ h. cc)
                | inr fits ↦
                    rw (somebody, there, fits)
                      (λ _. record {
                        ts = s.ts;
                        ws = s.ws;
                        zs = _;
                        consistent =
                            leaves laws l victim (first_node l.zombie_thread victim s.zs) s.ts s.ws
                              s.zs k i mine;
                        running = s.running;
                      })
              ]
        ]
      ]

  pub reap_exited-IsSound :
      (unmapped : Bool) (l : Library S)
      → IsSound laws l
      → waits_on (reap_exited ops unmapped l).0 ≡ true
      → IsSound laws (reap_exited ops unmapped l).1
  unfolding reap_exited
  reap_exited-IsSound unmapped l s =
      reap_and_remove-IsSound unmapped (l.exited l.curr_thread) _ (record {
        ts = s.ts;
        ws = s.ws;
        zs = s.zs;
        consistent =
            same_queues laws idles l l.sched l.curr_thread _ s.ts s.ws s.zs s.consistent
              s.consistent.pooled;
        running = s.running;
      })

  pub lwp_wait_resumed-IsSound :
      (unmapped : Bool) (l : Library S)
      → IsSound laws l
      → waits_on (lwp_wait_resumed ops unmapped l).0 ≡ true
      → IsSound laws (lwp_wait_resumed ops unmapped l).1
  unfolding lwp_wait_resumed
  lwp_wait_resumed-IsSound unmapped l s = elim (Bool-cases (l.exited l.curr_thread == null)) [
    | inl nobody ↦ rw nobody (λ _. s)
    | inr told ↦ rw told (reap_exited-IsSound unmapped l s)
  ]

  -- Where a thread blocks another is ready, so that the wait never returns at once.
  pub another_ready :
      (l : Library S) (ts ws zs : List ℕ) (r : ready ts ws l.curr_thread ≡ true)
      → IsConsistent laws l ts ws zs
      → leb (ops.qlen l.sched) 1 ≡ false
      → let l' = record l {
        sched = ops.remove_thread l.curr_thread l.sched;
        waiting = insert_waiting l.curr_thread l.waiting;
      } in
        0 < (ops.next_thread l'.sched).0
  another_ready l ts ws zs r k more =
      let p = k.pooled in
      let n : ops.qlen l.sched ≡ p.awake = laws.counts l.sched p.awake (ready ts ws) p.pool in
      let left = laws.removes l.sched p.awake (ready ts ws) l.curr_thread p.pool r in
      let next = laws.picks _ _ _ left in
      let two : 1 < p.awake = ground arith in
      laws.pool_nonnull _ _ _ left _ (next.1 (omega (arith, two)))

  pub lwp_wait-IsSound :
      (unmapped : Bool) (l : Library S)
      → IsSound laws l
      → waits_on (lwp_wait ops unmapped l).0 ≡ true
      → IsSound laws (lwp_wait ops unmapped l).1
  unfolding lwp_wait
  lwp_wait-IsSound unmapped l s = elim (Bool-cases (l.curr_thread == null)) [
    | inl unstarted ↦ rw unstarted (λ _. s)
    | inr started ↦ elim (Bool-cases (l.exited l.curr_thread == null)) [
      | inr told ↦ rw (started, told) (reap_exited-IsSound unmapped l s)
      | inl untold ↦ elim (Bool-cases (l.zombies.head == null)) [
        | inr dead ↦
            rw (started, untold, dead)
              (reap_and_remove-IsSound unmapped (l.zombie_thread l.zombies.head) l s)
        | inl no_dead ↦ elim (Bool-cases (leb (ops.qlen l.sched) 1)) [
          | inl alone ↦ rw (started, untold, no_dead, alone) (λ _. s)
          | inr more ↦
              let r = s.running (ground arith) in
              let next = another_ready l s.ts s.ws s.zs r s.consistent more in
              rw (started, untold, no_dead, more)
                (lwp_yield-IsSound laws idles unmapped _ s.ts (s.ws ++ l.curr_thread ∷ []) s.zs
                  (falls_asleep laws l l.curr_thread s.ts s.ws s.zs s.consistent r)
                  (λ e lives. absurd (omega (arith, e, next))))
        ]
      ]
    ]
  ]
