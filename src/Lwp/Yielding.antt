-- ===== src/Lwp/Yielding.antt =====
-- Asgn2/lwp.c, lwp_yield: the thread that runs next is one of those that are ready.
use csc.Prelude.{
  ℕ, ◌<◌, ◌≡◌, refl, ap, ◌∙◌, subst, Bool, true, false, ◌==◌, List, arith, Bool-cases, inl, inr,
}
use csc.Lwp.ThreadQueue.{null}
use csc.Lwp.SetScheduler.{Scheduler, IsScheduler}
use csc.Lwp.Words.{lwpterminated}
use csc.Lwp.Library.{Library, Control, returns, swaps, exits, last_exit, lwp_yield}
use csc.Lwp.Changes.{IsNamed-mono}
use csc.Lwp.Consistent.{ready, IsPooled, IsConsistent, IsRunning, IsSound}

-- The process goes on.
abbrev pub goes_on : Control → Bool
goes_on returns = true
goes_on (swaps from to) = true
goes_on (exits code) = false

-- What is relied on besides the laws: a scheduler with no threads has no next one.
abbrev pub Idles : {S : Type 0} {ops : Scheduler S} → IsScheduler ops → Type 0
Idles {S} {ops} laws = (s : S) (m : ℕ → Bool) → laws.Pool s 0 m → (ops.next_thread s).0 ≡ null

module _ {S : Type 0} {ops : Scheduler S} (laws : IsScheduler ops) (idles : Idles laws) where
  -- The scheduler has been asked for the next thread.
  abbrev pub asked : Library S → Library S
  asked l = record l { sched = (ops.next_thread l.sched).1 }

  -- Some fields that are not the library's queues have changed.
  pub same_queues :
      (l : Library S) (sched : S) (curr : ℕ) (exited : ℕ → ℕ) (ts ws zs : List ℕ)
      → IsConsistent laws l ts ws zs
      → IsPooled laws (record l { sched = sched }) ts ws
      → IsConsistent laws (record l { sched = sched; curr_thread = curr; exited = exited }) ts ws zs
  same_queues l sched curr exited ts ws zs k p =
      let q = k.queues in
      record {
        queues = record {
          live = q.live;
          waiting = q.waiting;
          zombies = q.zombies;
          sleepers = q.sleepers;
          few = q.few;
          fewer = q.fewer;
          enough = q.enough;
          word = q.word;
        };
        pooled = record { awake = p.awake; pool = p.pool; number = p.number };
        split = record { lives = k.split.lives; dead = k.split.dead; once = k.split.once };
        ids = IsNamed-mono l _ ts zs ts zs k.ids refl refl (λ x n. (n, refl));
      }

  pub asked-IsPooled :
      (l : Library S) (ts ws zs : List ℕ)
      → IsConsistent laws l ts ws zs
      → IsPooled laws (asked l) ts ws
  asked-IsPooled l ts ws zs k =
      let p = k.pooled in
      record {
        awake = p.awake;
        pool = (laws.picks l.sched p.awake (ready ts ws) p.pool).0;
        number = p.number;
      }

  -- The next thread is ready, and NULL exactly when none is.
  pub next_ready :
      (l : Library S) (ts ws zs : List ℕ)
      → IsConsistent laws l ts ws zs
      → let next = (ops.next_thread l.sched).0 in
        (0 < next → ready ts ws next ≡ true) × (next ≡ null → (x : ℕ) → ready ts ws x ≡ false)
  next_ready l ts ws zs k =
      let p = k.pooled in
      elim (Bool-cases (p.awake == 0)) [
        | inl nobody ↦
            let z : p.awake ≡ 0 = ground arith in
            let pool : laws.Pool l.sched 0 (ready ts ws) =
              subst (λ n. laws.Pool l.sched n (ready ts ws)) z p.pool in
            let none_next = idles l.sched (ready ts ws) pool in
            (
              λ pos. absurd (omega (arith, none_next, pos)),
              λ e. laws.pool_empty l.sched (ready ts ws) pool,
            )
        | inr somebody ↦
            let picked = (laws.picks l.sched p.awake (ready ts ws) p.pool).1 (ground arith) in
            let pos =
              laws.pool_nonnull l.sched p.awake (ready ts ws) p.pool (ops.next_thread l.sched).0
                picked in
            (λ _. picked, λ e. absurd (omega (arith, e, pos)))
      ]

  -- If the process goes on, then in a sound state; `calm` is what is asked where the caller may return
  -- because there is no other thread.
  pub lwp_yield-IsSound :
      (unmapped : Bool) (l : Library S) (ts ws zs : List ℕ)
      → IsConsistent laws l ts ws zs
      → ((ops.next_thread l.sched).0 ≡ null
          → lwpterminated (l.status l.curr_thread) ≡ false
          → IsRunning laws l ts ws)
      → goes_on (lwp_yield ops unmapped l).0 ≡ true
      → IsSound laws (lwp_yield ops unmapped l).1
  unfolding lwp_yield last_exit
  lwp_yield-IsSound unmapped l ts ws zs k calm =
      let next = (ops.next_thread l.sched).0 in
      let sched = (ops.next_thread l.sched).1 in
      let (some_next, no_next) = next_ready l ts ws zs k in
      let p = asked-IsPooled l ts ws zs k in
      let stays : IsConsistent laws (asked l) ts ws zs =
        same_queues l sched l.curr_thread l.exited ts ws zs k p in
      elim (Bool-cases (next == null)) [
        | inl nobody ↦ elim (Bool-cases (l.curr_thread == null)) [
          | inl unstarted ↦
              rw (nobody, unstarted)
                (λ _. record {
                  ts = ts;
                  ws = ws;
                  zs = zs;
                  consistent = stays;
                  running = λ pos. absurd (nonzero l.curr_thread unstarted pos);
                })
          | inr started ↦ elim (Bool-cases (lwpterminated (l.status l.curr_thread))) [
            | inl over ↦ elim (Bool-cases (l.stack l.curr_thread == null)) [
              | inl system ↦ rw (nobody, started, over, system) (λ h. cc)
              | inr mapped ↦ rw (nobody, started, over, mapped) (λ h. cc)
            ]
            | inr lives ↦
                rw (nobody, started, lives)
                  (λ _. record {
                    ts = ts;
                    ws = ws;
                    zs = zs;
                    consistent = stays;
                    running = calm (ground arith) lives;
                  })
          ]
        ]
        | inr somebody ↦
            let goes = some_next (ground arith) in
            elim (Bool-cases (l.curr_thread == next)) [
              | inl at ↦
                  let same : l.curr_thread ≡ next = ground arith in
                  rw (somebody, at)
                    (λ _. record {
                      ts = ts;
                      ws = ws;
                      zs = zs;
                      consistent = stays;
                      running = λ pos. ap (ready ts ws) same ∙ goes;
                    })
              | inr other ↦
                  rw (somebody, other)
                    (λ _. record {
                      ts = ts;
                      ws = ws;
                      zs = zs;
                      consistent = same_queues l sched next l.exited ts ws zs k p;
                      running = λ pos. goes;
                    })
            ]
      ]
    where
      nonzero : (c : ℕ) → (c == null) ≡ true → 0 < c → ⊥
      nonzero c h pos = ground arith
