-- ===== src/Lwp/Changes.antt =====
-- Asgn2/lwp.c: what each change of the queues does to the invariant.
use csc.Prelude.{
  ℕ, ◌+◌, ◌-◌, ◌<◌, ◌≡◌, ◌≢◌, refl, ◌∙◌, subst, true, false, not, ◌&&◌, ◌||◌, ◌==◌, List, [], ◌∷◌,
  ◌++◌, length, length-append, arith, Bool-cases, inl, inr, if◌then◌else◌,
}
use csc.Scheduler.Links.{has, has-append}
use csc.Lwp.ThreadQueue.{itself, insert, remove, remove_waiting}
use csc.Lwp.Chains.{insert-Queued}
use csc.Lwp.Removal.{erase_first, remove-Queued}
use csc.Lwp.SetScheduler.{Scheduler, IsScheduler}
use csc.Lwp.Library.{Library}
use csc.Lwp.Erased.{
  has-erase_first, length-erase_first, kept_by_erase, gone_by_erase, length-erase_node,
  Queued-nonnull, Queued-head,
}
use csc.Lwp.Consistent.{ready, IsKnown, IsNamed, IsConsistent}

-- Fewer known threads with the same ids.
pub IsNamed-mono :
    {S : Type 0} (l l' : Library S) (ts zs ts' zs' : List ℕ)
    → IsNamed l ts zs
    → l'.tid ≡ l.tid
    → l'.curr_tid ≡ l.curr_tid
    → ((x : ℕ) → IsKnown l' ts' zs' x → IsKnown l ts zs x × (l'.freed x ≡ l.freed x))
    → IsNamed l' ts' zs'
IsNamed-mono l l' ts zs ts' zs' n same next less = record {
  nonnull = λ x k. n.nonnull x (less x k).0;
  named = λ x k. rw (same, next) (n.named x (less x k).0);
  apart = λ x y k j e. n.apart x y (less x k).0 (less y j).0 (rw (← same) e);
  kept = λ x k. (less x k).1 ∙ n.kept x (less x k).0;
}

module _ {S : Type 0} {ops : Scheduler S} (laws : IsScheduler ops) where
  -- A thread that the scheduler has leaves it and waits.
  pub falls_asleep :
      (l : Library S) (c : ℕ) (ts ws zs : List ℕ)
      → IsConsistent laws l ts ws zs
      → ready ts ws c ≡ true
      → IsConsistent laws
          (record l { sched = ops.remove_thread c l.sched; waiting = insert c l.waiting })
          ts
          (ws ++ c ∷ [])
          zs
  falls_asleep l c ts ws zs k r =
      let q = k.queues in
      let p = k.pooled in
      let there : has c ts ≡ true = ground arith in
      let off : has c ws ≡ false = ground arith in
      let long = length-append {0} ws (c ∷ []) in
      let some_awake : 0 < p.awake = elim (Bool-cases (p.awake == 0)) [
        | inl nobody ↦
            let z : p.awake ≡ 0 = ground arith in
            let none_ready =
              laws.pool_empty l.sched (ready ts ws)
                (subst (λ n. laws.Pool l.sched n (ready ts ws)) z p.pool) c in
            cc
        | inr somebody ↦ ground arith
      ] in
      record {
        queues = record {
          live = q.live;
          waiting = insert-Queued l.waiting c ws q.waiting (Queued-nonnull c ts q.live there) off;
          zombies = q.zombies;
          sleepers = λ x i. elim (Bool-cases (x == c)) [
            | inl at ↦ let e : x ≡ c = ground arith in rw e there
            | inr other ↦ let a = has-append x ws (c ∷ []) in q.sleepers x (ground arith)
          ];
          few = q.few;
          fewer = let num = p.number in omega (arith, long, num, some_awake);
          enough = q.enough;
          word = q.word;
        };
        pooled = record {
          awake = p.awake - 1;
          pool =
              laws.pool_ext _ _ _ _ (λ x. let a = has-append x ws (c ∷ []) in ground arith)
                (laws.removes l.sched p.awake (ready ts ws) c p.pool r);
          number = let num = p.number in omega (arith, long, num, some_awake);
        };
        split = record { lives = k.split.lives; dead = k.split.dead; once = k.split.once };
        ids = IsNamed-mono l _ ts zs ts zs k.ids refl refl (λ x n. (n, refl));
      }

  -- The oldest waiting thread wakes.
  pub wakes_up :
      (l : Library S) (exited : ℕ → ℕ) (ts ws zs : List ℕ)
      → IsConsistent laws l ts ws zs
      → 0 < l.waiting.head
      → IsConsistent laws
          (record l {
            exited = exited;
            sched = ops.admit l.waiting.head l.sched;
            waiting = remove_waiting l.fuel l.waiting.head l.waiting;
          })
          ts
          (erase_first itself l.waiting.head ws)
          zs
  wakes_up l exited ts ws zs k some_waits =
      let q = k.queues in
      let p = k.pooled in
      let w = l.waiting.head in
      let there : has w ws ≡ true = Queued-head ws q.waiting some_waits in
      let alive = q.sleepers w there in
      let long = length-erase_first w ws there in
      let short : length ws < l.fuel =
        (let a = q.few in let b = q.enough in let c = q.fewer in omega (arith, a, b, c)) in
      let filled : 0 < length ws = nonempty w ws there in
      record {
        queues = record {
          live = q.live;
          waiting = (remove-Queued l.fuel itself w l.waiting ws q.waiting short).0 some_waits;
          zombies = q.zombies;
          sleepers = λ x i. q.sleepers x (kept_by_erase itself w x ws i);
          few = q.few;
          fewer = let a = q.fewer in omega (arith, a, long);
          enough = q.enough;
          word = q.word;
        };
        pooled = record {
          awake = p.awake + 1;
          pool =
              laws.pool_ext _ _ _ _
                (λ x. admitted x there alive (has-erase_first w x ws q.waiting.distinct))
                (laws.admits l.sched p.awake (ready ts ws) w p.pool some_waits (ground arith));
          number = let num = p.number in omega (arith, long, num, filled);
        };
        split = record { lives = k.split.lives; dead = k.split.dead; once = k.split.once };
        ids = IsNamed-mono l _ ts zs ts zs k.ids refl refl (λ x n. (n, refl));
      }
    where
      nonempty : (x : ℕ) (xs : List ℕ) → has x xs ≡ true → 0 < length xs
      nonempty x [] h = cc
      nonempty x (y ∷ ys) h = omega arith

      admitted :
          (x : ℕ)
          → has l.waiting.head ws ≡ true
          → has l.waiting.head ts ≡ true
          → has x (erase_first itself l.waiting.head ws) ≡ (not (x == l.waiting.head) && has x ws)
          → (x == l.waiting.head || ready ts ws x)
            ≡ ready ts (erase_first itself l.waiting.head ws) x
      admitted x there alive e = elim (Bool-cases (x == l.waiting.head)) [
        | inl at ↦
            let same : x ≡ l.waiting.head = ground arith in
            let a : has x ts ≡ true = rw same alive in ground arith
        | inr other ↦ ground arith
      ]

  -- A zombie leaves the library and is freed.
  pub leaves :
      (l : Library S) (victim z : ℕ) (ts ws zs : List ℕ)
      → IsConsistent laws l ts ws zs
      → has z zs ≡ true
      → l.zombie_thread z ≡ victim
      → IsConsistent laws
          (record l {
            zombies = remove l.fuel l.zombie_thread victim l.zombies;
            freed = λ t. if t == victim then true else l.freed t;
          })
          ts
          ws
          (erase_first l.zombie_thread victim zs)
  leaves l victim z ts ws zs k there mine =
      let q = k.queues in
      let s = k.split in
      let zs' = erase_first l.zombie_thread victim zs in
      let long = length-erase_node l.zombie_thread victim z zs there mine in
      let short : length zs < l.fuel = (let a = q.few in let b = q.enough in omega (arith, a, b)) in
      let stays = λ (x : ℕ). kept_by_erase l.zombie_thread victim x zs in
      let not_victim : (x : ℕ) → has x zs' ≡ true → l.zombie_thread x ≢ victim =
        λ x. gone_by_erase l.zombie_thread victim x zs q.zombies.distinct s.once in
      let not_live : has victim ts ≡ false =
        subst (λ v. has v ts ≡ false) mine (s.dead z there).0 in
      record {
        queues = record {
          live = q.live;
          waiting = q.waiting;
          zombies =
              (remove-Queued l.fuel l.zombie_thread victim l.zombies zs q.zombies short).0
                (k.ids.nonnull victim (inr (z, there, mine)));
          sleepers = q.sleepers;
          few = let a = q.few in omega (arith, a, long);
          fewer = q.fewer;
          enough = q.enough;
          word = q.word;
        };
        pooled = record { awake = k.pooled.awake; pool = k.pooled.pool; number = k.pooled.number };
        split = record {
          lives = s.lives;
          dead = λ x i. s.dead x (stays x i);
          once = λ x y i j. s.once x y (stays x i) (stays y j);
        };
        ids = IsNamed-mono l _ ts zs ts zs' k.ids refl refl (λ x n. elim n [
          | inl alive ↦ (
            inl alive,
            let other : (x == victim) ≡ false = differs x alive not_live in rw other refl,
          )
          | inr (y, i, e) ↦ (
            inr (y, stays y i, e),
            let other : (x == victim) ≡ false = (let ne = not_victim y i in ground arith) in
                rw other refl,
          )
        ]);
      }
    where
      differs : (x : ℕ) → has x ts ≡ true → has victim ts ≡ false → (x == victim) ≡ false
      differs x a b = elim (Bool-cases (x == victim)) [
        | inl at ↦
            let same : x ≡ victim = ground arith in
            let c : has victim ts ≡ true = rw (← same) a in cc
        | inr o ↦ o
      ]
