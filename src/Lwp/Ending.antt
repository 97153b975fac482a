-- ===== src/Lwp/Ending.antt =====
-- Asgn2/lwp.c, lwp_exit: a live thread becomes a zombie, and the invariant is kept.
use csc.Prelude.{
  ℕ, ◌-◌, ◌<◌, ◌≡◌, ◌≢◌, refl, subst, true, false, ◌||◌, ◌==◌, List, [], ◌∷◌, ◌++◌, length,
  length-append, arith, Bool-cases, inl, inr, if◌then◌else◌,
}
use csc.Scheduler.Links.{has, has-append}
use csc.Lwp.ThreadQueue.{set_next, itself, insert, remove_live}
use csc.Lwp.Chains.{insert-Queued}
use csc.Lwp.Removal.{erase_first, remove-Queued}
use csc.Lwp.SetScheduler.{Scheduler, IsScheduler}
use csc.Lwp.Words.{lwpterminated, mktermstat, lwp_term}
use csc.Lwp.Stacks.{mktermstat_lem}
use csc.Lwp.Library.{Library}
use csc.Lwp.Erased.{has-erase_first, length-erase_first, kept_by_erase}
use csc.Lwp.Consistent.{ready, IsSplit, IsKnown, IsConsistent}
use csc.Lwp.Changes.{IsNamed-mono}

-- Of a list that was made longer by one node.
pub has-snoc : (x c : ℕ) (xs : List ℕ) → has x (xs ++ c ∷ []) ≡ (has x xs || x == c)
has-snoc x c xs = let a = has-append x xs (c ∷ []) in ground arith

-- A write at a node that is not in the list.
pub set_next-apart :
    (f : ℕ → ℕ) (node v x : ℕ) (xs : List ℕ)
    → has node xs ≡ false
    → has x xs ≡ true
    → set_next f node v x ≡ f x
set_next-apart f node v x xs fresh i = elim (Bool-cases (x == node)) [
  | inl at ↦ let e : x ≡ node = ground arith in let h : has node xs ≡ true = rw (← e) i in cc
  | inr other ↦ rw other refl
]

module _ {S : Type 0} (l : Library S) (node exit_status : ℕ) (ts zs : List ℕ) where
  -- The state of the running thread and of the zombies after it has become one.
  abbrev pub ended_status : ℕ → ℕ
  ended_status t = if t == l.curr_thread then mktermstat lwp_term exit_status else l.status t

  ended_dead :
      IsSplit l ts zs
      → has l.curr_thread ts ≡ true
      → has l.curr_thread (erase_first itself l.curr_thread ts) ≡ false
      → has node zs ≡ false
      → (z : ℕ) → has z (zs ++ node ∷ []) ≡ true
      → let t = set_next l.zombie_thread node l.curr_thread z in
        (has t (erase_first itself l.curr_thread ts) ≡ false)
        × (lwpterminated (ended_status t) ≡ true)
  ended_dead s alive gone fresh z i = elim (Bool-cases (z == node)) [
    | inl at ↦
        let same : (l.curr_thread == l.curr_thread) ≡ true = ground arith in
        rw (at, same) (gone, (mktermstat_lem exit_status).0)
    | inr other ↦
        let old : has z zs ≡ true = (let a = has-snoc z node zs in ground arith) in
        let (away, over) = s.dead z old in
        let apart : (l.zombie_thread z == l.curr_thread) ≡ false =
          elim (Bool-cases (l.zombie_thread z == l.curr_thread)) [
            | inl at ↦
                let e : l.zombie_thread z ≡ l.curr_thread = ground arith in
                let b : has l.curr_thread ts ≡ false = subst (λ v. has v ts ≡ false) e away in cc
            | inr o ↦ o
          ] in
        rw (other, apart)
          (
            elim (Bool-cases (has (l.zombie_thread z) (erase_first itself l.curr_thread ts))) [
              | inl still ↦
                  let b = kept_by_erase itself l.curr_thread (l.zombie_thread z) ts still in cc
              | inr o ↦ o
            ],
            over,
          )
  ]

  ended_once :
      IsSplit l ts zs
      → has l.curr_thread ts ≡ true
      → (y z : ℕ) → has y (zs ++ node ∷ []) ≡ true
      → has z (zs ++ node ∷ []) ≡ true
      → set_next l.zombie_thread node l.curr_thread y
        ≡ set_next l.zombie_thread node l.curr_thread z
      → y ≡ z
  ended_once s alive y z i j e =
      let a = has-snoc y node zs in
      let b = has-snoc z node zs in
      let other = λ (x : ℕ) (h : has x zs ≡ true). not_curr x (s.dead x h).0 in
      elim (Bool-cases (y == node)) [
        | inl at ↦ elim (Bool-cases (z == node)) [
          | inl too ↦ ground arith
          | inr off ↦ let c = other z (ground arith) in ground arith
        ]
        | inr off ↦ elim (Bool-cases (z == node)) [
          | inl at ↦ let c = other y (ground arith) in ground arith
          | inr too ↦ s.once y z (ground arith) (ground arith) (ground arith)
        ]
      ]
    where
      not_curr : (x : ℕ) → has (l.zombie_thread x) ts ≡ false → l.zombie_thread x ≢ l.curr_thread
      not_curr x away e =
          let b : has l.curr_thread ts ≡ false = subst (λ v. has v ts ≡ false) e away in cc

module _ {S : Type 0} {ops : Scheduler S} (laws : IsScheduler ops) where
  -- The running thread leaves the scheduler and the live queue, and a new wrapper makes it a zombie.
  pub ends :
      (l : Library S) (node exit_status : ℕ) (ts ws zs : List ℕ)
      → IsConsistent laws l ts ws zs
      → ready ts ws l.curr_thread ≡ true
      → 0 < node
      → has node zs ≡ false
      → IsConsistent laws
          (record l {
            status = ended_status l node exit_status ts zs;
            zombie_thread = set_next l.zombie_thread node l.curr_thread;
            zombies = insert node l.zombies;
            sched = ops.remove_thread l.curr_thread l.sched;
            live = remove_live l.fuel l.curr_thread l.live;
          })
          (erase_first itself l.curr_thread ts)
          ws
          (zs ++ node ∷ [])
  ends l node exit_status ts ws zs k r real fresh =
      let q = k.queues in
      let p = k.pooled in
      let c = l.curr_thread in
      let ts' = erase_first itself c ts in
      let alive : has c ts ≡ true = ground arith in
      let awake : has c ws ≡ false = ground arith in
      let pos : 0 < c = k.ids.nonnull c (inl alive) in
      let len_ts = length-erase_first c ts alive in
      let len_zs = length-append {0} zs (node ∷ []) in
      let filled : 0 < length ts = nonempty c ts alive in
      let less : length ws < length ts = ready_counts k r in
      let left = λ (x : ℕ). has-erase_first c x ts q.live.distinct in
      let gone : has c ts' ≡ false = (let e = left c in ground arith) in
      record {
        queues = record {
          live =
              (remove-Queued l.fuel itself c l.live ts q.live
                  (let a = q.few in let b = q.enough in omega (arith, a, b))).0
                pos;
          waiting = q.waiting;
          zombies = insert-Queued l.zombies node zs q.zombies real fresh;
          sleepers = λ x i.
              let e = left x in
              let still = q.sleepers x i in
              elim (Bool-cases (x == c)) [
                | inl at ↦
                    let same : x ≡ c = ground arith in let h : has c ws ≡ true = rw (← same) i in cc
                | inr other ↦ ground arith
              ];
          few = let a = q.few in omega (arith, a, len_ts, len_zs, filled);
          fewer = omega (arith, less, len_ts);
          enough = q.enough;
          word = q.word;
        };
        pooled = record {
          awake = p.awake - 1;
          pool =
              laws.pool_ext _ _ _ _ (λ x. let e = left x in ground arith)
                (laws.removes l.sched p.awake (ready ts ws) c p.pool r);
          number = let num = p.number in omega (arith, len_ts, num, less);
        };
        split = record {
          lives = λ x i.
              let e = left x in
              let other : (x == c) ≡ false = ground arith in
              rw other (k.split.lives x (ground arith));
          dead = ended_dead l node exit_status ts zs k.split alive gone fresh;
          once = ended_once l node exit_status ts zs k.split alive;
        };
        ids = IsNamed-mono l _ ts zs ts' (zs ++ node ∷ []) k.ids refl refl (λ x n. elim n [
          | inl still ↦ (inl (kept_by_erase itself c x ts still), refl)
          | inr (z, i, e) ↦ (was_known alive x z i e, refl)
        ]);
      }
    where
      nonempty : (x : ℕ) (xs : List ℕ) → has x xs ≡ true → 0 < length xs
      nonempty x [] h = cc
      nonempty x (y ∷ ys) h = omega arith

      ready_counts :
          IsConsistent laws l ts ws zs → ready ts ws l.curr_thread ≡ true → length ws < length ts
      ready_counts k r =
          let p = k.pooled in
          let num = p.number in
          elim (Bool-cases (p.awake == 0)) [
            | inl nobody ↦
                let z : p.awake ≡ 0 = ground arith in
                let none_ready =
                  laws.pool_empty l.sched (ready ts ws)
                    (subst (λ n. laws.Pool l.sched n (ready ts ws)) z p.pool) l.curr_thread in
                cc
            | inr somebody ↦ ground arith
          ]

      was_known :
          has l.curr_thread ts ≡ true
          → (x z : ℕ) → has z (zs ++ node ∷ []) ≡ true
          → set_next l.zombie_thread node l.curr_thread z ≡ x
          → IsKnown l ts zs x
      was_known alive x z i e =
          let a = has-snoc z node zs in
          elim (Bool-cases (z == node)) [
            | inl at ↦
                let same : l.curr_thread ≡ x = ground arith in
                inl (subst (λ v. has v ts ≡ true) same alive)
            | inr off ↦ inr (z, ground arith, ground arith)
          ]
