-- ===== src/Lwp/Transfer.antt =====
-- Asgn2/lwp.c, lwp_set_scheduler: a change of scheduler loses no thread and doubles none.
use csc.Prelude.{
  ℕ, zero, suc, ◌+◌, ◌<◌, ◌≡◌, refl, subst, ap, ◌∙◌, Bool, true, false, not, ◌&&◌, ◌||◌, ◌==◌, some,
  arith, Bool-cases, inl, inr,
}
use csc.Lwp.SetScheduler.{Scheduler, call_if, transfer_loop, lwp_set_scheduler, IsScheduler}

-- A thread that moves is in one of the two pools before and after.
moved_once :
    (m m' : ℕ → Bool) (thread x : ℕ)
    → m thread ≡ true
    → (not (x == thread) && m x || (x == thread || m' x)) ≡ (m x || m' x)
moved_once m m' thread x here = elim (Bool-cases (x == thread)) [
  | inl at ↦
      let e : x ≡ thread = ground arith in
      let there : m x ≡ true = ap m e ∙ here in rw (at, there) refl
  | inr off ↦ ground arith
]

moved_apart :
    (m m' : ℕ → Bool) (thread x : ℕ)
    → ((y : ℕ) → m y ≡ true → m' y ≡ false)
    → (not (x == thread) && m x) ≡ true
    → (x == thread || m' x) ≡ false
moved_apart m m' thread x apart i = let e = apart x in ground arith

module _ {S T : Type 0} {old : Scheduler S} {new : Scheduler T} (from : IsScheduler old)
    (to : IsScheduler new) where
  -- The rest of the transfer moves what is left in the old pool to the new one.
  transfer_loop-Pool :
      (left : ℕ) (thread : ℕ) (s : S) (t : T) (n : ℕ) (m m' : ℕ → Bool)
      → from.Pool s left m
      → to.Pool t n m'
      → (0 < left → m thread ≡ true)
      → ((x : ℕ) → m x ≡ true → m' x ≡ false)
      → let r = transfer_loop old new left thread s t in
        from.Pool r.0 0 (λ _. false) × to.Pool r.1 (n + left) (λ x. m x || m' x)
  unfolding transfer_loop
  transfer_loop-Pool zero thread s t n m m' a b there apart =
      let empty = from.pool_empty s m a in
      (
        from.pool_ext s 0 m _ empty a,
        subst (λ k. to.Pool t k (λ x. m x || m' x)) (omega arith)
            (to.pool_ext t n m' _ (λ x. let e = empty x in ground arith) b),
      )
  transfer_loop-Pool (suc left) thread s t n m m' a b there apart =
      let here = there (omega arith) in
      let taken =
        subst (λ k. from.Pool (old.remove_thread thread s) k (λ y. not (y == thread) && m y))
          (omega arith) (from.removes s (suc left) m thread a here) in
      let given =
        to.admits t n m' thread b (from.pool_nonnull s (suc left) m a thread here)
          (apart thread here) in
      let (pool, picked) = from.picks (old.remove_thread thread s) left _ taken in
      let (drained, filled) =
        transfer_loop-Pool left _ _ _ (n + 1) _ _ pool given picked
          (λ x i. moved_apart m m' thread x apart i) in
      (
        drained,
        subst (λ k. to.Pool (transfer_loop old new (suc left) thread s t).1 k (λ x. m x || m' x))
            (omega arith) (to.pool_ext _ _ _ _ (λ x. moved_once m m' thread x here) filled),
      )

  -- Between two schedulers that keep the laws of the interface, when the new one is empty after
  -- its `init`, a change of scheduler leaves in the new one exactly the threads that the old one
  -- had, each once. A change to the current scheduler changes nothing.
  pub lwp_set_scheduler-Pool :
      (s : S) (t : T) (n : ℕ) (m : ℕ → Bool)
      → from.Pool s n m
      → to.Pool (call_if new.init t) 0 (λ _. false)
      → to.Pool (lwp_set_scheduler false (some old) new s t).1 n m
        × (lwp_set_scheduler true (some old) new s t ≡ (s, t))
  unfolding lwp_set_scheduler
  lwp_set_scheduler-Pool s t n m a b =
      let (pool, picked) = from.picks s n m a in
      let len = from.counts _ n m pool in
      let (_, filled) =
        transfer_loop-Pool n (old.next_thread s).0 (old.next_thread s).1 (call_if new.init t) 0 m
          (λ _. false) pool b picked (λ x i. refl) in
      (
        rw len (
            to.pool_ext _ n _ m (λ x. ground arith)
              (subst
                (λ k.
                  to.Pool
                    (transfer_loop old new n (old.next_thread s).0 (old.next_thread s).1
                      (call_if new.init t)).1
                    k (λ x. m x || false))
                (omega arith) filled)),
        refl,
      )
