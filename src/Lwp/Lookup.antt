-- ===== src/Lwp/Lookup.antt =====
-- Asgn2/lwp.c, lwp_create and tid2thread: a thread is found under its id.
use csc.Prelude.{ℕ, ◌≡◌, ◌≢◌, refl, ap, ◌∙◌, subst, sym, true, false, ◌==◌, List, arith, inl, inr}
use csc.Scheduler.Links.{has}
use csc.Lwp.ThreadQueue.{null}
use csc.Lwp.Removal.{first_node, find_zombie-first_node}
use csc.Lwp.SetScheduler.{Scheduler, IsScheduler}
use csc.Lwp.Library.{Library}
use csc.Lwp.Create.{find_tid, tid2thread}
use csc.Lwp.Erased.{first_node-found, first_node-missing, Queued-nonnull}
use csc.Lwp.Consistent.{IsKnown, IsConsistent, IsSound}

module _ {S : Type 0} {ops : Scheduler S} (laws : IsScheduler ops) where
  -- The three loops, on the lists.
  loops :
      (l : Library S) (ts ws zs : List ℕ) (tid : ℕ)
      → IsConsistent laws l ts ws zs
      → (find_tid (λ p. p) l.live tid l ≡ first_node l.tid tid ts)
        × (find_tid (λ p. p) l.waiting tid l ≡ first_node l.tid tid ws)
        × (find_tid l.zombie_thread l.zombies tid l
            ≡ first_node (λ z. l.tid (l.zombie_thread z)) tid zs)
  unfolding find_tid
  loops l ts ws zs tid k =
      let q = k.queues in
      let a = q.few in
      let b = q.enough in
      let c = q.fewer in
      (
        find_zombie-first_node l.fuel _ tid l.live ts q.live (omega (arith, a, b)),
        find_zombie-first_node l.fuel _ tid l.waiting ws q.waiting (omega (arith, a, b, c)),
        find_zombie-first_node l.fuel _ tid l.zombies zs q.zombies (omega (arith, a, b)),
      )

  pub finds_known :
      (l : Library S) (ts ws zs : List ℕ) (x : ℕ)
      → IsConsistent laws l ts ws zs
      → IsKnown l ts zs x
      → tid2thread (l.tid x) l ≡ x
  unfolding tid2thread
  finds_known l ts ws zs x k (inl alive) =
      let (live_loop, waiting_loop, zombie_loop) = loops l ts ws zs (l.tid x) k in
      let here : find_tid (λ p. p) l.live (l.tid x) l ≡ x =
        live_loop
        ∙ first_node-found l.tid (l.tid x) x ts (λ y i e. k.ids.apart y x (inl i) (inl alive) e)
            alive refl in
      let pos = k.ids.nonnull x (inl alive) in
      let some_thread : (find_tid (λ p. p) l.live (l.tid x) l == null) ≡ false = ground arith in
      rw some_thread here
  finds_known l ts ws zs x k (inr (z, i, mine)) =
      let (live_loop, waiting_loop, zombie_loop) = loops l ts ws zs (l.tid x) k in
      let dead : IsKnown l ts zs x = inr (z, i, mine) in
      let not_live : has x ts ≡ false = subst (λ v. has v ts ≡ false) mine (k.split.dead z i).0 in
      let other : (y : ℕ) → has y ts ≡ true → l.tid y ≢ l.tid x =
        λ y j e. differs x y not_live j (k.ids.apart y x (inl j) dead e) in
      let a : find_tid (λ p. p) l.live (l.tid x) l ≡ null =
        live_loop ∙ first_node-missing l.tid (l.tid x) ts other in
      let b : find_tid (λ p. p) l.waiting (l.tid x) l ≡ null =
        waiting_loop
        ∙ first_node-missing l.tid (l.tid x) ws (λ y j. other y (k.queues.sleepers y j)) in
      let c : find_tid l.zombie_thread l.zombies (l.tid x) l ≡ z =
        zombie_loop
        ∙ first_node-found (λ y. l.tid (l.zombie_thread y)) (l.tid x) z zs
            (λ y j e.
              k.split.once y z j i
                (k.ids.apart (l.zombie_thread y) x (inr (y, j, refl)) dead e ∙ sym mine))
            i (ap l.tid mine) in
      let pos = Queued-nonnull z zs k.queues.zombies i in
      let a' : (find_tid (λ p. p) l.live (l.tid x) l == null) ≡ true = ground arith in
      let b' : (find_tid (λ p. p) l.waiting (l.tid x) l == null) ≡ true = ground arith in
      let c' : (find_tid l.zombie_thread l.zombies (l.tid x) l == null) ≡ false = ground arith in
      rw (a', b', c') (ap l.zombie_thread c ∙ mine)
    where
      differs : (x y : ℕ) → has x ts ≡ false → has y ts ≡ true → y ≡ x → ⊥
      differs x y off i e = let a : has x ts ≡ true = subst (λ v. has v ts ≡ true) e i in cc

  finds_none :
      (l : Library S) (ts ws zs : List ℕ) (tid : ℕ)
      → IsConsistent laws l ts ws zs
      → ((x : ℕ) → IsKnown l ts zs x → l.tid x ≢ tid)
      → tid2thread tid l ≡ null
  unfolding tid2thread
  finds_none l ts ws zs tid k unknown =
      let (live_loop, waiting_loop, zombie_loop) = loops l ts ws zs tid k in
      let a : find_tid (λ p. p) l.live tid l ≡ null =
        live_loop ∙ first_node-missing l.tid tid ts (λ y j. unknown y (inl j)) in
      let b : find_tid (λ p. p) l.waiting tid l ≡ null =
        waiting_loop
        ∙ first_node-missing l.tid tid ws (λ y j. unknown y (inl (k.queues.sleepers y j))) in
      let c : find_tid l.zombie_thread l.zombies tid l ≡ null =
        zombie_loop
        ∙ first_node-missing (λ z. l.tid (l.zombie_thread z)) tid zs
            (λ z j. unknown (l.zombie_thread z) (inr (z, j, refl))) in
      let a' : (find_tid (λ p. p) l.live tid l == null) ≡ true = ground arith in
      let b' : (find_tid (λ p. p) l.waiting tid l == null) ≡ true = ground arith in
      let c' : (find_tid l.zombie_thread l.zombies tid l == null) ≡ true = ground arith in
      rw (a', b', c') refl

  -- In a sound state tid2thread gives every thread that the library knows, be it running, ready,
  -- waiting or a zombie, for its id, and NULL for an id that no such thread has.
  pub tid2thread_lem :
      (l : Library S) (s : IsSound laws l)
      → ((x : ℕ) → IsKnown l s.ts s.zs x → tid2thread (l.tid x) l ≡ x)
        × ((tid : ℕ) → ((x : ℕ) → IsKnown l s.ts s.zs x → l.tid x ≢ tid) → tid2thread tid l ≡ null)
  tid2thread_lem l s = (
    λ x. finds_known l s.ts s.ws s.zs x s.consistent,
    λ tid. finds_none l s.ts s.ws s.zs tid s.consistent,
  )
