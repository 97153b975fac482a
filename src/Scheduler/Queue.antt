-- ===== src/Scheduler/Queue.antt =====
-- Asgn2/scheduler.c, `rr_init`, `rr_admit` and `rr_remove`: on the list of threads they are the empty
-- list, an append and the removal of one thread.
use csc.Prelude.{
  ◌+◌, ◌<◌, ◌≡◌, refl, sym, ap, subst, inl, inr, true, false, List, [], ◌∷◌, ◌++◌, arith, ◌==◌,
  length, length-append, Bool-cases,
}
use csc.Scheduler.RoundRobin.{
  Thread, null, Sched, set, rr_init, rr_admit, rr_remove, unlink, detach,
}
use csc.Scheduler.Links.{
  has, IsDistinct, Linked, Holds, Linked-join, IsDistinct-snoc, has_tail, nonnull, relink_end,
}
use csc.Scheduler.Erasure.{
  erase, find_loop-has, place, has-absent, IsDistinct-erase, count_unlink, detach_links,
}

-- A fresh scheduler holds no thread, whatever links its threads had.
pub rr_init-Holds : (s : Sched) → Holds (rr_init s) []
unfolding rr_init
rr_init-Holds s = record { counted = refl; distinct = tt; linked = (refl, refl) }

admit_links :
    (s : Sched) (new x : Thread) (xs : List Thread)
    → Linked s.prev s.next null s.head (x ∷ xs) s.tail null
    → IsDistinct (x ∷ xs)
    → 0 < new
    → has new (x ∷ xs) ≡ false
    → Linked
        (set s.prev new s.tail)
        (set (set s.next s.tail new) new null)
        null
        s.head
        ((x ∷ xs) ++ new ∷ [])
        new
        null
admit_links s new x xs l d pos fresh =
    let there = has_tail s.prev s.next null s.head x xs s.tail null l in
    Linked-join _ _ null s.head (x ∷ xs) (new ∷ []) s.tail new new null
      (relink_end s.prev s.next _ _ null s.head x xs s.tail null new l d (λ y i. ground arith)
        (λ y i ne. ground arith) (ground arith))
      (refl, pos, ground arith, (ground arith, refl))

-- Admitting a thread other than NULL that is not in a well-formed queue puts it at the end and
-- leaves the order of the others.
pub rr_admit-Holds :
    (s : Sched) (new : Thread) (xs : List Thread)
    → Holds s xs
    → 0 < new
    → has new xs ≡ false
    → Holds (rr_admit new s) (xs ++ new ∷ [])
unfolding rr_admit
rr_admit-Holds s new [] v pos fresh =
    let some_thread : (new == null) ≡ false = ground arith in
    let empty : (s.head == null) ≡ true = ground arith in
    rw (some_thread, empty)
      (record {
        counted = ground arith;
        distinct = (refl, tt);
        linked = (refl, pos, ground arith, (ground arith, refl));
      })
rr_admit-Holds s new (x ∷ xs) v pos fresh =
    let some_thread : (new == null) ≡ false = ground arith in
    let more : (s.head == null) ≡ false = ground arith in
    rw (some_thread, more)
      (record {
        counted = ground (arith, length-append {0} xs (new ∷ []));
        distinct = IsDistinct-snoc (x ∷ xs) new v.distinct fresh;
        linked = admit_links s new x xs v.linked v.distinct pos fresh;
      })

remove_there :
    (s : Sched) (victim : Thread) (xs : List Thread)
    → Holds s xs
    → has victim xs ≡ true
    → Holds (detach victim (unlink victim s)) (erase victim xs)
remove_there s victim xs v there =
    let r = place victim xs there in
    rw r.erased (record {
      counted = ground (
        arith,
        count_unlink victim s,
        length-append {0} r.ys (victim ∷ r.zs),
        length-append {0} r.ys r.zs,
        ap length r.whole,
      );
      distinct = IsDistinct-erase victim r.ys r.zs (rw (← r.whole) v.distinct);
      linked =
          detach_links s victim r.ys r.zs (rw (← r.whole) v.linked) (rw (← r.whole) v.distinct);
    })

-- Removing a thread from a well-formed queue takes it out and leaves the order of the others.
-- For a thread that is not in the queue, NULL included, nothing changes.
pub rr_remove-Holds :
    (s : Sched) (victim : Thread) (xs : List Thread)
    → Holds s xs
    → Holds (rr_remove victim s) (erase victim xs)
      × (has victim xs ≡ false → rr_remove victim s ≡ s)
unfolding rr_remove
rr_remove-Holds s victim xs v =
    let found =
      find_loop-has s (s.count + 1) null s.head victim s.tail xs v.linked
        (ground (arith, v.counted)) in
    elim (Bool-cases (has victim xs)) [
      | inl hit ↦
          let real : (victim == null) ≡ false =
            ground (arith, nonnull s.prev s.next null s.head xs s.tail null victim v.linked hit) in
          (rw (real, found, hit) (remove_there s victim xs v hit), λ miss. cc)
      | inr miss ↦
          let same : rr_remove victim s ≡ s = ground (arith, found) in
          (
            subst (λ r. Holds r (erase victim xs)) (sym same)
                (subst (λ l. Holds s l) (sym (has-absent victim xs miss)) v),
            λ _. same,
          )
    ]
