-- ===== src/Scheduler/Rotation.antt =====
-- Asgn2/scheduler.c, `rr_next`: the queue is rotated, so that every thread has its turn.
use csc.Prelude.{
  ℕ, zero, suc, ◌≡◌, refl, sym, subst, true, false, List, [], ◌∷◌, ◌++◌, append_assoc, append-nil,
  arith, ◌==◌, length, length-append,
}
use csc.Scheduler.RoundRobin.{Thread, null, Sched, set, rr_next, rr_qlen}
use csc.Scheduler.Links.{
  IsDistinct, Linked, Holds, Linked-join, IsDistinct-snoc, has_tail, relink_end, relink_start,
}

abbrev pub rotate : List Thread → List Thread
rotate [] = []
rotate (x ∷ xs) = xs ++ x ∷ []

abbrev pub first : List Thread → Thread
first [] = null
first (x ∷ xs) = x

rotate_links :
    (prev next : Thread → Thread) (x y tail : Thread) (ys : List Thread)
    → Linked prev next null x (x ∷ y ∷ ys) tail null
    → IsDistinct (x ∷ y ∷ ys)
    → Linked
        (set (set prev x tail) (next x) null)
        (set (set next tail x) x null)
        null
        (next x)
        ((y ∷ ys) ++ x ∷ [])
        x
        null
rotate_links prev next x y tail ys (at, pos, back, l) d =
    let there = has_tail prev next x (next x) y ys tail null l in
    let second : next x ≡ y = l.0 in
    Linked-join _ _ null (next x) (y ∷ ys) (x ∷ []) tail x x null
      (relink_end (set prev y null) next _ _ null (next x) y ys tail null x
        (relink_start prev next _ _ x null (next x) y ys tail null l (ground arith)
          (λ z i. ground arith) (λ z i. refl))
        d.1 (λ z i. ground arith) (λ z i ne. ground arith) (ground arith))
      (refl, pos, ground arith, (ground arith, refl))

-- In a well-formed queue the next thread is the first one, NULL for an empty queue, and the
-- queue is rotated.
pub rr_next-Holds :
    (s : Sched) (xs : List Thread)
    → Holds s xs
    → ((rr_next s).0 ≡ first xs) × Holds (rr_next s).1 (rotate xs)
unfolding rr_next
rr_next-Holds s [] v =
    let empty : (s.head == null) ≡ true = ground (arith, v.linked) in rw empty (refl, v)
rr_next-Holds s (x ∷ []) v =
    let more : (s.head == null) ≡ false = ground (arith, v.linked) in
    let alone : (s.head == s.tail) ≡ true = ground (arith, v.linked) in
    rw (more, alone) (v.linked.0, v)
rr_next-Holds s (x ∷ y ∷ ys) v =
    let more : (s.head == null) ≡ false = ground (arith, v.linked) in
    let tail_in = has_tail s.prev s.next x (s.next x) y ys s.tail null v.linked.3 in
    let apart : (s.head == s.tail) ≡ false = ground (arith, v.linked, v.distinct) in
    let rotated =
      subst
        (λ h.
          Linked (set (set s.prev h s.tail) (s.next h) null) (set (set s.next s.tail h) h null) null
            (s.next h) ((y ∷ ys) ++ x ∷ []) h null)
        (sym v.linked.0)
        (rotate_links s.prev s.next x y s.tail ys (refl, v.linked.1, v.linked.2, v.linked.3)
          v.distinct) in
    rw (more, apart)
      (
        v.linked.0,
        record {
          counted = ground (arith, v.counted, length-append {0} (y ∷ ys) (x ∷ []));
          distinct = IsDistinct-snoc (y ∷ ys) x v.distinct.1 v.distinct.0;
          linked = rotated;
        },
      )

-- The threads that the next `n` calls of rr_next return, and the scheduler after them.
abbrev pub turns : ℕ → Sched → List Thread × Sched
turns zero s = ([], s)
turns (suc n) s = let rest = turns n (rr_next s).1 in ((rr_next s).0 ∷ rest.0, rest.1)

turns-append :
    (s : Sched) (xs ys : List Thread)
    → Holds s (xs ++ ys)
    → ((turns (length xs) s).0 ≡ xs) × Holds (turns (length xs) s).1 (ys ++ xs)
turns-append s [] ys v = (refl, subst (Holds s) (sym (append-nil ys)) v)
turns-append s (x ∷ xs) ys v =
    let (here, after) = rr_next-Holds s (x ∷ xs ++ ys) v in
    let (names, end) =
      turns-append (rr_next s).1 xs (ys ++ x ∷ [])
        (subst (Holds (rr_next s).1) (append_assoc xs ys (x ∷ [])) after) in
    (
      ground (arith, here, names),
      subst (λ l. Holds (turns (length xs) (rr_next s).1).1 l) (append_assoc ys (x ∷ []) xs) end,
    )

-- Fairness: from a well-formed queue, as many calls of rr_next as there are threads return each
-- thread once, in the order of the queue, and leave the queue in that order.
pub rr_next_fair :
    (s : Sched) (xs : List Thread)
    → Holds s xs
    → ((turns (rr_qlen s) s).0 ≡ xs) × Holds (turns (rr_qlen s) s).1 xs
rr_next_fair s xs v =
    subst (λ n. ((turns n s).0 ≡ xs) × Holds (turns n s).1 xs) (sym v.counted)
      (turns-append s xs [] (subst (Holds s) (sym (append-nil xs)) v))
