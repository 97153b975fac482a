-- ===== src/Lwp/RoundRobinPool.antt =====
-- Asgn2/scheduler.c as the scheduler of Asgn2/lwp.c: round robin is what the library relies on.
use csc.Prelude.{
  ℕ, suc, ◌+◌, ◌-◌, ◌<◌, ◌≡◌, refl, sym, ap, ◌∙◌, Bool, true, false, not, ◌&&◌, ◌==◌, some, arith,
  List, [], ◌∷◌, ◌++◌, length, length-append, Bool-cases, inl, inr,
}
use csc.Scheduler.RoundRobin.{Sched, rr_init, rr_shutdown, rr_admit, rr_remove, rr_next, rr_qlen}
use csc.Scheduler.Links.{has, IsDistinct, Holds, has-append, nonnull}
use csc.Scheduler.Erasure.{erase}
use csc.Scheduler.Queue.{rr_admit-Holds, rr_remove-Holds}
use csc.Scheduler.Rotation.{rotate, first, rr_next-Holds}
use csc.Lwp.SetScheduler.{Scheduler, IsScheduler}

-- `rr_publish`
abbrev pub round_robin : Scheduler Sched
round_robin = record {
  init = some rr_init;
  shutdown = some rr_shutdown;
  admit = rr_admit;
  remove_thread = rr_remove;
  next_thread = rr_next;
  qlen = rr_qlen;
}

-- The queue has `n` threads, and they are those of the test.
pub record IsQueue (s : Sched) (n : ℕ) (m : ℕ → Bool) : Type 0 where
  pub threads : List ℕ
  pub held : Holds s threads
  pub number : length threads ≡ n
  pub members : (x : ℕ) → has x threads ≡ m x

pub has-erase :
    (a x : ℕ) (xs : List ℕ) → IsDistinct xs → has x (erase a xs) ≡ (not (x == a) && has x xs)
has-erase a x [] d = ground arith
has-erase a x (y ∷ ys) d = elim (Bool-cases (a == y)) [
  | inl at ↦
      let e : a ≡ y = ground arith in
      rw at (elim (Bool-cases (x == a)) [
        | inl same ↦
            let f : x ≡ y = ground arith in
            let g : has x ys ≡ false = ap (λ k. has k ys) f ∙ d.0 in ground arith
        | inr other ↦ ground arith
      ])
  | inr off ↦ rw off (let r = has-erase a x ys d.1 in ground arith)
]

pub length-erase : (a : ℕ) (xs : List ℕ) → has a xs ≡ true → length (erase a xs) ≡ length xs - 1
length-erase a [] h = cc
length-erase a (y ∷ ys) h = elim (Bool-cases (a == y)) [
  | inl at ↦ rw at (omega arith)
  | inr off ↦ rw off (let r = length-erase a ys (ground arith) in some_left ys (ground arith) r)
]
  where
    some_left :
        (ys : List ℕ)
        → has a ys ≡ true
        → length (erase a ys) ≡ length ys - 1
        → suc (length (erase a ys)) ≡ suc (length ys) - 1
    some_left [] h r = cc
    some_left (y ∷ ys) h r = omega (arith, r)

pub no_members : (x : ℕ) (xs : List ℕ) → length xs ≡ 0 → has x xs ≡ false
no_members x [] h = refl
no_members x (y ∷ ys) h = ground arith

pub length-rotate : (xs : List ℕ) → length (rotate xs) ≡ length xs
length-rotate [] = refl
length-rotate (x ∷ xs) = let a = length-append {0} xs (x ∷ []) in omega (arith, a)

pub has-rotate : (y : ℕ) (xs : List ℕ) → has y (rotate xs) ≡ has y xs
has-rotate y [] = refl
has-rotate y (x ∷ xs) = ground (arith, has-append y xs (x ∷ []))

pub has-first : (xs : List ℕ) → 0 < length xs → has (first xs) xs ≡ true
has-first [] h = elim h [ ]
has-first (x ∷ xs) h = ground arith

-- Round robin keeps a pool: what it admits is in it, what it removes is not, and the next thread is one
-- of the pool.
abbrev pub round_robin_laws : IsScheduler round_robin
round_robin_laws = record {
  Pool = IsQueue;
  pool_ext = λ s n m m' same q. record {
    threads = q.threads;
    held = q.held;
    number = q.number;
    members = λ x. q.members x ∙ same x;
  };
  pool_empty = λ s m q x. sym (q.members x) ∙ no_members x q.threads q.number;
  pool_nonnull = λ s n m q x i.
      nonnull s.prev s.next 0 s.head q.threads s.tail 0 x q.held.linked (q.members x ∙ i);
  admits = λ s n m x q pos fresh. record {
    threads = q.threads ++ x ∷ [];
    held = rr_admit-Holds s x q.threads q.held pos (q.members x ∙ fresh);
    number = let l = q.number in length-append {0} q.threads (x ∷ []) ∙ ap (λ k. k + 1) l;
    members = λ y. let l = q.members y in let a = has-append y q.threads (x ∷ []) in ground arith;
  };
  removes = λ s n m x q i. record {
    threads = erase x q.threads;
    held = (rr_remove-Holds s x q.threads q.held).0;
    number = length-erase x q.threads (q.members x ∙ i) ∙ ap (λ k. k - 1) q.number;
    members =
        λ y. has-erase x y q.threads q.held.distinct ∙ ap (λ b. not (y == x) && b) (q.members y);
  };
  picks = λ s n m q.
      let (head, turned) = rr_next-Holds s q.threads q.held in
      (
        record {
          threads = rotate q.threads;
          held = turned;
          number = length-rotate q.threads ∙ q.number;
          members = λ x. has-rotate x q.threads ∙ q.members x;
        },
        λ pos.
            ap m head
            ∙ sym (q.members (first q.threads))
            ∙ has-first q.threads (let l = q.number in omega (arith, pos, l)),
      );
  counts = λ s n m q. q.held.counted ∙ q.number;
}

-- An empty queue has no next thread.
pub round_robin_idles : (s : Sched) (m : ℕ → Bool) → IsQueue s 0 m → (rr_next s).0 ≡ 0
round_robin_idles s m q = (rr_next-Holds s q.threads q.held).0 ∙ first_of_none q.threads q.number
  where
    first_of_none : (xs : List ℕ) → length xs ≡ 0 → first xs ≡ 0
    first_of_none [] e = refl
    first_of_none (x ∷ xs) e = absurd (omega (arith, e))
