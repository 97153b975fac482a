-- ===== src/Lwp/Erased.antt =====
-- Asgn2/lwp.c: the lists of nodes that the removals leave.
use csc.Prelude.{
  ℕ, ◌+◌, ◌-◌, ◌<◌, ◌≡◌, ◌≢◌, refl, ap, true, false, not, ◌&&◌, ◌==◌, List, [], ◌∷◌, length, arith,
  Bool-cases, inl, inr,
}
use csc.Scheduler.Links.{has, IsDistinct}
use csc.Scheduler.Erasure.{erase}
use csc.Lwp.ThreadQueue.{null, NodeQueue, itself, set_next}
use csc.Lwp.Chains.{Chain, Chain-frame, Queued}
use csc.Lwp.Removal.{erase_first, first_node}
use csc.Lwp.RoundRobinPool.{has-erase, length-erase}

pub erase_first-erase : (a : ℕ) (xs : List ℕ) → erase_first itself a xs ≡ erase a xs
erase_first-erase a [] = refl
erase_first-erase a (x ∷ xs) = ground (arith, erase_first-erase a xs)

pub has-erase_first :
    (a x : ℕ) (xs : List ℕ)
    → IsDistinct xs
    → has x (erase_first itself a xs) ≡ (not (x == a) && has x xs)
has-erase_first a x xs d = rw (erase_first-erase a xs) (has-erase a x xs d)

pub length-erase_first :
    (a : ℕ) (xs : List ℕ) → has a xs ≡ true → length (erase_first itself a xs) ≡ length xs - 1
length-erase_first a xs h = rw (erase_first-erase a xs) (length-erase a xs h)

-- What stays was there.
pub kept_by_erase :
    (thread_of : ℕ → ℕ) (a x : ℕ) (xs : List ℕ)
    → has x (erase_first thread_of a xs) ≡ true
    → has x xs ≡ true
kept_by_erase thread_of a x [] h = h
kept_by_erase thread_of a x (y ∷ ys) h = ground (arith, kept_by_erase thread_of a x ys)

-- A node that is alone with its thread is gone.
pub gone_by_erase :
    (thread_of : ℕ → ℕ) (a x : ℕ) (xs : List ℕ)
    → IsDistinct xs
    → ((y z : ℕ) → has y xs ≡ true → has z xs ≡ true → thread_of y ≡ thread_of z → y ≡ z)
    → has x (erase_first thread_of a xs) ≡ true
    → thread_of x ≢ a
gone_by_erase thread_of a x [] d alone h same = cc
gone_by_erase thread_of a x (y ∷ ys) d alone h same = elim (Bool-cases (thread_of y == a)) [
  | inl hit ↦
      let here : has x ys ≡ true = ground arith in
      let e : y ≡ x = alone y x (ground arith) (ground arith) (ground arith) in
      let f : has x ys ≡ false = rw (← e) d.0 in cc
  | inr miss ↦ elim (Bool-cases (x == y)) [
    | inl at ↦ let e : x ≡ y = ground arith in let f = ap thread_of e in ground arith
    | inr off ↦
        gone_by_erase thread_of a x ys d.1 (λ u v i j. alone u v (ground arith) (ground arith))
          (ground arith) same
  ]
]

pub length-erase_node :
    (thread_of : ℕ → ℕ) (a x : ℕ) (xs : List ℕ)
    → has x xs ≡ true
    → thread_of x ≡ a
    → length (erase_first thread_of a xs) + 1 ≡ length xs
length-erase_node thread_of a x [] h same = cc
length-erase_node thread_of a x (y ∷ ys) h same = elim (Bool-cases (thread_of y == a)) [
  | inl hit ↦ rw hit (omega arith)
  | inr miss ↦
      let off : (x == y) ≡ false = elim (Bool-cases (x == y)) [
        | inl at ↦ let e : x ≡ y = ground arith in let f = ap thread_of e in ground arith
        | inr o ↦ o
      ] in
      let r = length-erase_node thread_of a x ys (ground arith) same in rw miss (omega (arith, r))
]

-- The node that is found is one of the list, with the thread.
pub first_node-has :
    (thread_of : ℕ → ℕ) (a : ℕ) (xs : List ℕ)
    → 0 < first_node thread_of a xs
    → (has (first_node thread_of a xs) xs ≡ true) × (thread_of (first_node thread_of a xs) ≡ a)
first_node-has thread_of a [] h = elim h [ ]
first_node-has thread_of a (y ∷ ys) h = ground (arith, first_node-has thread_of a ys)

pub first_node-found :
    (thread_of : ℕ → ℕ) (a x : ℕ) (xs : List ℕ)
    → ((y : ℕ) → has y xs ≡ true → thread_of y ≡ a → y ≡ x)
    → has x xs ≡ true
    → thread_of x ≡ a
    → first_node thread_of a xs ≡ x
first_node-found thread_of a x [] only h same = cc
first_node-found thread_of a x (y ∷ ys) only h same = elim (Bool-cases (thread_of y == a)) [
  | inl hit ↦ rw hit (only y (ground arith) (ground arith))
  | inr miss ↦
      let off : (x == y) ≡ false = elim (Bool-cases (x == y)) [
        | inl at ↦ let e : x ≡ y = ground arith in let f = ap thread_of e in ground arith
        | inr o ↦ o
      ] in
      rw miss
        (first_node-found thread_of a x ys (λ u i e. only u (ground arith) e) (ground arith) same)
]

pub first_node-missing :
    (thread_of : ℕ → ℕ) (a : ℕ) (xs : List ℕ)
    → ((y : ℕ) → has y xs ≡ true → thread_of y ≢ a)
    → first_node thread_of a xs ≡ null
first_node-missing thread_of a [] none_of = refl
first_node-missing thread_of a (y ∷ ys) none_of =
    let miss : (thread_of y == a) ≡ false = ground (arith, none_of y) in
    rw miss (first_node-missing thread_of a ys (λ u i. none_of u (ground arith)))

-- The nodes of a well-formed queue are not NULL.
Chain-nonnull :
    (next : ℕ → ℕ) (h x : ℕ) (xs : List ℕ) (stop : ℕ)
    → Chain next h xs stop
    → has x xs ≡ true
    → 0 < x
Chain-nonnull next h x [] stop c i = cc
Chain-nonnull next h x (y ∷ ys) stop (at, pos, rest) i =
    ground (arith, Chain-nonnull next (next y) x ys stop rest)

pub Queued-nonnull : {q : NodeQueue} (x : ℕ) (xs : List ℕ) → Queued q xs → has x xs ≡ true → 0 < x
Queued-nonnull {q} x xs v i = Chain-nonnull q.next q.head x xs null v.chain i

-- The head of a queue that is not empty.
pub Queued-head : {q : NodeQueue} (xs : List ℕ) → Queued q xs → 0 < q.head → has q.head xs ≡ true
Queued-head [] v h = absurd (let c = v.chain in omega arith)
Queued-head (x ∷ xs) v h = let (at, pos, rest) = v.chain in ground arith

-- The link of a node that is not in the queue may change.
pub Queued-frame :
    {q : NodeQueue} (x : ℕ) (xs : List ℕ)
    → Queued q xs
    → has x xs ≡ false
    → Queued (record q { next = set_next q.next x null }) xs
Queued-frame {q} x xs v off = record {
  chain =
      Chain-frame q.next _ q.head xs null
        (λ y i. elim (Bool-cases (y == x)) [
          | inl at ↦ let e : y ≡ x = ground arith in let f : has x xs ≡ true = rw (← e) i in cc
          | inr other ↦ rw other refl
        ])
        v.chain;
  tail_last = v.tail_last;
  distinct = v.distinct;
}
