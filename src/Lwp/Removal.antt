-- ===== src/Lwp/Removal.antt =====
-- Asgn2/lwp.c, find_zombie, remove_live, remove_waiting and remove_zombie: on the list of nodes they find
-- and remove the first node of the thread.
use csc.Prelude.{
  ℕ, ◌<◌, ◌≡◌, ◌≢◌, ◌⊎◌, refl, sym, subst, ap, ◌∙◌, true, false, ◌==◌, List, [], ◌∷◌, ◌++◌, none,
  some, length, arith, if◌then◌else◌, Bool-cases, inl, inr, append-nil,
}
use csc.Scheduler.Links.{has, has-append, IsDistinct-split}
use csc.Scheduler.Erasure.{IsDistinct-erase}
use csc.Lwp.ThreadQueue.{null, NodeQueue, unlink_node, remove, find_zombie}
use csc.Lwp.Chains.{
  last, Queued, Chain-frame, Chain-split, Chain-join, Chain-relink, has-last, last-append, find_in,
  search-find_in,
}

abbrev pub erase_first : (ℕ → ℕ) → ℕ → List ℕ → List ℕ
erase_first thread_of victim [] = []
erase_first thread_of victim (x ∷ xs) =
    if thread_of x == victim then xs else (x ∷ erase_first thread_of victim xs)

-- The first node of the thread.
abbrev pub first_node : (ℕ → ℕ) → ℕ → List ℕ → ℕ
first_node thread_of victim [] = null
first_node thread_of victim (x ∷ xs) =
    if thread_of x == victim then x else first_node thread_of victim xs

-- Where the search finds the node, if it finds one.
record Spot (thread_of : ℕ → ℕ) (victim p : ℕ) (xs : List ℕ) : Type 0 where
  ys : List ℕ
  a : ℕ
  zs : List ℕ
  whole : xs ≡ ys ++ a ∷ zs
  erased : erase_first thread_of victim xs ≡ ys ++ zs
  mine : thread_of a ≡ victim
  found : find_in thread_of victim p xs ≡ some (last p ys, a)

record Missing (thread_of : ℕ → ℕ) (victim p : ℕ) (xs : List ℕ) : Type 0 where
  same : erase_first thread_of victim xs ≡ xs
  not_found : find_in thread_of victim p xs ≡ none

spot :
    (thread_of : ℕ → ℕ) (victim p : ℕ) (xs : List ℕ)
    → Spot thread_of victim p xs ⊎ Missing thread_of victim p xs
spot thread_of victim p [] = inr (record { same = refl; not_found = refl })
spot thread_of victim p (x ∷ xs) = elim (Bool-cases (thread_of x == victim)) [
  | inl hit ↦ inl (record {
    ys = [];
    a = x;
    zs = xs;
    whole = refl;
    erased = rw hit refl;
    mine = ground arith;
    found = rw hit refl;
  })
  | inr miss ↦ elim (spot thread_of victim x xs) [
    | inl r ↦ inl (record {
      ys = x ∷ r.ys;
      a = r.a;
      zs = r.zs;
      whole = ap (λ l. x ∷ l) r.whole;
      erased = rw (miss, r.erased) refl;
      mine = r.mine;
      found = rw miss r.found;
    })
    | inr r ↦ inr (record { same = rw (miss, r.same) refl; not_found = rw miss r.not_found })
  ]
]

unlink_node-Queued :
    (q : NodeQueue) (a : ℕ) (ys zs : List ℕ)
    → Queued q (ys ++ a ∷ zs)
    → Queued (unlink_node (last null ys) a q) (ys ++ zs)
unfolding unlink_node
unlink_node-Queued q a [] [] v =
    let first : (a == q.head) ≡ true = ground (arith, v.chain) in
    let final : (a == q.tail) ≡ true = ground (arith, v.tail_last) in
    rw (first, final) (record { chain = refl; tail_last = refl; distinct = tt })
unlink_node-Queued q a [] (z ∷ zs) v =
    let (at, pos, rest) = v.chain in
    let there = has-last z zs in
    let d = v.distinct in
    let first : (a == q.head) ≡ true = ground arith in
    let final : (a == q.tail) ≡ false = ground (arith, v.tail_last) in
    rw (final, first)
      (record {
        chain = Chain-frame q.next _ (q.next a) (z ∷ zs) null (λ x i. ground arith) rest;
        tail_last = v.tail_last;
        distinct = v.distinct.1;
      })
unlink_node-Queued q a (y ∷ ys) [] v =
    let (m, front, (at, pos, end)) = Chain-split q.next q.head (y ∷ ys) (a ∷ []) null v.chain in
    let (d1, d2, apart) = IsDistinct-split (y ∷ ys) (a ∷ []) v.distinct in
    let there = has-last y ys in
    let tail_a : q.tail ≡ a = v.tail_last ∙ last-append null (y ∷ ys) a [] in
    let first : (a == q.head) ≡ false = ground (arith, apart y, v.chain) in
    let final : (a == q.tail) ≡ true = ground arith in
    rw (first, final)
      (record {
        chain =
            Chain-join _ q.head (y ∷ ys) [] null null
              (Chain-relink q.next _ q.head y ys m null front d1 (λ x i ne. ground (arith, apart x))
                (ground (arith, apart (last y ys))))
              refl;
        tail_last = ap (last null) (sym (append-nil (y ∷ ys)));
        distinct = IsDistinct-erase a (y ∷ ys) [] v.distinct;
      })
unlink_node-Queued q a (y ∷ ys) (z ∷ zs) v =
    let (m, front, (at, pos, end)) = Chain-split q.next q.head (y ∷ ys) (a ∷ z ∷ zs) null v.chain in
    let (d1, (fresh, d2), apart) = IsDistinct-split (y ∷ ys) (a ∷ z ∷ zs) v.distinct in
    let there = has-last y ys in
    let there2 = has-last z zs in
    let tail_z : q.tail ≡ last z zs = v.tail_last ∙ last-append null (y ∷ ys) a (z ∷ zs) in
    let first : (a == q.head) ≡ false = ground (arith, apart y, v.chain) in
    let final : (a == q.tail) ≡ false = ground arith in
    rw (first, final)
      (record {
        chain =
            Chain-join _ q.head (y ∷ ys) (z ∷ zs) (q.next a) null
              (Chain-relink q.next _ q.head y ys m (q.next a) front d1
                (λ x i ne. ground (arith, apart x)) (ground (arith, apart (last y ys))))
              (Chain-frame q.next _ (q.next a) (z ∷ zs) null
                (λ x i. ground (arith, apart (last y ys))) end);
        tail_last = tail_z ∙ sym (last-append null (y ∷ ys) z zs);
        distinct = IsDistinct-erase a (y ∷ ys) (z ∷ zs) v.distinct;
      })

-- In a well-formed queue and with more fuel than it has nodes, the node that is found is the
-- first one of the thread, and NULL if the thread has none.
pub find_zombie-first_node :
    (fuel : ℕ) (thread_of : ℕ → ℕ) (victim : ℕ) (q : NodeQueue) (xs : List ℕ)
    → Queued q xs
    → length xs < fuel
    → find_zombie fuel thread_of victim q ≡ first_node thread_of victim xs
unfolding find_zombie
find_zombie-first_node fuel thread_of victim q xs v enough =
    rw (find_zombie, search-find_in fuel thread_of q victim null q.head xs v.chain enough)
      (same null xs)
  where
    same :
        (p : ℕ) (xs : List ℕ)
        → elim (find_in thread_of victim p xs) [ none ↦ null | some (_, curr) ↦ curr ]
          ≡ first_node thread_of victim xs
    same p [] = refl
    same p (x ∷ xs) = elim (Bool-cases (thread_of x == victim)) [
      | inl hit ↦ rw hit refl
      | inr miss ↦ rw miss (same x xs)
    ]

-- In a well-formed queue and with more fuel than it has nodes, the removal of a thread takes its
-- first node out of the queue and leaves the order of the others; a queue with no node of the
-- thread is left as it is, and so is any queue by the removal of NULL.
pub remove-Queued :
    (fuel : ℕ) (thread_of : ℕ → ℕ) (victim : ℕ) (q : NodeQueue) (xs : List ℕ)
    → Queued q xs
    → length xs < fuel
    → (0 < victim → Queued (remove fuel thread_of victim q) (erase_first thread_of victim xs))
      × (((x : ℕ) → has x xs ≡ true → thread_of x ≢ victim) → remove fuel thread_of victim q ≡ q)
      × (victim ≡ null → remove fuel thread_of victim q ≡ q)
unfolding remove
remove-Queued fuel thread_of victim q xs v enough = (
  λ pos.
      let real : (victim == null) ≡ false = ground arith in
      rw (real, search-find_in fuel thread_of q victim null q.head xs v.chain enough)
        (elim (spot thread_of victim null xs) [
          | inl r ↦
              rw (r.found, r.erased)
                (unlink_node-Queued q r.a r.ys r.zs (subst (Queued q) r.whole v))
          | inr r ↦ rw (r.not_found, r.same) v
        ]),
  λ absent. elim (spot thread_of victim null xs) [
    | inl r ↦
        let here : has r.a (r.ys ++ r.a ∷ r.zs) ≡ true =
          ground (arith, has-append r.a r.ys (r.a ∷ r.zs)) in
        elim (absent r.a (subst (λ l. has r.a l ≡ true) (sym r.whole) here) r.mine) [ ]
    | inr r ↦ elim (Bool-cases (victim == null)) [
      | inl nothing ↦ rw nothing refl
      | inr real ↦
          rw
            (
              real,
              search-find_in fuel thread_of q victim null q.head xs v.chain enough,
              r.not_found,
            )
            refl
    ]
  ],
  λ nothing. rw nothing refl,
)
