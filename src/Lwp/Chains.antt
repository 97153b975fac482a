-- ===== src/Lwp/Chains.antt =====
-- Asgn2/lwp.c: what it means that a queue of threads holds a list of nodes, and the search.
use csc.Prelude.{
  ℕ, zero, suc, ◌<◌, ◌≡◌, ◌≢◌, refl, sym, subst, true, false, ◌==◌, List, [], ◌∷◌, ◌++◌, Option,
  none, some, length, arith, if◌then◌else◌,
}
use csc.Scheduler.Links.{has, IsDistinct, IsDistinct-snoc}
use csc.Lwp.ThreadQueue.{null, NodeQueue, insert, search}

-- From `h` on the links lead through `xs` to `stop`.
abbrev pub Chain : (ℕ → ℕ) → ℕ → List ℕ → ℕ → Type 0
Chain next h [] stop = h ≡ stop
Chain next h (x ∷ xs) stop = (h ≡ x) × (0 < x) × Chain next (next x) xs stop

-- The last node of the list, or `p`.
abbrev pub last : ℕ → List ℕ → ℕ
last p [] = p
last p (x ∷ xs) = last x xs

-- The queue holds the nodes `xs`, in this order.
pub record Queued (q : NodeQueue) (xs : List ℕ) : Type 0 where
  pub chain : Chain q.next q.head xs null
  pub tail_last : q.tail ≡ last null xs
  pub distinct : IsDistinct xs

pub Chain-frame :
    (next next' : ℕ → ℕ) (h : ℕ) (xs : List ℕ) (stop : ℕ)
    → ((x : ℕ) → has x xs ≡ true → next' x ≡ next x)
    → Chain next h xs stop
    → Chain next' h xs stop
Chain-frame next next' h [] stop same c = c
Chain-frame next next' h (x ∷ xs) stop same (at, pos, rest) = (
  at,
  pos,
  rw (same x (ground arith))
      (Chain-frame next next' (next x) xs stop (λ y i. same y (ground arith)) rest),
)

pub Chain-split :
    (next : ℕ → ℕ) (h : ℕ) (xs ys : List ℕ) (stop : ℕ)
    → Chain next h (xs ++ ys) stop
    → (m : ℕ) × Chain next h xs m × Chain next m ys stop
Chain-split next h [] ys stop c = (h, refl, c)
Chain-split next h (x ∷ xs) ys stop (at, pos, rest) =
    let (m, front, end) = Chain-split next (next x) xs ys stop rest in (m, (at, pos, front), end)

pub Chain-join :
    (next : ℕ → ℕ) (h : ℕ) (xs ys : List ℕ) (m stop : ℕ)
    → Chain next h xs m
    → Chain next m ys stop
    → Chain next h (xs ++ ys) stop
Chain-join next h [] ys m stop e c = rw e c
Chain-join next h (x ∷ xs) ys m stop (at, pos, rest) c =
    (at, pos, Chain-join next (next x) xs ys m stop rest c)

pub has-last : (x : ℕ) (xs : List ℕ) → has (last x xs) (x ∷ xs) ≡ true
has-last x [] = ground arith
has-last x (y ∷ xs) = ground (arith, has-last y xs)

pub last-append : (p : ℕ) (xs : List ℕ) (y : ℕ) (ys : List ℕ) → last p (xs ++ y ∷ ys) ≡ last y ys
last-append p [] y ys = refl
last-append p (x ∷ xs) y ys = last-append x xs y ys

-- The last node of a segment is given another successor.
pub Chain-relink :
    (next next' : ℕ → ℕ) (h y : ℕ) (ys : List ℕ) (m m' : ℕ)
    → Chain next h (y ∷ ys) m
    → IsDistinct (y ∷ ys)
    → ((x : ℕ) → has x (y ∷ ys) ≡ true → x ≢ last y ys → next' x ≡ next x)
    → next' (last y ys) ≡ m'
    → Chain next' h (y ∷ ys) m'
Chain-relink next next' h y [] m m' (at, pos, rest) d same ends = (at, pos, ends)
Chain-relink next next' h y (z ∷ ys) m m' (at, pos, rest) d same ends =
    let there = has-last z ys in
    (
      at,
      pos,
      rw (same y (ground arith) (ground arith)) (
          Chain-relink next next' (next y) z ys m m' rest d.1 (λ x i ne. same x (ground arith) ne)
            ends),
    )

-- What the search finds in a list.
abbrev pub find_in : (ℕ → ℕ) → ℕ → ℕ → List ℕ → Option (ℕ × ℕ)
find_in thread_of victim p [] = none
find_in thread_of victim p (x ∷ xs) =
    if thread_of x == victim then some (p, x) else find_in thread_of victim x xs

-- With fuel for the whole queue the search goes through its list.
pub search-find_in :
    (fuel : ℕ) (thread_of : ℕ → ℕ) (q : NodeQueue) (victim p h : ℕ) (xs : List ℕ)
    → Chain q.next h xs null
    → length xs < fuel
    → search fuel thread_of q victim p h ≡ find_in thread_of victim p xs
unfolding search
search-find_in zero thread_of q victim p h xs c enough = elim enough [ ]
search-find_in (suc fuel) thread_of q victim p h [] end enough = rw end refl
search-find_in (suc fuel) thread_of q victim p h (x ∷ xs) (at, pos, rest) enough =
    let more : (h == null) ≡ false = ground arith in
    let r =
      search-find_in fuel thread_of q victim h (q.next h) xs
        (subst (λ k. Chain q.next (q.next k) xs null) (sym at) rest) (omega (arith, enough)) in
    rw more (rw r (rw at refl))

-- Inserting a node other than NULL that is not in a well-formed queue puts it at the end, and
-- leaves the order of the others.
pub insert-Queued :
    (q : NodeQueue) (new : ℕ) (xs : List ℕ)
    → Queued q xs
    → 0 < new
    → has new xs ≡ false
    → Queued (insert new q) (xs ++ new ∷ [])
unfolding insert
insert-Queued q new [] v pos fresh =
    let real : (new == null) ≡ false = ground arith in
    let empty : (q.head == null) ≡ true = ground (arith, v.chain) in
    rw (real, empty)
      (record { chain = (refl, pos, ground arith); tail_last = refl; distinct = (refl, tt) })
insert-Queued q new (x ∷ xs) v pos fresh =
    let real : (new == null) ≡ false = ground arith in
    let more : (q.head == null) ≡ false = ground (arith, v.chain) in
    let there = has-last x xs in
    let end = v.tail_last in
    rw (real, more)
      (record {
        chain =
            Chain-join _ q.head (x ∷ xs) (new ∷ []) new null
              (Chain-relink q.next _ q.head x xs null new v.chain v.distinct
                (λ y i ne. ground arith) (ground arith))
              (refl, pos, ground arith);
        tail_last = sym (last-append x xs new []);
        distinct = IsDistinct-snoc (x ∷ xs) new v.distinct fresh;
      })
