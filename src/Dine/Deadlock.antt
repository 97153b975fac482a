-- ===== src/Dine/Deadlock.antt =====
-- Asgn3/dine.c: the threads never wait for each other in a circle, by the rule that even philosophers
-- take the right fork first and odd ones the left.
use csc.Prelude.{
  ℕ, zero, suc, ◌+◌, ◌-◌, ◌<◌, ◌≤◌, ◌≡◌, ◌⊎◌, refl, sym, subst, ◌∙◌, Bool, true, false, ◌==◌, none,
  some, Bool-cases, Option-cases, inl, inr, arith, if◌then◌else◌,
}
use csc.Dine.Philosopher.{
  Side, left, right, Turn, first_fork, second_fork, Section, Table, Pc, loop, grab, lock, write,
  put_down, print, unlock, dawdle, count, returned, fork_index, right_fork_index, side, is_even,
  act, run, Reach,
}
use csc.Dine.Ownership.{bit, owns, inside, same_side}
use csc.Dine.Accounts.{
  right_fork_index-cases, right_fork_index-lt, right_user, right_user-lt, right_user-right_fork,
  Inv, Reach-Accounts, sum,
}

-- A thread that cannot run has returned, or waits for a fork or for the lock.
data Blocked (n i : ℕ) (t : Table) (pc : Pc) : Type 0 where
  has_returned : pc ≡ returned → Blocked n i t pc
  waits_fork :
      (x : Turn)
      → pc ≡ grab x
      → t.forks (fork_index n i (side (is_even i) x)) ≡ 0
      → Blocked n i t pc
  waits_lock : (b : Section) → pc ≡ lock b → t.printing_lock ≡ 0 → Blocked n i t pc

if_none : {A : Type 0} (x : A) (b : Bool) → (if b then none else some x) ≡ none → b ≡ true
if_none x true e = refl
if_none x false e = cc

act-Blocked : (n i : ℕ) (pc : Pc) (t : Table) → act n i pc t ≡ none → Blocked n i t pc
unfolding act
act-Blocked n i (grab x) t e = let h = if_none _ _ e in waits_fork x refl (ground arith)
act-Blocked n i (lock b) t e = let h = if_none _ _ e in waits_lock b refl (ground arith)
act-Blocked n i returned t e = has_returned refl
act-Blocked n i loop t e = cc
act-Blocked n i (write b) t e = cc
act-Blocked n i (put_down x) t e = cc
act-Blocked n i (print b) t e = cc
act-Blocked n i (unlock b) t e = cc
act-Blocked n i (dawdle r) t e = cc
act-Blocked n i count t e = cc

-- No thread runs, and none is left in a section under the lock.
pub data Idle (n i : ℕ) (t : Table) : Type 0 where
  done : (t.phils i).pc ≡ returned → Idle n i t
  starves :
      (x : Turn)
      → (t.phils i).pc ≡ grab x
      → t.forks (fork_index n i (side (is_even i) x)) ≡ 0
      → Idle n i t

sum_zero : (n : ℕ) (f : ℕ → ℕ) → ((i : ℕ) → i < n → f i ≡ 0) → sum n f ≡ 0
sum_zero zero f h = refl
sum_zero (suc n) f h =
    let a = sum_zero n f (λ i k. h i (omega (arith, k))) in
    let b = h n (omega arith) in omega (arith, a, b)

Blocked-outside : (n i : ℕ) (t : Table) (pc : Pc) → Blocked n i t pc → bit (inside pc) ≡ 0
Blocked-outside n i t pc (has_returned e) = rw e refl
Blocked-outside n i t pc (waits_fork x e _) = rw e refl
Blocked-outside n i t pc (waits_lock b e _) = rw e refl

Blocked-Idle :
    (n : ℕ) (t : Table)
    → Inv n t
    → ((i : ℕ) → i < n → Blocked n i t (t.phils i).pc)
    → (i : ℕ) → i < n
    → Idle n i t
Blocked-Idle n t v all i h = kind (all i h)
  where
    kind : Blocked n i t (t.phils i).pc → Idle n i t
    kind (has_returned e) = done e
    kind (waits_fork x e z) = starves x e z
    kind (waits_lock b e z) =
        let none_inside =
          sum_zero n (λ j. bit (inside (t.phils j).pc))
            (λ j k. Blocked-outside n j t (t.phils j).pc (all j k)) in
        let a = v.lock_account in let bad : 1 ≤ 0 = omega (arith, none_inside, a, z) in elim bad [ ]

absurd_true : {A : Type 0} → false ≡ true → A
absurd_true e = cc

-- Who owns a fork waits for its second one.
second_waits :
    (n i : ℕ) (t : Table) (s : Side)
    → Idle n i t
    → owns (is_even i) (t.phils i).pc s ≡ true
    → (same_side s (side (is_even i) first_fork) ≡ true)
      × (t.forks (fork_index n i (side (is_even i) second_fork)) ≡ 0)
second_waits n i t s (done e) o = absurd_true (subst (λ pc. owns (is_even i) pc s ≡ true) e o)
second_waits n i t s (starves first_fork e z) o =
    absurd_true (subst (λ pc. owns (is_even i) pc s ≡ true) e o)
second_waits n i t s (starves second_fork e z) o =
    (subst (λ pc. owns (is_even i) pc s ≡ true) e o, z)

an_owner : (a : ℕ) (x y : Bool) → a + bit x + bit y ≡ 1 → a ≡ 0 → (x ≡ true) ⊎ (y ≡ true)
an_owner a true y h z = inl refl
an_owner a false true h z = inr refl
an_owner a false false h z = ground arith

module _ (n : ℕ) (t : Table) (two : 2 ≤ n) (v : Inv n t) (idle : (i : ℕ) → i < n → Idle n i t) where
  -- A fork that is not there is with its left or its right user, who waits for the second fork.
  taken :
      (k : ℕ)
      → k < n
      → t.forks k ≡ 0
      → ((is_even k ≡ false) × (t.forks (right_fork_index n k) ≡ 0))
        ⊎ ((is_even (right_user n k) ≡ true) × (t.forks (right_user n k) ≡ 0))
  unfolding side fork_index
  taken k h z =
      elim (an_owner (t.forks k) (owns (is_even k) (t.phils k).pc left)
        (owns (is_even (right_user n k)) (t.phils (right_user n k)).pc right) (v.fork_account k h)
        z) [
          | inl o ↦ inl (odd (is_even k) (second_waits n k t left (idle k h) o))
          | inr o ↦ inr (
              even (is_even (right_user n k)) (
                second_waits n (right_user n k) t right
                  (idle (right_user n k) (right_user-lt n k h)) o))
        ]
    where
      odd :
          (b : Bool)
          → (same_side left (side b first_fork) ≡ true)
            × (t.forks (fork_index n k (side b second_fork)) ≡ 0)
          → (b ≡ false) × (t.forks (right_fork_index n k) ≡ 0)
      odd true w = absurd_true w.0
      odd false w = (refl, w.1)

      even :
          (b : Bool)
          → (same_side right (side b first_fork) ≡ true)
            × (t.forks (fork_index n (right_user n k) (side b second_fork)) ≡ 0)
          → (b ≡ true) × (t.forks (right_user n k) ≡ 0)
      even true w = (refl, w.1)
      even false w = absurd_true w.0

  -- An even philosopher that is not the first has an odd one on its left.
  no_even : (i : ℕ) → i < n → 0 < i → is_even i ≡ true → t.forks i ≡ 0 → 1 ≤ 0
  no_even i h pos e z = elim (taken i h z) [
    | inl (odd, _) ↦ absurd_true (sym odd ∙ e)
    | inr (even, _) ↦ ground arith
  ]

  no_fork : (k : ℕ) → k < n → t.forks k ≡ 0 → 1 ≤ 0
  no_fork k h z = elim (taken k h z) [
    | inl (odd, z2) ↦
        let h2 = right_fork_index-lt n k h in
        let at = right_fork_index-cases n k h in
        let back = right_user-right_fork n k h in
        elim (taken (right_fork_index n k) h2 z2) [
          | inl (odd2, _) ↦ ground (arith, at)
          | inr (even2, _) ↦ absurd_true (sym odd ∙ subst (λ u. is_even u ≡ true) back even2)
        ]
    | inr (even, z2) ↦
        let hu = right_user-lt n k h in
        elim (Bool-cases (right_user n k == 0)) [
          | inr more ↦ no_even (right_user n k) hu (ground arith) even z2
          | inl first ↦
              let z3 : t.forks 0 ≡ 0 = subst (λ u. t.forks u ≡ 0) (ground arith) z2 in
              elim (taken 0 (omega (arith, two)) z3) [
                | inl (odd, _) ↦ absurd_true (sym odd)
                | inr (even2, z4) ↦
                    no_even (n - 1) (omega (arith, two)) (omega (arith, two)) even2 z4
              ]
        ]
  ]

  all_returned : (i : ℕ) → i < n → (t.phils i).pc ≡ returned
  unfolding fork_index side
  all_returned i h = kind (idle i h)
    where
      fork_index-lt : (s : Side) → fork_index n i s < n
      fork_index-lt left = h
      fork_index-lt right = right_fork_index-lt n i h

      kind : Idle n i t → (t.phils i).pc ≡ returned
      kind (done e) = e
      kind (starves x e z) =
          let bad =
            no_fork (fork_index n i (side (is_even i) x)) (fork_index-lt (side (is_even i) x)) z in
          elim bad [ ]

-- Some thread can run, or none can.
first_runner :
    (n k : ℕ) (t : Table)
    → k ≤ n
    → ((j : ℕ) × (t' : Table) × (j < n) × (run n j t ≡ some t'))
      ⊎ ((j : ℕ) → j < k → run n j t ≡ none)
first_runner n zero t h = inr (λ j l. elim l [ ])
first_runner n (suc k) t h = elim (first_runner n k t (omega (arith, h))) [
  | inl found ↦ inl found
  | inr below ↦ elim (Option-cases (run n k t)) [
    | inl here ↦ inr (λ j l. elim (Bool-cases (j == k)) [
      | inl at ↦ let e : j ≡ k = ground arith in rw e here
      | inr off ↦ below j (ground arith)
    ])
    | inr (t', e) ↦ inl (k, t', h, e)
  ]
]

run-Blocked :
    (n i : ℕ) (t : Table)
    → (t.phils i).failed ≡ false
    → run n i t ≡ none
    → Blocked n i t (t.phils i).pc
unfolding run
run-Blocked n i t alive e =
    act-Blocked n i (t.phils i).pc t
      (subst (λ b. (if b then none else act n i (t.phils i).pc t) ≡ none) alive e)

-- No deadlock: with two philosophers or more, in every table that the threads reach in which no
-- thread has failed, some thread can run its next statement, or all have returned.
pub no_deadlock :
    (n cycle : ℕ) {t : Table}
    → 2 ≤ n
    → Reach n cycle t
    → ((i : ℕ) → i < n → (t.phils i).failed ≡ false)
    → ((j : ℕ) × (t' : Table) × (j < n) × (run n j t ≡ some t'))
      ⊎ ((i : ℕ) → i < n → (t.phils i).pc ≡ returned)
no_deadlock n cycle {t} two r alive =
    let v = Reach-Accounts n cycle two r in
    elim (first_runner n n t (omega arith)) [
      | inl found ↦ inl found
      | inr stuck ↦ inr (
          all_returned n t two v
            (Blocked-Idle n t v (λ i h. run-Blocked n i t (alive i h) (stuck i h))))
    ]
