-- ===== src/Dine/Accounts.antt =====
-- Asgn3/dine.c: who uses which fork, and the accounts of the semaphores in every table that is reached.
use csc.Prelude.{
  ℕ, zero, suc, ◌+◌, ◌-◌, ◌%◌, ◌<◌, ◌≤◌, ◌≡◌, ◌≢◌, ◌⊎◌, refl, sym, subst, ap, ◌∙◌, Bool, true,
  false, ◌==◌, Option, none, some, Bool-cases, inl, inr, arith, if◌then◌else◌, ltb,
}
use native.Mathlib.Nat.{mod-eq_of_lt, mod_self}
use csc.Dine.Philosopher.{
  left, right, PhilInfo, Table, fork_index, right_fork_index, is_even, act, run, fail, Step, runs,
  fails, initial, Reach, start, later,
}
use csc.Dine.Ownership.{bit, owns, inside, Shown, Local}
use csc.Dine.Statements.{act-Local, fail-Local}

-- The last philosopher has fork 0 on the right, every other the next fork.
pub right_fork_index-cases :
    (n i : ℕ)
    → i < n
    → ((i + 1 < n) × (right_fork_index n i ≡ i + 1)) ⊎ ((i + 1 ≡ n) × (right_fork_index n i ≡ 0))
right_fork_index-cases n i h = elim (Bool-cases (ltb (i + 1) n)) [
  | inl more ↦ let small : i + 1 < n = ground arith in inl (small, mod-eq_of_lt small)
  | inr less ↦ let last : i + 1 ≡ n = ground arith in inr (last, ap (λ k. k % n) last ∙ mod_self n)
]

pub right_fork_index-lt : (n i : ℕ) → i < n → right_fork_index n i < n
right_fork_index-lt n i h = ground (arith, right_fork_index-cases n i h)

-- The philosopher who has fork `k` on the right.
abbrev pub right_user : ℕ → ℕ → ℕ
right_user n k = if k == 0 then n - 1 else k - 1

pub right_user-lt : (n k : ℕ) → k < n → right_user n k < n
right_user-lt n k h = ground arith

pub right_fork-right_user : (n k : ℕ) → k < n → right_fork_index n (right_user n k) ≡ k
right_fork-right_user n k h =
    ground (arith, right_fork_index-cases n (right_user n k) (right_user-lt n k h))

pub right_user-right_fork : (n i : ℕ) → i < n → right_user n (right_fork_index n i) ≡ i
right_user-right_fork n i h = ground (arith, right_fork_index-cases n i h)

pub sides_apart : (n i : ℕ) → 2 ≤ n → i < n → fork_index n i left ≢ fork_index n i right
unfolding fork_index
sides_apart n i two h e = ground (arith, right_fork_index-cases n i h)

abbrev pub sum : ℕ → (ℕ → ℕ) → ℕ
sum zero f = 0
sum (suc n) f = sum n f + f n

sum_same : (n i : ℕ) (f g : ℕ → ℕ) → n ≤ i → ((j : ℕ) → j ≢ i → g j ≡ f j) → sum n g ≡ sum n f
sum_same zero i f g h same = refl
sum_same (suc n) i f g h same = ground (arith, sum_same n i f g, same n)

-- One term of a sum changes.
pub sum_change :
    (n i : ℕ) (f g : ℕ → ℕ) → i < n → ((j : ℕ) → j ≢ i → g j ≡ f j) → sum n g + f i ≡ sum n f + g i
sum_change zero i f g h same = elim h [ ]
sum_change (suc n) i f g h same = elim (Bool-cases (i == n)) [
  | inl last ↦
      let e : i ≡ n = ground arith in
      rw e (let r = sum_same n i f g (ground arith) same in omega (arith, r))
  | inr before ↦
      let r = sum_change n i f g (ground arith) same in
      let s = same n (ground arith) in omega (arith, r, s)
]

-- One term of a sum is at most the sum, and so are two.
sum_one : (n i : ℕ) (f : ℕ → ℕ) → i < n → f i ≤ sum n f
sum_one zero i f h = elim h [ ]
sum_one (suc n) i f h = elim (Bool-cases (i == n)) [
  | inl last ↦ let e : i ≡ n = ground arith in rw e (omega arith)
  | inr before ↦ let r = sum_one n i f (ground arith) in omega (arith, r)
]

sum_two : (n i j : ℕ) (f : ℕ → ℕ) → i < n → j < n → i ≢ j → f i + f j ≤ sum n f
sum_two zero i j f hi hj ne = elim hi [ ]
sum_two (suc n) i j f hi hj ne = elim (Bool-cases (i == n)) [
  | inl last ↦
      let e : i ≡ n = ground arith in
      rw e (let r = sum_one n j f (ground arith) in omega (arith, r))
  | inr before ↦ elim (Bool-cases (j == n)) [
    | inl last ↦
        let e : j ≡ n = ground arith in
        rw e (let r = sum_one n i f (ground arith) in omega (arith, r))
    | inr before2 ↦ let r = sum_two n i j f (ground arith) (ground arith) ne in omega (arith, r)
  ]
]

-- The accounts of the lock and of the forks, and what is shown.
pub record Inv (n : ℕ) (t : Table) : Type 0 where
  pub lock_account : t.printing_lock + sum n (λ i. bit (inside (t.phils i).pc)) ≡ 1
  pub fork_account :
      (k : ℕ)
      → k < n
      → t.forks k
          + bit (owns (is_even k) (t.phils k).pc left)
          + bit (owns (is_even (right_user n k)) (t.phils (right_user n k)).pc right)
        ≡ 1
  pub shown : (i : ℕ) → i < n → Shown (is_even i) (t.phils i).pc (t.phils i)

initial-Inv : (n cycle : ℕ) → Inv n (initial n cycle)
unfolding initial
initial-Inv n cycle = record {
  lock_account = ap (λ k. 1 + k) (none_inside n);
  fork_account = λ k h. refl;
  shown = λ i h. record { shows_left = refl; shows_right = refl; shows_state = refl };
}
  where
    none_inside : (n : ℕ) → sum n (λ i. 0) ≡ 0
    none_inside zero = refl
    none_inside (suc n) = ground (arith, none_inside n)

fork_account-kept :
    (n i k : ℕ) (t t' : Table)
    → 2 ≤ n
    → i < n
    → k < n
    → Local n i t t'
    → t'.forks k
        + bit (owns (is_even k) (t'.phils k).pc left)
        + bit (owns (is_even (right_user n k)) (t'.phils (right_user n k)).pc right)
      ≡ t.forks k
        + bit (owns (is_even k) (t.phils k).pc left)
        + bit (owns (is_even (right_user n k)) (t.phils (right_user n k)).pc right)
unfolding fork_index
fork_account-kept n i k t t' two hi hk l = elim (Bool-cases (k == i)) [
  | inl at ↦
      let e : k ≡ i = ground arith in
      let away : right_user n k ≢ i = λ x. ground arith in
      let f = l.fork_kept left in rw (l.others (right_user n k) away) (rw e (omega (arith, f)))
  | inr off ↦ elim (Bool-cases (right_user n k == i)) [
    | inl at ↦
        let e : right_user n k ≡ i = ground arith in
        let here : right_fork_index n i ≡ k =
          ap (right_fork_index n) (sym e) ∙ right_fork-right_user n k hk in
        let f = l.fork_kept right in
        rw (l.others k (λ x. ground arith), e) (rw (← here) (omega (arith, f)))
    | inr away ↦
        rw
          (
            l.others k (λ x. ground arith),
            l.others (right_user n k) (λ x. ground arith),
            l.forks_apart k (λ x. ground arith)
                (λ x. let r = ap (right_user n) x ∙ right_user-right_fork n i hi in ground arith),
          )
          refl
  ]
]

Local-Inv : (n i : ℕ) (t t' : Table) → 2 ≤ n → i < n → Local n i t t' → Inv n t → Inv n t'
Local-Inv n i t t' two hi l v = record {
  lock_account =
      let l' = l.lock_kept in
      let s =
        sum_change n i (λ j. bit (inside (t.phils j).pc)) (λ j. bit (inside (t'.phils j).pc)) hi
          (λ j ne. ap (λ p. bit (inside (PhilInfo.pc p))) (l.others j ne)) in
      let v' = v.lock_account in omega (arith, l', s, v');
  fork_account = λ k h. fork_account-kept n i k t t' two hi h l ∙ v.fork_account k h;
  shown = λ j h. elim (Bool-cases (j == i)) [
    | inl at ↦ let e : j ≡ i = ground arith in rw e (l.shown (v.shown i hi))
    | inr off ↦ rw (l.others j (λ x. ground arith)) (v.shown j h)
  ];
}

-- A statement that runs is that of a thread that has not failed.
pub run-act :
    (n i : ℕ) (t t' : Table)
    → run n i t ≡ some t'
    → ((t.phils i).failed ≡ false) × (act n i (t.phils i).pc t ≡ some t')
unfolding run
run-act n i t t' e = guarded ((t.phils i).failed) (act n i (t.phils i).pc t) e
  where
    guarded :
        (b : Bool) (x : Option Table)
        → (if b then none else x) ≡ some t'
        → (b ≡ false) × (x ≡ some t')
    guarded true x e = cc
    guarded false x e = (refl, e)

Step-Inv : (n : ℕ) {t t' : Table} → 2 ≤ n → Step n t t' → Inv n t → Inv n t'
Step-Inv n {t} {t'} two (runs i h e) v =
    Local-Inv n i t t' two h
      (act-Local n i (t.phils i).pc t t' (sides_apart n i two h) refl (run-act n i t t' e).1) v
Step-Inv n {t} two (fails i h a b) v = Local-Inv n i t (fail i t) two h (fail-Local n i t) v

pub Reach-Accounts : (n cycle : ℕ) {t : Table} → 2 ≤ n → Reach n cycle t → Inv n t
Reach-Accounts n cycle two start = initial-Inv n cycle
Reach-Accounts n cycle two (later r s) = Step-Inv n two s (Reach-Accounts n cycle two r)

-- Two threads are not both between `sem_wait` and `sem_post` of the printing lock.
pub lock_apart :
    (n i j : ℕ) (t : Table)
    → Inv n t
    → i < n
    → j < n
    → i ≢ j
    → inside (t.phils i).pc ≡ true
    → inside (t.phils j).pc ≡ false
lock_apart n i j t v hi hj ne e =
    let s = sum_two n i j (λ k. bit (inside (t.phils k).pc)) hi hj ne in
    let a = v.lock_account in
    free (inside (t.phils j).pc)
      (subst (λ b. bit b + bit (inside (t.phils j).pc) ≤ 1) e (omega (arith, s, a)))
  where
    free : (b : Bool) → bit true + bit b ≤ 1 → b ≡ false
    free true h = ground arith
    free false h = refl
