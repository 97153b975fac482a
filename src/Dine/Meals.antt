-- ===== src/Dine/Meals.antt =====
-- Asgn3/dine.c, `philosopher`: how often each philosopher eats.
use csc.Prelude.{
  some_injective, not_blocked, ℕ, suc, ◌+◌, ◌-◌, ◌<◌, ◌≤◌, ◌≡◌, refl, sym, subst, ap, Bool, true,
  false, ◌==◌, ltb, some, none, Option, Bool-cases, inl, inr, arith, if◌then◌else◌,
}
use csc.Dine.Philosopher.{
  Side, left, right, first_fork, second_fork, Section, hungry, took, eat, finish, drop, think,
  leave, after_eat, after_finish, after_think, Pc, loop, grab, lock, write, put_down, print, unlock,
  dawdle, count, returned, PhilInfo, Table, hold, side, is_even, is_changing, assign, after_write,
  after_section, after_rest, loop_test, put_phil, act, run, fail, may_fail, initial,
}
use csc.Dine.Accounts.{run-act}
use csc.Dine.Termination.{Runs, none_yet, and_then}

-- The philosopher after the statement at `pc`.
abbrev next : Bool → Pc → PhilInfo → PhilInfo
next even loop p = record p { pc = loop_test p }
next even (grab t) p = record p { pc = lock (took t) }
next even (lock b) p = record p { pc = write b }
next even (write b) p = record (assign even b p) { pc = after_write b }
next even (put_down s) p = record p { pc = print (drop s) }
next even (print b) p = record p { pc = unlock b }
next even (unlock b) p = record p { pc = after_section b }
next even (dawdle r) p = record p { pc = after_rest r }
next even count p = record p { cycles_left = p.cycles_left - 1; pc = loop }
next even returned p = p

act-next :
    (n i : ℕ) (pc : Pc) (t t' : Table)
    → act n i pc t ≡ some t'
    → t'.phils ≡ put_phil i (next (is_even i) pc (t.phils i)) t.phils
unfolding act
act-next n i loop t t' e = sym (ap (λ u. u.phils) (some_injective e))
act-next n i (grab turn) t t' e = sym (ap (λ u. u.phils) (not_blocked _ e).1)
act-next n i (lock b) t t' e = sym (ap (λ u. u.phils) (not_blocked _ e).1)
act-next n i (write b) t t' e = sym (ap (λ u. u.phils) (some_injective e))
act-next n i (put_down s) t t' e = sym (ap (λ u. u.phils) (some_injective e))
act-next n i (print b) t t' e = sym (ap (λ u. u.phils) (some_injective e))
act-next n i (unlock b) t t' e = sym (ap (λ u. u.phils) (some_injective e))
act-next n i (dawdle r) t t' e = sym (ap (λ u. u.phils) (some_injective e))
act-next n i count t t' e = sym (ap (λ u. u.phils) (some_injective e))
act-next n i returned t t' e = cc

-- The sections behind the one that shows eating, and that one with them.
abbrev pub past_eat : Section → Bool
past_eat hungry = false
past_eat (took t) = false
past_eat eat = false
past_eat finish = true
past_eat (drop s) = true
past_eat think = true
past_eat leave = false

abbrev pub from_eat : Section → Bool
from_eat hungry = false
from_eat (took t) = false
from_eat eat = true
from_eat finish = true
from_eat (drop s) = true
from_eat think = true
from_eat leave = false

-- In this round of the loop the philosopher has shown that it eats.
abbrev pub has_eaten : Pc → Bool
has_eaten loop = false
has_eaten (grab t) = false
has_eaten (lock b) = past_eat b
has_eaten (write b) = past_eat b
has_eaten (put_down s) = true
has_eaten (print b) = past_eat b
has_eaten (unlock b) = from_eat b
has_eaten (dawdle r) = true
has_eaten count = true
has_eaten returned = false

abbrev is_leave : Section → Bool
is_leave hungry = false
is_leave (took t) = false
is_leave eat = false
is_leave finish = false
is_leave (drop s) = false
is_leave think = false
is_leave leave = true

-- The loop is over; at its test it may be either.
abbrev is_over : Pc → Option Bool
is_over loop = none
is_over (grab t) = some false
is_over (lock b) = some (is_leave b)
is_over (write b) = some (is_leave b)
is_over (put_down s) = some false
is_over (print b) = some (is_leave b)
is_over (unlock b) = some (is_leave b)
is_over (dawdle r) = some false
is_over count = some false
is_over returned = some true

abbrev Left : Option Bool → ℕ → Type 0
Left none k = Unit {0}
Left (some false) k = 0 < k
Left (some true) k = k ≡ 0

-- `m` meals are behind a philosopher at `pc`, which has `k` cycles left.
abbrev IsFed : ℕ → ℕ → Pc → ℕ → Type 0
IsFed cycle m pc k = (m + (if has_eaten pc then k - 1 else k) ≡ cycle) × Left (is_over pc) k

-- The statement prints the row that shows eating.
abbrev pub shows_meal : Pc → Bool
shows_meal (print eat) = true
shows_meal other = false

abbrev pub add_meal : Pc → ℕ → ℕ
add_meal pc m = if shows_meal pc then m + 1 else m

hold-cycles : (s : Side) (b : Bool) (p : PhilInfo) → (hold s b p).cycles_left ≡ p.cycles_left
hold-cycles left b p = refl
hold-cycles right b p = refl

assign-cycles :
    (even : Bool) (b : Section) (p : PhilInfo) → (assign even b p).cycles_left ≡ p.cycles_left
unfolding assign
assign-cycles even hungry p = refl
assign-cycles even (took t) p = hold-cycles (side even t) true p
assign-cycles even eat p = refl
assign-cycles even finish p = refl
assign-cycles even (drop s) p = hold-cycles s false p
assign-cycles even think p = refl
assign-cycles even leave p = refl

-- A write and its print belong to the same meal.
written :
    (cycle m k : ℕ) (b : Section) → IsFed cycle m (write b) k → IsFed cycle m (after_write b) k
unfolding after_write
written cycle m k hungry f = f
written cycle m k (took t) f = f
written cycle m k eat f = f
written cycle m k finish f = f
written cycle m k (drop s) f = f
written cycle m k think f = f
written cycle m k leave f = f

next-IsFed :
    (even : Bool) (cycle m : ℕ) (pc : Pc) (p : PhilInfo)
    → p.pc ≡ pc
    → IsFed cycle m pc p.cycles_left
    → IsFed cycle (add_meal pc m) (next even pc p).pc (next even pc p).cycles_left
unfolding assign after_write after_section after_rest loop_test
next-IsFed even cycle m loop p at f = elim (Bool-cases (ltb 0 p.cycles_left)) [
  | inl more ↦ elim (Bool-cases (is_changing p.state)) [
    | inl c ↦ rw (more, c) (f.0, ground arith)
    | inr c ↦ rw (more, c) (f.0, ground arith)
  ]
  | inr done ↦ rw done (f.0, ground arith)
]
next-IsFed even cycle m (grab t) p at f = f
next-IsFed even cycle m (lock b) p at f = f
next-IsFed even cycle m (write b) p at f =
    subst (IsFed cycle m (after_write b)) (sym (assign-cycles even b p))
      (written cycle m p.cycles_left b f)
next-IsFed even cycle m (put_down s) p at f = f
next-IsFed even cycle m (print hungry) p at f = f
next-IsFed even cycle m (print (took t)) p at f = f
next-IsFed even cycle m (print eat) p at f = (omega (arith, f), f.1)
next-IsFed even cycle m (print finish) p at f = f
next-IsFed even cycle m (print (drop s)) p at f = f
next-IsFed even cycle m (print think) p at f = f
next-IsFed even cycle m (print leave) p at f = f
next-IsFed even cycle m (unlock hungry) p at f = f
next-IsFed even cycle m (unlock (took first_fork)) p at f = f
next-IsFed even cycle m (unlock (took second_fork)) p at f = f
next-IsFed even cycle m (unlock eat) p at f = f
next-IsFed even cycle m (unlock finish) p at f = f
next-IsFed even cycle m (unlock (drop left)) p at f = f
next-IsFed even cycle m (unlock (drop right)) p at f = f
next-IsFed even cycle m (unlock think) p at f = f
next-IsFed even cycle m (unlock leave) p at f = f
next-IsFed even cycle m (dawdle after_eat) p at f = f
next-IsFed even cycle m (dawdle after_finish) p at f = f
next-IsFed even cycle m (dawdle after_think) p at f = f
next-IsFed even cycle m count p at f = (f.0, tt)
next-IsFed even cycle m returned p at f = rw at f

-- The meals of each philosopher on the way to a table, by the rows that show them.
pub data Meals (n cycle : ℕ) : (ℕ → ℕ) → Table → Type 0 where
  at_start : Meals n cycle (λ i. 0) (initial n cycle)
  then_runs :
      (m : ℕ → ℕ) (i : ℕ) (t t' : Table)
      → Meals n cycle m t
      → i < n
      → run n i t ≡ some t'
      → Meals n cycle (λ j. if j == i then add_meal (t.phils i).pc (m i) else m j) t'
  then_fails :
      (m : ℕ → ℕ) (i : ℕ) (t : Table)
      → Meals n cycle m t
      → i < n
      → (t.phils i).failed ≡ false
      → may_fail (t.phils i).pc ≡ true
      → Meals n cycle m (fail i t)

abbrev AreFed : ℕ → (ℕ → ℕ) → Table → Type 0
AreFed cycle m t = (j : ℕ) → IsFed cycle (m j) (t.phils j).pc (t.phils j).cycles_left

run-AreFed :
    (n cycle : ℕ) (m : ℕ → ℕ) (i : ℕ) (t t' : Table)
    → AreFed cycle m t
    → run n i t ≡ some t'
    → AreFed cycle (λ j. if j == i then add_meal (t.phils i).pc (m i) else m j) t'
run-AreFed n cycle m i t t' fed e j =
    let (alive, acts) = run-act n i t t' e in
    let stepped = act-next n i (t.phils i).pc t t' acts in
    rw stepped (elim (Bool-cases (j == i)) [
      | inl at ↦ rw at (next-IsFed (is_even i) cycle (m i) (t.phils i).pc (t.phils i) refl (fed i))
      | inr off ↦ rw off (fed j)
    ])

fail-AreFed :
    (cycle : ℕ) (m : ℕ → ℕ) (i : ℕ) (t : Table) → AreFed cycle m t → AreFed cycle m (fail i t)
unfolding fail
fail-AreFed cycle m i t fed j = elim (Bool-cases (j == i)) [
  | inl at ↦
      let same : j ≡ i = ground arith in
      rw at
        (subst (λ x. IsFed cycle (m x) (t.phils i).pc (t.phils i).cycles_left) (sym same) (fed i))
  | inr off ↦ rw off (fed j)
]

Meals-AreFed : (n cycle : ℕ) (m : ℕ → ℕ) (t : Table) → Meals n cycle m t → AreFed cycle m t
unfolding initial
Meals-AreFed n cycle m t at_start = λ j. (omega arith, tt)
Meals-AreFed n cycle m t (then_runs m' i u t' r h e) =
    run-AreFed n cycle m' i u t' (Meals-AreFed n cycle m' u r) e
Meals-AreFed n cycle m t (then_fails m' i u r h alive may) =
    fail-AreFed cycle m' i u (Meals-AreFed n cycle m' u r)

-- In every order of the threads' statements, and whatever semaphores fail, a philosopher has eaten at
-- most `cycle` times; the meals behind it and those before it, which are its cycles left but for the
-- one that it has shown already, are `cycle` together; and one that has returned has eaten exactly
-- `cycle` times.
pub meals_lem :
    (n cycle : ℕ) (m : ℕ → ℕ) (t : Table) (i : ℕ)
    → Meals n cycle m t
    → (m i ≤ cycle)
      × (m i
            + (if has_eaten (t.phils i).pc
                then (t.phils i).cycles_left - 1
                else (t.phils i).cycles_left)
          ≡ cycle)
      × ((t.phils i).pc ≡ returned → m i ≡ cycle)
meals_lem n cycle m t i r =
    let (all, rest) = Meals-AreFed n cycle m t r i in
    (omega (arith, all), all, λ e. ended (m i) (t.phils i).pc (t.phils i).cycles_left (all, rest) e)
  where
    ended : (k : ℕ) (pc : Pc) (cycles : ℕ) → IsFed cycle k pc cycles → pc ≡ returned → k ≡ cycle
    ended k pc cycles f e =
        let g : IsFed cycle k returned cycles = subst (λ x. IsFed cycle k x cycles) e f in
        omega (arith, g)

-- A run without failures has its meals.
pub Meals-Runs :
    (n cycle k : ℕ) (t : Table) → Runs n (initial n cycle) k t → (m : ℕ → ℕ) × Meals n cycle m t
Meals-Runs n cycle k t none_yet = (λ i. 0, at_start)
Meals-Runs n cycle (suc k) t (and_then {i = i} {t = u} r h e) =
    let (m, had) = Meals-Runs n cycle k u r in (_, then_runs m i u t had h e)
