-- ===== src/Dine/Tests.antt =====
-- Asgn3/dine.c: a run of three philosophers, and the theorems at the tables that it reaches.
use csc.Prelude.{
  ℕ, ◌+◌, ◌*◌, ◌<◌, ◌≤◌, ◌≡◌, ◌⊎◌, refl, true, false, none, some, [], ◌∷◌, arith, All,
}
use csc.Dine.Printing.{eating, View, wrapped_label, forks_held, fill, write_char}
use csc.Dine.Philosopher.{
  Table, returned, view, run, act, initial, loop_test, fork_index, side, Reach, start, later, runs,
}
use csc.Dine.Ownership.{inside}
use csc.Dine.Sharing.{IsShared, Reach-IsShared, IsFairRow, Reach-IsFairRow, printing_lock_exclusive}
use csc.Dine.Deadlock.{no_deadlock}
use csc.Dine.Termination.{Runs, none_yet, and_then, threads_end}

-- The next statement of a philosopher, if it can run.
abbrev advance : ℕ → Table → Table
advance i t = elim (run 3 i t) [ none ↦ t | some t' ↦ t' ]

-- Philosopher 0 takes its right fork and the lock.
abbrev taken : Table
taken = advance 0 (advance 0 (advance 0 (initial 3 1)))

-- Philosopher 2 then takes its left fork.
abbrev both_taken : Table
both_taken = advance 2 (advance 2 taken)

taken-Reach : Reach 3 1 taken
unfolding run act loop_test fork_index side initial
taken-Reach =
    later (later (later start (runs 0 (omega arith) refl)) (runs 0 (omega arith) refl))
      (runs 0 (omega arith) refl)

both_taken-Reach : Reach 3 1 both_taken
unfolding run act loop_test fork_index side initial
both_taken-Reach = later (later taken-Reach (runs 2 (omega arith) refl)) (runs 2 (omega arith) refl)

taken_fork : (both_taken.forks 0 ≡ 0) × (both_taken.forks 1 ≡ 0) × (both_taken.forks 2 ≡ 1)
unfolding run act loop_test fork_index side initial
taken_fork = (refl, refl, refl)

two_statements : Runs 3 (initial 3 1) 2 (advance 0 (advance 0 (initial 3 1)))
unfolding run act loop_test fork_index side initial
two_statements = and_then {i = 0} (and_then {i = 0} none_yet (omega arith) refl) (omega arith) refl

Reach-IsShared_example : IsShared 3 (view 3 both_taken.phils)
Reach-IsShared_example = Reach-IsShared 3 1 (omega arith) both_taken-Reach

taken_inside : inside (both_taken.phils 0).pc ≡ true
unfolding run act loop_test fork_index side initial
taken_inside = refl

printing_lock_exclusive_example : inside (both_taken.phils 2).pc ≡ false
printing_lock_exclusive_example =
    printing_lock_exclusive 3 1 0 2 (omega arith) both_taken-Reach (omega arith) (omega arith)
      (omega arith) taken_inside

Reach-IsFairRow_example : All (IsFairRow 3) both_taken.printed
Reach-IsFairRow_example = Reach-IsFairRow 3 1 (omega arith) both_taken-Reach

alive : (i : ℕ) → i < 3 → (both_taken.phils i).failed ≡ false
unfolding run act loop_test fork_index side initial
alive i h = ground arith

no_deadlock_example :
    ((j : ℕ) × (t' : Table) × (j < 3) × (run 3 j both_taken ≡ some t'))
    ⊎ ((i : ℕ) → i < 3 → (both_taken.phils i).pc ≡ returned)
no_deadlock_example = no_deadlock 3 1 (omega arith) both_taken-Reach alive

threads_end_example :
    (2 ≤ 3 * (50 * 1 + 6))
    × (m : ℕ) × (u : Table) × Runs 3 (advance 0 (advance 0 (initial 3 1))) m u
    × ((i : ℕ) → i < 3 → (u.phils i).pc ≡ returned)
threads_end_example =
    threads_end 3 1 2 (advance 0 (advance 0 (initial 3 1))) (omega arith) two_statements

label_wraps : wrapped_label 48 79 ≡ 33
unfolding wrapped_label
label_wraps = refl

-- Philosopher 2 of three, with both forks: "0-2"
abbrev two_forks : View
two_forks = record {
  left_fork_index = 2;
  right_fork_index = 0;
  holding_left = true;
  holding_right = true;
  state = eating;
}

forks_shown : forks_held 3 two_forks ≡ 48 ∷ 45 ∷ 50 ∷ []
unfolding forks_held write_char fill wrapped_label
forks_shown = refl
