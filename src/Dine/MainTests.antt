-- ===== src/Dine/MainTests.antt =====
-- Asgn3/dine.c: a whole run of three philosophers, and the theorems about main and the meals there.
use csc.Prelude.{
  ℕ, ◌+◌, ◌-◌, ◌<◌, ◌≤◌, ◌≡◌, refl, true, false, inl, arith, if◌then◌else◌, List, some, ◌^◌, ◌↔◌,
  ◌∷◌, [],
}
use csc.Dine.Philosopher.{Table, returned, initial}
use csc.Dine.Termination.{Runs, none_yet, threads_end, Runs-total, initial_alive}
use csc.Dine.Meals.{Meals, Meals-Runs, has_eaten, meals_lem}
use csc.Dine.Argument.{
  strtol, skip_spaces, take_sign, take_digits, IsNumeral, parse_cycles-IsNumeral,
}
use csc.Dine.Main.{Strtol, Answers, parse_cycles, all_succeed, run_table, main, main_fed}

-- The argument "12".
abbrev twelve : Strtol
twelve = record { errno_set = false; at_end = true; negative = false; size = 12 }

-- Some run to the end.
whole_run :
    (m : ℕ) × (u : Table) × Runs 3 (initial 3 1) m u × ((i : ℕ) → i < 3 → (u.phils i).pc ≡ returned)
whole_run = let r = threads_end 3 1 0 (initial 3 1) (omega arith) none_yet in (r.1, r.2, r.3, r.4)

last_table : Table
last_table = whole_run.1

last_table-Runs : Runs 3 (initial 3 1) whole_run.0 last_table
unfolding last_table
last_table-Runs = whole_run.2

meals_had : (m : ℕ → ℕ) × Meals 3 1 m last_table
meals_had = Meals-Runs 3 1 whole_run.0 last_table last_table-Runs

last_table-alive : (i : ℕ) → i < 3 → (last_table.phils i).failed ≡ false
last_table-alive =
    (Runs-total 3 (initial 3 1) whole_run.0 last_table (omega arith) last_table-Runs
      (λ i h. initial_alive 3 1 i)).1

meals_lem_example :
    (meals_had.0 2 ≤ 1)
    × (meals_had.0 2
          + (if has_eaten (last_table.phils 2).pc
              then (last_table.phils 2).cycles_left - 1
              else (last_table.phils 2).cycles_left)
        ≡ 1)
    × ((last_table.phils 2).pc ≡ returned → meals_had.0 2 ≡ 1)
meals_lem_example = meals_lem 3 1 meals_had.0 last_table 2 meals_had.1

abbrev all_answers : Answers
all_answers = record {
  gettimeofday = true;
  fork_init = λ i. true;
  lock_init = true;
  create = λ i. true;
  join = λ i. true;
  fork_destroy = λ i. true;
  lock_destroy = true;
}

exits_with_0 : main 3 1 twelve all_answers (λ _. last_table) ≡ 0
unfolding main parse_cycles run_table all_succeed
exits_with_0 =
    let a = last_table-alive 0 (omega arith) in
    let b = last_table-alive 1 (omega arith) in
    let c = last_table-alive 2 (omega arith) in rw (a, b, c) refl

all_returned : (j : ℕ) → j < 3 → ((last_table.phils j).pc ≡ returned)
unfolding last_table
all_returned j h = whole_run.3 j h

main_fed_example : meals_had.0 2 ≡ 1
unfolding parse_cycles
main_fed_example =
    main_fed 3 1 twelve all_answers (λ _. last_table) 1 meals_had.0 2 refl meals_had.1
      (λ j back below. inl (all_returned j below)) exits_with_0 (omega arith)

-- The argument " +12".
abbrev spaced_twelve : List ℕ
spaced_twelve = 32 ∷ 43 ∷ 49 ∷ 50 ∷ []

spaced_twelve_taken : parse_cycles 2 (strtol spaced_twelve) ≡ some 12
unfolding parse_cycles strtol skip_spaces take_sign take_digits
spaced_twelve_taken = refl

parse_cycles-IsNumeral_example :
    (parse_cycles 2 (strtol spaced_twelve) ≡ some 12)
    ↔ (IsNumeral spaced_twelve 12 × (0 < 12) × (12 < 2 ^ 31))
parse_cycles-IsNumeral_example = parse_cycles-IsNumeral spaced_twelve 12
