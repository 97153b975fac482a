-- ===== src/Dine/Main.antt =====
-- Asgn3/dine.c, `main`: the argument, and the calls that set up, join and tear down. What the system
-- answers is an argument.
use csc.Prelude.{
  ℕ, zero, suc, ◌-◌, ◌^◌, ◌<◌, ◌≡◌, ◌⊎◌, refl, ap, Bool, true, false, not, ◌&&◌, ◌||◌, ◌==◌, ltb,
  Option, none, some, arith, Bool-cases, inl, inr, if◌then◌else◌,
}
use csc.Dine.Philosopher.{Table, returned}
use csc.Dine.Meals.{Meals, meals_lem}

abbrev pub default_cycles : ℕ
default_cycles = 1

abbrev pub int_max : ℕ
int_max = 2 ^ 31 - 1

-- What `strtol` makes of the argument: whether errno is set, whether the number ends at the end of the
-- text, and the value, by its sign and size.
pub record Strtol : Type 0 where
  pub errno_set : Bool
  pub at_end : Bool
  pub negative : Bool
  pub size : ℕ

-- The number of cycles; no result where `main` returns EXIT_FAILURE.
unfoldable pub parse_cycles : ℕ → Strtol → Option ℕ
parse_cycles argc arg =
    if ltb 2 argc
    then none
    else if argc == 2
    then if arg.errno_set
        || not arg.at_end
        || arg.negative
        || (arg.size == 0)
        || ltb int_max arg.size
      then none
      else some arg.size
    else some default_cycles

-- The answers of the system: whether a call succeeds, for each fork or thread where there is one for each.
pub record Answers : Type 0 where
  pub gettimeofday : Bool
  pub fork_init : ℕ → Bool
  pub lock_init : Bool
  pub create : ℕ → Bool
  pub join : ℕ → Bool
  pub fork_destroy : ℕ → Bool
  pub lock_destroy : Bool

-- A loop of `main` over the first `n` indices, which exits at the first failure. The order of the tests
-- is that of the loop: an index is tested if the ones before it succeed.
unfoldable pub all_succeed : ℕ → (ℕ → Bool) → Bool
all_succeed zero ok = true
all_succeed (suc n) ok = all_succeed n ok && ok n

-- The joins: the thread is joined, and its value is not THREAD_FAILURE.
abbrev pub joined : Answers → Table → ℕ → Bool
joined a t i = a.join i && not (t.phils i).failed

-- After the argument. `ended` is the table in which the threads have ended.
unfoldable pub run_table : ℕ → Answers → Table → Bool
unfolding all_succeed
run_table n a ended =
    all_succeed n a.fork_init
    && (a.lock_init
        && (all_succeed n a.create
            && (all_succeed n (joined a ended)
                && (all_succeed n a.fork_destroy && a.lock_destroy))))

-- The exit status of `main`; `ended` gives the table in which the threads end, for a number of cycles.
unfoldable pub main : ℕ → ℕ → Strtol → Answers → (ℕ → Table) → ℕ
main n argc arg a ended = if not a.gettimeofday then 1 else elim (parse_cycles argc arg) [
  | none ↦ 1
  | some cycle ↦ if run_table n a (ended cycle) then 0 else 1
]

all_succeed_lem : (n : ℕ) (ok : ℕ → Bool) (i : ℕ) → all_succeed n ok ≡ true → i < n → ok i ≡ true
unfolding all_succeed
all_succeed_lem zero ok i all h = elim h [ ]
all_succeed_lem (suc n) ok i all h = elim (Bool-cases (i == n)) [
  | inl at ↦ let e : i ≡ n = ground arith in let f = ap ok e in ground arith
  | inr off ↦ all_succeed_lem n ok i (ground arith) (ground arith)
]

-- What an exit with 0 says.
main_zero :
    (n argc : ℕ) (arg : Strtol) (a : Answers) (ended : ℕ → Table) (cycle : ℕ)
    → parse_cycles argc arg ≡ some cycle
    → main n argc arg a ended ≡ 0
    → run_table n a (ended cycle) ≡ true
unfolding main
main_zero n argc arg a ended cycle accepted exit_code =
    elim (Bool-cases (run_table n a (ended cycle))) [
      | inl good ↦ good
      | inr bad ↦ absurd (fails (Bool-cases a.gettimeofday) bad)
    ]
  where
    fails :
        ((a.gettimeofday ≡ true) ⊎ (a.gettimeofday ≡ false))
        → run_table n a (ended cycle) ≡ false
        → ⊥
    fails (inl on) bad =
        let e : main n argc arg a ended ≡ 1 = rw (main, on, accepted, bad) refl in
        omega (arith, e, exit_code)
    fails (inr off) bad =
        let e : main n argc arg a ended ≡ 1 = rw (main, off) refl in omega (arith, e, exit_code)

run_table-joined :
    (n : ℕ) (a : Answers) (t : Table) (i : ℕ)
    → run_table n a t ≡ true
    → i < n
    → (a.join i ≡ true) × ((t.phils i).failed ≡ false)
unfolding run_table
run_table-joined n a t i all h =
    let joins : all_succeed n (joined a t) ≡ true = ground arith in
    let mine = all_succeed_lem n (joined a t) i joins h in (ground arith, ground arith)

-- If main exits with 0 after it has accepted a number of cycles, then every philosopher has eaten exactly
-- as often. It is supposed that the threads have had their meals on the way to the table in which they
-- end, and that a join comes back only for a thread that has returned or failed.
pub main_fed :
    (n argc : ℕ) (arg : Strtol) (a : Answers) (ended : ℕ → Table) (cycle : ℕ) (m : ℕ → ℕ) (i : ℕ)
    → parse_cycles argc arg ≡ some cycle
    → Meals n cycle m (ended cycle)
    → ((j : ℕ)
        → a.join j ≡ true
        → j < n
        → (((ended cycle).phils j).pc ≡ returned) ⊎ (((ended cycle).phils j).failed ≡ true))
    → main n argc arg a ended ≡ 0
    → i < n
    → m i ≡ cycle
main_fed n argc arg a ended cycle m i accepted made joins exit_code h =
    let good = main_zero n argc arg a ended cycle accepted exit_code in
    let (back, alive) = run_table-joined n a (ended cycle) i good h in
    elim (joins i back h) [
      | inl done ↦ (meals_lem n cycle m (ended cycle) i made).2 done
      | inr broken ↦ cc
    ]
