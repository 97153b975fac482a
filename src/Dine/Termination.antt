-- ===== src/Dine/Termination.antt =====
-- Asgn3/dine.c: every thread comes to its end, in whatever order they run.
use csc.Prelude.{
  ℕ, zero, suc, ◌+◌, ◌*◌, ◌<◌, ◌≤◌, ◌≡◌, refl, ap, ◌∙◌, false, ◌==◌, some, Bool-cases, inl, inr,
  arith,
}
use csc.Dine.Philosopher.{Table, returned, run, initial, runs, Reach, start, later}
use csc.Dine.Statements.{act-Local}
use csc.Dine.Accounts.{sum, sum_change, sides_apart, run-act}
use csc.Dine.Deadlock.{no_deadlock}
use csc.Dine.Weight.{measure, Nearer, act-Nearer}

-- The statements that all threads still have before them, at most.
abbrev total : ℕ → Table → ℕ
total n t = sum n (λ i. measure (t.phils i))

run-total :
    (n i : ℕ) (t t' : Table)
    → 2 ≤ n
    → i < n
    → run n i t ≡ some t'
    → (total n t' < total n t)
      × ((j : ℕ) → (t.phils j).failed ≡ false → (t'.phils j).failed ≡ false)
unfolding Nearer
run-total n i t t' two h e =
    let (alive, acts) = run-act n i t t' e in
    let l = act-Local n i (t.phils i).pc t t' (sides_apart n i two h) refl acts in
    let (near, same) = act-Nearer n i (t.phils i).pc t t' refl acts in
    let s =
      sum_change n i (λ j. measure (t.phils j)) (λ j. measure (t'.phils j)) h
        (λ j ne. ap measure (l.others j ne)) in
    (
      omega (arith, near, s),
      λ j live. elim (Bool-cases (j == i)) [
        | inl at ↦ let k : j ≡ i = ground arith in rw k (same ∙ alive)
        | inr off ↦ rw (l.others j (λ x. ground arith)) live
      ],
    )

-- `k` statements in a row, of any threads, none of which fails.
pub data Runs (n : ℕ) (s : Table) : ℕ → Table → Type 0 where
  none_yet : Runs n s 0 s
  and_then :
      {k i : ℕ} {t t' : Table} → Runs n s k t → i < n → run n i t ≡ some t' → Runs n s (suc k) t'

abbrev pub Alive : ℕ → Table → Type 0
Alive n t = (i : ℕ) → i < n → (t.phils i).failed ≡ false

pub Runs-total :
    (n : ℕ) (s : Table) (k : ℕ) (t : Table)
    → 2 ≤ n
    → Runs n s k t
    → Alive n s
    → (k + total n t ≤ total n s) × Alive n t
Runs-total n s k t two none_yet alive = (omega arith, alive)
Runs-total n s (suc k) t two (and_then {i = i} {t = u} r h e) alive =
    let (a, live) = Runs-total n s k u two r alive in
    let (b, keep) = run-total n i u t two h e in (omega (arith, a, b), λ j l. keep j (live j l))

Runs-Reach : (n cycle k : ℕ) (t : Table) → Runs n (initial n cycle) k t → Reach n cycle t
Runs-Reach n cycle k t none_yet = start
Runs-Reach n cycle (suc k) t (and_then {i = i} r h e) =
    later (Runs-Reach n cycle k _ r) (runs i h e)

-- One run after another.
Runs-then :
    (n i : ℕ) (s t : Table) (k : ℕ) (u : Table)
    → i < n
    → run n i s ≡ some t
    → Runs n t k u
    → Runs n s (suc k) u
Runs-then n i s t k u h e none_yet = and_then none_yet h e
Runs-then n i s t (suc k) u h e (and_then {t = v} r h2 e2) =
    and_then (Runs-then n i s t k v h e r) h2 e2

total-initial : (n cycle : ℕ) → total n (initial n cycle) ≡ n * (50 * cycle + 6)
unfolding initial
total-initial n cycle = all n
  where
    all : (m : ℕ) → sum m (λ i. 50 * cycle + 6) ≡ m * (50 * cycle + 6)
    all zero = ground arith
    all (suc m) = let r = all m in ground arith

pub initial_alive : (n cycle i : ℕ) → ((initial n cycle).phils i).failed ≡ false
unfolding initial
initial_alive n cycle i = refl

complete :
    (n cycle fuel : ℕ) (t : Table)
    → 2 ≤ n
    → Reach n cycle t
    → Alive n t
    → total n t < fuel
    → (m : ℕ) × (u : Table) × Runs n t m u × ((i : ℕ) → i < n → (u.phils i).pc ≡ returned)
complete n cycle zero t two r alive small = elim small [ ]
complete n cycle (suc fuel) t two r alive small = elim (no_deadlock n cycle two r alive) [
  | inr ended ↦ (0, t, none_yet, ended)
  | inl (j, t', h, e) ↦
      let (less, keep) = run-total n j t t' two h e in
      let (m, u, rest, ended) =
        complete n cycle fuel t' two (later r (runs j h e)) (λ i l. keep i (alive i l))
          (omega (arith, less, small)) in
      (suc m, u, Runs-then n j t t' m u h e rest, ended)
]

-- Termination: as long as no semaphore fails, `n` threads, two or more, of `cycle` cycles make
-- at most n * (50 * cycle + 6) statements, in whatever order they run; and from every table on
-- the way they can go on until all have returned.
pub threads_end :
    (n cycle k : ℕ) (t : Table)
    → 2 ≤ n
    → Runs n (initial n cycle) k t
    → (k ≤ n * (50 * cycle + 6))
      × (m : ℕ) × (u : Table) × Runs n t m u
      × ((i : ℕ) → i < n → (u.phils i).pc ≡ returned)
threads_end n cycle k t two r =
    let (a, alive) = Runs-total n (initial n cycle) k t two r (λ i h. initial_alive n cycle i) in
    let b = total-initial n cycle in
    let (m, u, rest, ended) =
      complete n cycle (suc (total n t)) t two (Runs-Reach n cycle k t r) alive (omega arith) in
    (omega (arith, a, b), m, u, rest, ended)
