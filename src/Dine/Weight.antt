-- ===== src/Dine/Weight.antt =====
-- Asgn3/dine.c, `philosopher`: how many statements a thread has before it, at most.
use csc.Prelude.{
  some_injective, not_blocked, ℕ, ◌+◌, ◌-◌, ◌*◌, ◌<◌, ◌≡◌, refl, sym, subst, ap, ◌∙◌, Bool, true,
  false, ltb, some, Bool-cases, inl, inr, arith, if◌then◌else◌,
}
use csc.Dine.Philosopher.{
  Side, left, right, Turn, first_fork, second_fork, Section, hungry, took, eat, finish, drop, think,
  leave, Rest, after_eat, after_finish, after_think, PhilInfo, Table, Pc, loop, grab, lock, write,
  put_down, print, unlock, dawdle, count, returned, is_even, is_changing, hold, assign, after_write,
  after_section, after_rest, loop_test, side, put_phil, act,
}
use csc.Dine.Ownership.{put_phil-same}

-- How many statements a section and what follows it in the cycle take at most.
abbrev base : Section → ℕ
base leave = 0
base think = 8
base (drop left) = 13
base (drop right) = 18
base finish = 24
base eat = 30
base (took second_fork) = 35
base (took first_fork) = 41
base hungry = 47

abbrev is_leave : Section → Bool
is_leave leave = true
is_leave b = false

-- The cycles after the one that is under way
abbrev later_cycles : Section → ℕ → ℕ
later_cycles b c = if is_leave b then 0 else 50 * (c - 1)

abbrev weight : Pc → ℕ → ℕ
weight loop c = 50 * c + 6
weight count c = 50 * (c - 1) + 7
weight (dawdle after_think) c = 50 * (c - 1) + 8
weight (dawdle after_finish) c = 50 * (c - 1) + 24
weight (dawdle after_eat) c = 50 * (c - 1) + 30
weight (grab second_fork) c = 50 * (c - 1) + 41
weight (grab first_fork) c = 50 * (c - 1) + 47
weight (put_down s) c = 50 * (c - 1) + base (drop s) + 3
weight (unlock b) c = later_cycles b c + base b + 1
weight (print b) c = later_cycles b c + base b + 2
weight (write b) c = later_cycles b c + base b + 4
weight (lock b) c = later_cycles b c + base b + 5
weight returned c = 0

abbrev pub measure : PhilInfo → ℕ
measure p = weight p.pc p.cycles_left

weight-after_section : (b : Section) (c : ℕ) → weight (after_section b) c < weight (unlock b) c
unfolding after_section
weight-after_section hungry c = omega arith
weight-after_section (took first_fork) c = omega arith
weight-after_section (took second_fork) c = omega arith
weight-after_section eat c = omega arith
weight-after_section finish c = omega arith
weight-after_section (drop left) c = omega arith
weight-after_section (drop right) c = omega arith
weight-after_section think c = omega arith
weight-after_section leave c = omega arith

weight-after_write : (b : Section) (c : ℕ) → weight (after_write b) c < weight (write b) c
unfolding after_write
weight-after_write hungry c = omega arith
weight-after_write (took x) c = omega arith
weight-after_write eat c = omega arith
weight-after_write finish c = omega arith
weight-after_write (drop x) c = omega arith
weight-after_write think c = omega arith
weight-after_write leave c = omega arith

weight-after_rest : (r : Rest) (c : ℕ) → weight (after_rest r) c < weight (dawdle r) c
unfolding after_rest
weight-after_rest after_eat c = omega arith
weight-after_rest after_finish c = omega arith
weight-after_rest after_think c = omega arith

weight-took : (x : Turn) (c : ℕ) → weight (lock (took x)) c < weight (grab x) c
weight-took first_fork c = omega arith
weight-took second_fork c = omega arith

weight-loop_test : (p : PhilInfo) → weight (loop_test p) p.cycles_left < weight loop p.cycles_left
unfolding loop_test
weight-loop_test p = elim (Bool-cases (ltb 0 p.cycles_left)) [
  | inl more ↦
      let pos : 0 < p.cycles_left = ground arith in
      elim (Bool-cases (is_changing p.state)) [
        | inl yes_changing ↦ rw (more, yes_changing) (omega (arith, pos))
        | inr not_changing ↦ rw (more, not_changing) (omega (arith, pos))
      ]
  | inr over ↦ rw over (omega arith)
]

assign-keeps :
    (even : Bool) (b : Section) (p : PhilInfo)
    → ((assign even b p).cycles_left ≡ p.cycles_left) × ((assign even b p).failed ≡ p.failed)
unfolding assign
assign-keeps even hungry p = (refl, refl)
assign-keeps even (took x) p = held (side even x)
  where
    held :
        (s : Side)
        → ((hold s true p).cycles_left ≡ p.cycles_left) × ((hold s true p).failed ≡ p.failed)
    held left = (refl, refl)
    held right = (refl, refl)
assign-keeps even eat p = (refl, refl)
assign-keeps even finish p = (refl, refl)
assign-keeps even (drop left) p = (refl, refl)
assign-keeps even (drop right) p = (refl, refl)
assign-keeps even think p = (refl, refl)
assign-keeps even leave p = (refl, refl)

-- A philosopher has come nearer to its end, and has not failed.
unfoldable pub Nearer : PhilInfo → PhilInfo → Type 0
Nearer p q = (measure q < measure p) × (q.failed ≡ p.failed)

becomes-Nearer :
    (i : ℕ) (p : PhilInfo) (t t' : Table)
    → put_phil i p t.phils ≡ t'.phils
    → Nearer (t.phils i) p
    → Nearer (t.phils i) (t'.phils i)
becomes-Nearer i p t t' e near =
    subst (Nearer (t.phils i)) (sym (put_phil-same i p t.phils) ∙ ap (λ f. f i) e) near

weighed : (p : PhilInfo) (pc : Pc) (w : ℕ) → p.pc ≡ pc → w < weight pc p.cycles_left → w < measure p
weighed p pc w at h = rw at h

pub act-Nearer :
    (n i : ℕ) (pc : Pc) (t t' : Table)
    → (t.phils i).pc ≡ pc
    → act n i pc t ≡ some t'
    → Nearer (t.phils i) (t'.phils i)
unfolding act Nearer
act-Nearer n i loop t t' at e =
    becomes-Nearer i _ t t' (ap Table.phils (some_injective e))
      (weighed (t.phils i) loop _ at (weight-loop_test (t.phils i)), refl)
act-Nearer n i (grab x) t t' at e =
    becomes-Nearer i _ t t' (ap Table.phils (not_blocked _ e).1)
      (weighed (t.phils i) (grab x) _ at (weight-took x (t.phils i).cycles_left), refl)
act-Nearer n i (lock b) t t' at e =
    becomes-Nearer i _ t t' (ap Table.phils (not_blocked _ e).1)
      (weighed (t.phils i) (lock b) _ at (omega arith), refl)
act-Nearer n i (write b) t t' at e =
    let (same, alive) = assign-keeps (is_even i) b (t.phils i) in
    becomes-Nearer i _ t t' (ap Table.phils (some_injective e)) (
      weighed (t.phils i) (write b) _ at (rw same (weight-after_write b (t.phils i).cycles_left)),
      alive,
    )
act-Nearer n i (put_down x) t t' at e =
    becomes-Nearer i _ t t' (ap Table.phils (some_injective e))
      (weighed (t.phils i) (put_down x) _ at (omega arith), refl)
act-Nearer n i (print b) t t' at e =
    becomes-Nearer i _ t t' (ap Table.phils (some_injective e))
      (weighed (t.phils i) (print b) _ at (omega arith), refl)
act-Nearer n i (unlock b) t t' at e =
    becomes-Nearer i _ t t' (ap Table.phils (some_injective e))
      (weighed (t.phils i) (unlock b) _ at (weight-after_section b (t.phils i).cycles_left), refl)
act-Nearer n i (dawdle r) t t' at e =
    becomes-Nearer i _ t t' (ap Table.phils (some_injective e))
      (weighed (t.phils i) (dawdle r) _ at (weight-after_rest r (t.phils i).cycles_left), refl)
act-Nearer n i count t t' at e =
    becomes-Nearer i _ t t' (ap Table.phils (some_injective e))
      (weighed (t.phils i) count _ at (omega arith), refl)
act-Nearer n i returned t t' at e = cc
