-- ===== src/Dine/Ownership.antt =====
-- Asgn3/dine.c, `philosopher`: which forks a philosopher has at each statement, what is shown of it, and
-- that every statement keeps the account of the semaphores.
use csc.Prelude.{ℕ, ◌+◌, ◌≡◌, ◌≢◌, refl, sym, subst, List, Bool, true, false, ◌==◌, arith}
use csc.Dine.Printing.{PhilState, changing, eating, thinking}
use csc.Dine.Philosopher.{
  Side, left, right, first_fork, second_fork, Section, hungry, took, eat, finish, drop, think,
  leave, after_eat, after_finish, after_think, Pc, loop, grab, lock, write, put_down, print, unlock,
  dawdle, count, returned, PhilInfo, Table, fork_index, side, is_even, put_phil,
}

abbrev pub same_side : Side → Side → Bool
same_side left left = true
same_side left right = false
same_side right left = false
same_side right right = true

abbrev pub bit : Bool → ℕ
bit true = 1
bit false = 0

-- The forks of a philosopher who enters a section, and of one who leaves it.
abbrev pub owns_before : Bool → Section → Side → Bool
owns_before even hungry s = false
owns_before even (took first_fork) s = same_side s (side even first_fork)
owns_before even (took second_fork) s = true
owns_before even eat s = true
owns_before even finish s = true
owns_before even (drop right) s = true
owns_before even (drop left) s = same_side s left
owns_before even think s = false
owns_before even leave s = false

abbrev pub owns_after : Bool → Section → Side → Bool
owns_after even hungry s = false
owns_after even (took first_fork) s = same_side s (side even first_fork)
owns_after even (took second_fork) s = true
owns_after even eat s = true
owns_after even finish s = true
owns_after even (drop right) s = same_side s left
owns_after even (drop left) s = false
owns_after even think s = false
owns_after even leave s = false

-- The philosopher has taken the fork and not put it down.
abbrev pub owns : Bool → Pc → Side → Bool
owns even loop s = false
owns even (grab first_fork) s = false
owns even (grab second_fork) s = same_side s (side even first_fork)
owns even (lock b) s = owns_before even b s
owns even (write b) s = owns_before even b s
owns even (put_down right) s = true
owns even (put_down left) s = same_side s left
owns even (print b) s = owns_after even b s
owns even (unlock b) s = owns_after even b s
owns even (dawdle after_eat) s = true
owns even (dawdle after_finish) s = true
owns even (dawdle after_think) s = false
owns even count s = false
owns even returned s = false

-- The fields `holding_left` and `holding_right`, at the start of a section and elsewhere.
abbrev pub shows_before : Bool → Section → Side → Bool
shows_before even hungry s = false
shows_before even (took first_fork) s = false
shows_before even (took second_fork) s = same_side s (side even first_fork)
shows_before even eat s = true
shows_before even finish s = true
shows_before even (drop x) s = owns_before even (drop x) s
shows_before even think s = false
shows_before even leave s = false

abbrev pub shows : Bool → Pc → Side → Bool
shows even loop s = false
shows even (grab first_fork) s = false
shows even (grab second_fork) s = same_side s (side even first_fork)
shows even (lock b) s = shows_before even b s
shows even (write b) s = shows_before even b s
shows even (put_down x) s = owns_after even (drop x) s
shows even (print b) s = owns_after even b s
shows even (unlock b) s = owns_after even b s
shows even (dawdle after_eat) s = true
shows even (dawdle after_finish) s = true
shows even (dawdle after_think) s = false
shows even count s = false
shows even returned s = false

abbrev pub is_eat : Section → Bool
is_eat eat = true
is_eat b = false

abbrev pub is_finish : Section → Bool
is_finish finish = true
is_finish b = false

-- The statements at which the state is EATING.
abbrev pub eats : Pc → Bool
eats (lock b) = is_finish b
eats (write b) = is_finish b
eats (print b) = is_eat b
eats (unlock b) = is_eat b
eats (dawdle after_eat) = true
eats (dawdle after_finish) = false
eats (dawdle after_think) = false
eats loop = false
eats (grab t) = false
eats (put_down s) = false
eats count = false
eats returned = false

-- The philosopher is between `sem_wait` and `sem_post` of the printing lock.
abbrev pub inside : Pc → Bool
inside (write b) = true
inside (put_down s) = true
inside (print b) = true
inside (unlock b) = true
inside pc = false

abbrev pub is_eating : PhilState → Bool
is_eating eating = true
is_eating changing = false
is_eating thinking = false

-- The fields of a philosopher at `pc`.
pub record Shown (even : Bool) (pc : Pc) (p : PhilInfo) : Type 0 where
  pub shows_left : p.holding_left ≡ shows even pc left
  pub shows_right : p.holding_right ≡ shows even pc right
  pub shows_state : is_eating p.state ≡ eats pc

shows_before-owns :
    (even : Bool) (b : Section) (s : Side)
    → shows_before even b s ≡ true
    → owns_before even b s ≡ true
shows_before-owns even hungry s h = h
shows_before-owns even (took first_fork) s h = cc
shows_before-owns even (took second_fork) s h = refl
shows_before-owns even eat s h = h
shows_before-owns even finish s h = h
shows_before-owns even (drop x) s h = h
shows_before-owns even think s h = h
shows_before-owns even leave s h = h

-- A philosopher that is shown with a fork has it.
pub shows-owns : (even : Bool) (pc : Pc) (s : Side) → shows even pc s ≡ true → owns even pc s ≡ true
shows-owns even loop s h = h
shows-owns even (grab first_fork) s h = h
shows-owns even (grab second_fork) s h = h
shows-owns even (lock b) s h = shows_before-owns even b s h
shows-owns even (write b) s h = shows_before-owns even b s h
shows-owns even (put_down left) s h = cc
shows-owns even (put_down right) s h = refl
shows-owns even (print b) s h = h
shows-owns even (unlock b) s h = h
shows-owns even (dawdle after_eat) s h = h
shows-owns even (dawdle after_finish) s h = h
shows-owns even (dawdle after_think) s h = h
shows-owns even count s h = h
shows-owns even returned s h = h

is_finish-shows :
    (even : Bool) (b : Section) (s : Side) → is_finish b ≡ true → shows_before even b s ≡ true
is_finish-shows even finish s h = refl
is_finish-shows even hungry s h = cc
is_finish-shows even (took t) s h = cc
is_finish-shows even eat s h = cc
is_finish-shows even (drop x) s h = cc
is_finish-shows even think s h = cc
is_finish-shows even leave s h = cc

is_eat-shows : (even : Bool) (b : Section) (s : Side) → is_eat b ≡ true → owns_after even b s ≡ true
is_eat-shows even eat s h = refl
is_eat-shows even hungry s h = cc
is_eat-shows even (took t) s h = cc
is_eat-shows even finish s h = cc
is_eat-shows even (drop x) s h = cc
is_eat-shows even think s h = cc
is_eat-shows even leave s h = cc

-- A philosopher that eats is shown with both forks.
pub eats-shows : (even : Bool) (pc : Pc) (s : Side) → eats pc ≡ true → shows even pc s ≡ true
eats-shows even (lock b) s h = is_finish-shows even b s h
eats-shows even (write b) s h = is_finish-shows even b s h
eats-shows even (print b) s h = is_eat-shows even b s h
eats-shows even (unlock b) s h = is_eat-shows even b s h
eats-shows even (dawdle after_eat) s h = refl
eats-shows even (dawdle after_finish) s h = refl
eats-shows even (dawdle after_think) s h = cc
eats-shows even loop s h = cc
eats-shows even (grab t) s h = cc
eats-shows even (put_down x) s h = cc
eats-shows even count s h = cc
eats-shows even returned s h = cc

-- One statement of philosopher `i` changes the account of its forks and of the lock as it changes the
-- semaphores, and touches no other philosopher and no other fork.
pub record Local (n i : ℕ) (t t' : Table) : Type 0 where
  pub others : (j : ℕ) → j ≢ i → t'.phils j ≡ t.phils j
  pub lock_kept :
      t'.printing_lock + bit (inside (t'.phils i).pc)
      ≡ t.printing_lock + bit (inside (t.phils i).pc)
  pub fork_kept :
      (s : Side)
      → t'.forks (fork_index n i s) + bit (owns (is_even i) (t'.phils i).pc s)
        ≡ t.forks (fork_index n i s) + bit (owns (is_even i) (t.phils i).pc s)
  pub forks_apart :
      (k : ℕ) → k ≢ fork_index n i left → k ≢ fork_index n i right → t'.forks k ≡ t.forks k
  pub shown :
      Shown (is_even i) (t.phils i).pc (t.phils i) → Shown (is_even i) (t'.phils i).pc (t'.phils i)

pub put_phil-same : (i : ℕ) (p : PhilInfo) (phils : ℕ → PhilInfo) → put_phil i p phils i ≡ p
put_phil-same i p phils = let here : (i == i) ≡ true = ground arith in rw here refl

put_phil-other :
    (i j : ℕ) (p : PhilInfo) (phils : ℕ → PhilInfo) → j ≢ i → put_phil i p phils j ≡ phils j
put_phil-other i j p phils ne = let away : (j == i) ≡ false = ground arith in rw away refl

-- Philosopher `i` at `pc` becomes `p`.
pub moved :
    (n i : ℕ) (pc : Pc) (t : Table) (p : PhilInfo) (forks : ℕ → ℕ) (printing_lock : ℕ)
    (printed : List (List ℕ))
    → (t.phils i).pc ≡ pc
    → printing_lock + bit (inside p.pc) ≡ t.printing_lock + bit (inside pc)
    → ((s : Side)
        → forks (fork_index n i s) + bit (owns (is_even i) p.pc s)
          ≡ t.forks (fork_index n i s) + bit (owns (is_even i) pc s))
    → ((k : ℕ) → k ≢ fork_index n i left → k ≢ fork_index n i right → forks k ≡ t.forks k)
    → (Shown (is_even i) pc (t.phils i) → Shown (is_even i) p.pc p)
    → Local n i t record {
      forks = forks;
      printing_lock = printing_lock;
      phils = put_phil i p t.phils;
      printed = printed;
    }
moved n i pc t p forks printing_lock printed at l f a s =
    let here = put_phil-same i p t.phils in
    record {
      others = λ j ne. put_phil-other i j p t.phils ne;
      lock_kept = rw (here, at) l;
      fork_kept = λ x. rw (here, at) (f x);
      forks_apart = a;
      shown = λ v.
          subst (λ q. Shown (is_even i) q.pc q) (sym here)
            (s (subst (λ q. Shown (is_even i) q (t.phils i)) at v));
    }
