-- ===== src/Dine/Sharing.antt =====
-- Asgn3/dine.c: the forks and the printing lock are shared without conflict, in every order of the
-- threads' statements and whatever semaphores fail.
use csc.Prelude.{
  some_injective, not_blocked, ℕ, ◌+◌, ◌<◌, ◌≤◌, ◌≡◌, ◌≢◌, ◌⊎◌, refl, sym, subst, ap, ◌∙◌, List,
  ◌∷◌, Bool, true, false, some, Bool-cases, inl, inr, arith, All, if◌then◌else◌, ◌==◌,
}
use csc.Dine.Printing.{eating, View, print_status_change}
use csc.Dine.Philosopher.{
  left, right, Table, Pc, loop, grab, lock, write, put_down, print, unlock, dawdle, count, returned,
  right_fork_index, is_even, view, act, fail, runs, fails, initial, Reach, start, later,
}
use csc.Dine.Ownership.{bit, owns, inside, eats, is_eating, shows-owns, eats-shows}
use csc.Dine.Accounts.{
  right_fork_index-cases, right_fork_index-lt, right_user-right_fork, Inv, Reach-Accounts,
  lock_apart, run-act,
}

absurd_bool : {A : Type 0} → true ≡ false → A
absurd_bool e = cc

-- What a row of the table shows of the forks: none is held twice, who eats holds both, and no two
-- neighbours eat.
pub record IsShared (n : ℕ) (views : ℕ → View) : Type 0 where
  pub held_once :
      (i : ℕ)
      → i < n
      → (views i).holding_right ≡ true
      → (views (right_fork_index n i)).holding_left ≡ false
  pub eats_with_both :
      (i : ℕ)
      → i < n
      → (views i).state ≡ eating
      → ((views i).holding_left ≡ true) × ((views i).holding_right ≡ true)
  pub no_neighbours_eat :
      (i : ℕ) → i < n → (views i).state ≡ eating → (views (right_fork_index n i)).state ≢ eating

one_owner : (a : ℕ) (x y : Bool) → a + bit x + bit y ≡ 1 → y ≡ true → x ≡ false
one_owner a false y h e = refl
one_owner a true true h e = ground arith
one_owner a true false h e = cc

-- The fork between two neighbours has one owner.
pub fork_owner :
    (n i : ℕ) (t : Table)
    → Inv n t
    → i < n
    → owns (is_even i) (t.phils i).pc right ≡ true
    → owns (is_even (right_fork_index n i)) (t.phils (right_fork_index n i)).pc left ≡ false
fork_owner n i t v h o =
    let k = right_fork_index n i in
    let a = v.fork_account k (right_fork_index-lt n i h) in
    let b =
      subst
        (λ u.
          t.forks k
            + bit (owns (is_even k) (t.phils k).pc left)
            + bit (owns (is_even u) (t.phils u).pc right)
          ≡ 1)
        (right_user-right_fork n i h) a in
    one_owner _ _ _ b o

Inv-IsShared : (n : ℕ) (t : Table) → Inv n t → IsShared n (view n t.phils)
Inv-IsShared n t v = record {
  held_once = once;
  eats_with_both = both;
  no_neighbours_eat = λ i h e f.
      absurd_bool (
        sym (both (right_fork_index n i) (right_fork_index-lt n i h) f).0
        ∙ once i h (both i h e).1);
}
  where
    once :
        (i : ℕ)
        → i < n
        → (t.phils i).holding_right ≡ true
        → (t.phils (right_fork_index n i)).holding_left ≡ false
    once i h e =
        let j = right_fork_index n i in
        let there = v.shown j (right_fork_index-lt n i h) in
        let taken =
          shows-owns (is_even i) (t.phils i).pc right (sym (v.shown i h).shows_right ∙ e) in
        let free = fork_owner n i t v h taken in
        elim (Bool-cases ((t.phils j).holding_left)) [
          | inl held ↦
              let o = shows-owns (is_even j) (t.phils j).pc left (sym there.shows_left ∙ held) in
              absurd_bool (sym o ∙ free)
          | inr not_held ↦ not_held
        ]

    both :
        (i : ℕ)
        → i < n
        → (t.phils i).state ≡ eating
        → ((t.phils i).holding_left ≡ true) × ((t.phils i).holding_right ≡ true)
    both i h e =
        let s = v.shown i h in
        let m : eats (t.phils i).pc ≡ true = sym s.shows_state ∙ ap is_eating e in
        (
          s.shows_left ∙ eats-shows (is_even i) (t.phils i).pc left m,
          s.shows_right ∙ eats-shows (is_even i) (t.phils i).pc right m,
        )

-- Let there be two philosophers or more. In every table that the threads reach, in whatever
-- order they run and whatever semaphores fail, the fields of the philosophers show no fork held
-- twice; who is EATING holds both forks; and no two neighbours are EATING.
pub Reach-IsShared :
    (n cycle : ℕ) {t : Table} → 2 ≤ n → Reach n cycle t → IsShared n (view n t.phils)
Reach-IsShared n cycle {t} two r = Inv-IsShared n t (Reach-Accounts n cycle two r)

-- With two philosophers or more, in every table that the threads reach, whenever one of them is
-- between its `sem_wait` and `sem_post` on the printing lock, no other is: the states and the
-- forks are changed and printed by one thread at a time.
pub printing_lock_exclusive :
    (n cycle i j : ℕ) {t : Table}
    → 2 ≤ n
    → Reach n cycle t
    → i < n
    → j < n
    → i ≢ j
    → inside (t.phils i).pc ≡ true
    → inside (t.phils j).pc ≡ false
printing_lock_exclusive n cycle i j {t} two r hi hj ne e =
    lock_apart n i j t (Reach-Accounts n cycle two r) hi hj ne e

-- Each philosopher is between the fork of its own index and the next one around the table.
abbrev pub IsSeated : ℕ → (ℕ → View) → Type 0
IsSeated n views =
    (i : ℕ)
    → i < n
    → ((views i).left_fork_index ≡ i)
      × ((views i).right_fork_index ≡ (if i + 1 == n then 0 else i + 1))

-- A row that is the picture of forks shared without conflict: it shows each philosopher's forks at the
-- places of those forks.
abbrev pub IsFairRow : ℕ → List ℕ → Type 0
IsFairRow n row =
    (views : ℕ → View) × (row ≡ print_status_change n views) × IsSeated n views × IsShared n views

view-IsSeated : (n : ℕ) (t : Table) → IsSeated n (view n t.phils)
view-IsSeated n t i h = (refl, ground (arith, right_fork_index-cases n i h))

act-printed :
    (n i : ℕ) (pc : Pc) (t t' : Table)
    → act n i pc t ≡ some t'
    → (t'.printed ≡ t.printed) ⊎ (t'.printed ≡ print_status_change n (view n t.phils) ∷ t.printed)
unfolding act
act-printed n i loop t t' e = inl (sym (ap Table.printed (some_injective e)))
act-printed n i (grab x) t t' e = inl (sym (ap Table.printed (not_blocked _ e).1))
act-printed n i (lock b) t t' e = inl (sym (ap Table.printed (not_blocked _ e).1))
act-printed n i (write b) t t' e = inl (sym (ap Table.printed (some_injective e)))
act-printed n i (put_down x) t t' e = inl (sym (ap Table.printed (some_injective e)))
act-printed n i (print b) t t' e = inr (sym (ap Table.printed (some_injective e)))
act-printed n i (unlock b) t t' e = inl (sym (ap Table.printed (some_injective e)))
act-printed n i (dawdle r) t t' e = inl (sym (ap Table.printed (some_injective e)))
act-printed n i count t t' e = inl (sym (ap Table.printed (some_injective e)))
act-printed n i returned t t' e = cc

-- With two philosophers or more, every row that is printed, in whatever order the threads run
-- and whatever semaphores fail, is the picture of a moment at which no fork is held twice, who
-- eats holds both forks, and no two neighbours eat: the row shows the left fork of a philosopher
-- under the philosopher's own index and the right fork under the next index around the table.
pub Reach-IsFairRow :
    (n cycle : ℕ) {t : Table} → 2 ≤ n → Reach n cycle t → All (IsFairRow n) t.printed
unfolding initial fail
Reach-IsFairRow n cycle two start = (
  (
    _,
    refl,
    view-IsSeated n (initial n cycle),
    Inv-IsShared n (initial n cycle) (Reach-Accounts n cycle two start),
  ),
  tt,
)
Reach-IsFairRow n cycle two (later {t} {t'} r (runs i h e)) =
    let old = Reach-IsFairRow n cycle two r in
    elim (act-printed n i (t.phils i).pc t t' (run-act n i t t' e).1) [
      | inl same ↦ rw same old
      | inr row ↦ rw row ((_, refl, view-IsSeated n t, Reach-IsShared n cycle two r), old)
    ]
Reach-IsFairRow n cycle two (later r (fails i h a b)) = Reach-IsFairRow n cycle two r
