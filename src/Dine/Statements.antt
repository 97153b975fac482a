-- ===== src/Dine/Statements.antt =====
-- Asgn3/dine.c, `philosopher`: every statement keeps the account of the semaphores and of what is shown.
use csc.Prelude.{some_injective, not_blocked, ℕ, ◌+◌, ◌-◌, ◌≡◌, ◌≢◌, refl, subst, ◌==◌, some, arith}
use csc.Dine.Philosopher.{
  left, right, took, drop, Pc, loop, grab, lock, write, put_down, print, unlock, dawdle, count,
  returned, Table, fork_index, side, is_even, after_section, after_rest, loop_test, act, fail,
}
use csc.Dine.Ownership.{Local, moved}
use csc.Dine.Effects.{
  steps, forks-Local, lock-Local, write-Local, inside-after_section, owns-after_section, grab-owns,
  grab-shows, put_down-owns, rest-owns, loop-owns,
}

-- Every statement keeps the accounts.
pub act-Local :
    (n i : ℕ) (pc : Pc) (t t' : Table)
    → fork_index n i left ≢ fork_index n i right
    → (t.phils i).pc ≡ pc
    → act n i pc t ≡ some t'
    → Local n i t t'
unfolding act
act-Local n i loop t t' apart at e =
    let same = loop-owns (is_even i) (t.phils i) in
    subst (Local n i t) (some_injective e) (
      steps n i loop (loop_test (t.phils i)) t at (same left).0 (λ s. (same s).1) (λ s. (same s).2)
        (same left).3)
act-Local n i (grab x) t t' apart at e =
    let s = side (is_even i) x in
    let k = fork_index n i s in
    let (free, same) = not_blocked (t.forks k == 0) e in
    let (a, b, c) = grab-owns (is_even i) x in
    subst (Local n i t) same (
      forks-Local n i (grab x) (lock (took x)) t s (t.forks k - 1) at apart refl
        (rw (a, b) (ground arith)) c (grab-shows (is_even i) x) refl)
act-Local n i (lock b) t t' apart at e =
    let (free, same) = not_blocked (t.printing_lock == 0) e in
    subst (Local n i t) same (
      lock-Local n i (lock b) (write b) t (t.printing_lock - 1) at (ground arith) (λ s. refl)
        (λ s. refl) refl)
act-Local n i (write b) t t' apart at e =
    subst (Local n i t) (some_injective e) (write-Local n i b t at)
act-Local n i (put_down x) t t' apart at e =
    let (a, b, c) = put_down-owns (is_even i) x in
    subst (Local n i t) (some_injective e) (
      forks-Local n i (put_down x) (print (drop x)) t x (t.forks (fork_index n i x) + 1) at apart
        refl (rw (a, b) (omega arith)) c (λ s. refl) refl)
act-Local n i (print b) t t' apart at e = subst (Local n i t) (some_injective e) (
    moved n i (print b) t _ t.forks t.printing_lock _ at refl (λ s. refl) (λ k x y. refl)
      (λ v. record {
        shows_left = v.shows_left;
        shows_right = v.shows_right;
        shows_state = v.shows_state;
      }))
act-Local n i (unlock b) t t' apart at e = subst (Local n i t) (some_injective e) (
    lock-Local n i (unlock b) (after_section b) t (t.printing_lock + 1) at
      (ground (arith, inside-after_section b)) (λ s. (owns-after_section (is_even i) b s).0)
      (λ s. (owns-after_section (is_even i) b s).1) (owns-after_section (is_even i) b left).2)
act-Local n i (dawdle r) t t' apart at e =
    let same = rest-owns (is_even i) r in
    subst (Local n i t) (some_injective e) (
      steps n i (dawdle r) (after_rest r) t at (same left).0 (λ s. (same s).1) (λ s. (same s).2)
        (same left).3)
act-Local n i count t t' apart at e = subst (Local n i t) (some_injective e) (
    moved n i count t _ t.forks t.printing_lock t.printed at refl (λ s. refl) (λ k x y. refl)
      (λ v. record {
        shows_left = v.shows_left;
        shows_right = v.shows_right;
        shows_state = v.shows_state;
      }))
act-Local n i returned t t' apart at e = cc

-- A failure changes no account.
pub fail-Local : (n i : ℕ) (t : Table) → Local n i t (fail i t)
unfolding fail
fail-Local n i t =
    moved n i (t.phils i).pc t _ t.forks t.printing_lock t.printed refl refl (λ s. refl)
      (λ k x y. refl)
      (λ v. record {
        shows_left = v.shows_left;
        shows_right = v.shows_right;
        shows_state = v.shows_state;
      })
