-- ===== src/TrivialPt/Threads.antt =====
-- Asgn3/trivial_pt.c: the statements of main and of child, as steps of threads that print to one output.
-- A join and the print behind it are one step, as nothing but the print tells when the join returned.
use csc.Prelude.{
  ℕ, ◌+◌, ◌≡◌, Bool, true, false, ltb, ◌==◌, Option, none, some, List, [], ◌∷◌, if◌then◌else◌,
}

abbrev pub num_children : ℕ
num_children = 4

-- The lines that are printed, but for the number of the process in each.
pub data Line : Type 0 where
  child_hello child_goodbye child_exited : ℕ → Line
  parent_hello parent_goodbye : Line

-- Where main is: in the loop that creates the children, in the loop that joins them, or behind `return`
-- or `exit` with a status.
pub data Stage : Type 0 where
  creating joining exited : ℕ → Stage

-- Where a child is.
pub data Child : Type 0 where
  not_created created greeted ended : Child

-- The lines are the newest first.
pub record Process : Type 0 where
  pub stage : Stage
  pub child : ℕ → Child
  pub lines : List Line

abbrev pub print : Line → Process → Process
print x p = record p { lines = x ∷ p.lines }

abbrev pub set_child : ℕ → Child → Process → Process
set_child i c p = record p { child = λ j. if j == i then c else p.child j }

abbrev pub has_ended : Child → Bool
has_ended ended = true
has_ended other = false

-- The next statement of main, if it can go on; `ok` tells whether the call of pthread_create or
-- pthread_join in it succeeds.
unfoldable pub parent_at : Stage → Bool → Process → Option Process
parent_at (creating i) ok p =
    if ltb i num_children
    then if ok
      then some (record (set_child i created p) { stage = creating (i + 1) })
      else some (record p { stage = exited 1 })
    else some (record (print parent_hello p) { stage = joining 0 })
parent_at (joining i) ok p =
    if ltb i num_children
    then if ok
      then if has_ended (p.child i)
        then some (record (print (child_exited i) p) { stage = joining (i + 1) })
        else none
      else some (record p { stage = exited 1 })
    else some (record (print parent_goodbye p) { stage = exited 0 })
parent_at (exited code) ok p = none

abbrev pub parent : Bool → Process → Option Process
parent ok p = parent_at p.stage ok p

-- The next statement of a child.
unfoldable pub child_at : Child → ℕ → Process → Option Process
child_at not_created i p = none
child_at created i p = some (set_child i greeted (print (child_hello i) p))
child_at greeted i p = some (set_child i ended (print (child_goodbye i) p))
child_at ended i p = none

-- When main is behind its end, the process and its threads are gone.
abbrev pub is_running : Stage → Bool
is_running (exited code) = false
is_running other = true

unfoldable pub child_step : ℕ → Process → Option Process
child_step i p = if is_running p.stage then child_at (p.child i) i p else none

abbrev pub start : Process
start = record { stage = creating 0; child = λ i. not_created; lines = [] }

-- Any interleaving of the steps.
pub data Step (p q : Process) : Type 0 where
  of_parent : (ok : Bool) → parent ok p ≡ some q → Step p q
  of_child : (i : ℕ) → child_step i p ≡ some q → Step p q

pub data Reach : Process → Type 0 where
  here : Reach start
  next : {p q : Process} → Reach p → Step p q → Reach q
