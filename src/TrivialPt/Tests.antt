-- ===== src/TrivialPt/Tests.antt =====
-- Asgn3/trivial_pt.c: a run to the end, with the children in another order than they are joined.
use csc.Prelude.{
  ℕ, ◌≡◌, ◌⊎◌, refl, true, Option, none, some, some_injective, subst, List, [], ◌∷◌, Option-cases,
  inl, inr,
}
use csc.TrivialPt.Threads.{
  joining, exited, Process, parent_at, parent, child_at, child_step, start, Step, Reach,
}
use csc.TrivialPt.Lines.{IsOrdered}
use csc.TrivialPt.Printed.{PrintedAt, lines_in_order, no_block}

-- A step of main with calls that succeed, or of a child.
data Move : Type 0 where
  main_moves : Move
  child_moves : ℕ → Move

abbrev moved : Move → Process → Option Process
moved main_moves p = parent true p
moved (child_moves i) p = child_step i p

unfoldable play : List Move → Process → Option Process
play [] p = some p
play (m ∷ ms) p = elim (moved m p) [ none ↦ none | some q ↦ play ms q ]

moved-Step : (m : Move) (p q : Process) → moved m p ≡ some q → Step p q
moved-Step main_moves p q s = Step.of_parent true s
moved-Step (child_moves i) p q s = Step.of_child i s

play-Reach : (ms : List Move) (p q : Process) → Reach p → play ms p ≡ some q → Reach q
unfolding play
play-Reach [] p q r s = subst Reach (some_injective s) r
play-Reach (m ∷ ms) p q r s = elim (Option-cases (moved m p)) [
  | inl e ↦ absurd (let stuck : none ≡ some q = rw (e, play) at s in cc)
  | inr (p', e) ↦ play-Reach ms p' q (Reach.next r (moved-Step m p p' e)) (rw (e, play) at s)
]

abbrev reached : Option Process → Process
reached none = start
reached (some p) = p

abbrev first_moves : List Move
first_moves =
    main_moves
    ∷ main_moves
    ∷ child_moves 1
    ∷ main_moves
    ∷ main_moves
    ∷ child_moves 0
    ∷ child_moves 1
    ∷ main_moves
    ∷ child_moves 0
    ∷ []

abbrev last_moves : List Move
last_moves =
    main_moves
    ∷ child_moves 2
    ∷ child_moves 3
    ∷ child_moves 3
    ∷ main_moves
    ∷ child_moves 2
    ∷ main_moves
    ∷ main_moves
    ∷ main_moves
    ∷ []

-- The children are created, and two have printed.
abbrev two_printed : Process
two_printed = reached (play first_moves start)

abbrev finished : Process
finished = reached (play last_moves two_printed)

two_printed-Reach : Reach two_printed
unfolding play parent_at child_at child_step
two_printed-Reach = play-Reach first_moves start two_printed Reach.here refl

finished-Reach : Reach finished
unfolding play parent_at child_at child_step
finished-Reach = play-Reach last_moves two_printed finished two_printed-Reach refl

finished_well : finished.stage ≡ exited 0
unfolding play parent_at child_at child_step
finished_well = refl

lines_in_order_example : IsOrdered finished.lines × PrintedAt finished.stage finished.lines
lines_in_order_example = lines_in_order finished-Reach

no_block_example :
    (q : Process) × ((parent true two_printed ≡ some q)
      ⊎ ((i : ℕ) × (two_printed.stage ≡ joining i) × (child_step i two_printed ≡ some q)))
unfolding play parent_at child_at child_step
no_block_example = no_block two_printed-Reach refl
