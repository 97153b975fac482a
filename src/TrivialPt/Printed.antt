-- ===== src/TrivialPt/Printed.antt =====
-- Asgn3/trivial_pt.c: which lines are printed in which order.
use csc.Prelude.{
  ℕ, zero, suc, ◌<◌, ◌≤◌, ◌≡◌, ◌⊎◌, refl, ◌∙◌, true, false, ltb, arith, some, List, Bool-cases, inl,
  inr,
}
use csc.TrivialPt.Threads.{
  num_children, Line, Stage, creating, joining, exited, Child, not_created, created, greeted, ended,
  Process, has_ended, parent_at, parent, child_at, is_running, child_step, Reach,
}
use csc.TrivialPt.Lines.{
  hellos, goodbyes, exits, parent_hellos, parent_goodbyes, IsOrdered, has_greeted, has_left,
  is_created, Counts, At, Inv,
}
use csc.TrivialPt.Joined.{Reach-Inv}

-- Each child has printed its two lines and was joined once, and no other was; main has printed its two.
pub record IsComplete (xs : List Line) : Type 0 where
  pub children :
      (i : ℕ) → i < num_children → (hellos i xs ≡ 1) × (goodbyes i xs ≡ 1) × (exits i xs ≡ 1)
  pub no_others :
      (i : ℕ) → num_children ≤ i → (hellos i xs ≡ 0) × (goodbyes i xs ≡ 0) × (exits i xs ≡ 0)
  pub parent_lines : (parent_hellos xs ≡ 1) × (parent_goodbyes xs ≡ 1)

greeted_once : (c : Child) → has_ended c ≡ true → has_greeted c ≡ 1
greeted_once not_created e = cc
greeted_once created e = cc
greeted_once greeted e = refl
greeted_once ended e = refl

left_then : (c : Child) → has_ended c ≡ true → has_left c ≡ 1
left_then not_created e = cc
left_then created e = cc
left_then greeted e = cc
left_then ended e = refl

silent : (c : Child) → is_created c ≡ false → (has_greeted c ≡ 0) × (has_left c ≡ 0)
silent not_created e = (refl, refl)
silent created e = cc
silent greeted e = cc
silent ended e = cc

Inv-IsComplete : (p : Process) → Inv p → Counts p 4 4 1 1 → IsComplete p.lines
Inv-IsComplete p v c = record {
  children = λ i k.
      let over = c.over i k in
      (
        v.hello i ∙ greeted_once (p.child i) over,
        v.goodbye i ∙ left_then (p.child i) over,
        (let j = c.joins i in ground arith),
      );
  no_others = λ i k.
      let quiet = silent (p.child i) (c.made i ∙ (ground arith)) in
      (v.hello i ∙ quiet.0, v.goodbye i ∙ quiet.1, (let j = c.joins i in ground arith));
  parent_lines = (c.greets, c.leaves);
}

-- What main's place tells: its goodbye is there only if it has returned 0, and then all lines are.
abbrev pub PrintedAt : Stage → List Line → Type 0
PrintedAt (creating i) xs = parent_goodbyes xs ≡ 0
PrintedAt (joining i) xs = parent_goodbyes xs ≡ 0
PrintedAt (exited zero) xs = IsComplete xs
PrintedAt (exited (suc code)) xs = parent_goodbyes xs ≡ 0

At-PrintedAt : (s : Stage) (p : Process) → Inv p → At s p → PrintedAt s p.lines
At-PrintedAt (creating i) p v (le, c) = c.leaves
At-PrintedAt (joining i) p v (le, c) = c.leaves
At-PrintedAt (exited zero) p v c = Inv-IsComplete p v c
At-PrintedAt (exited (suc code)) p v (n, m, h, c) = c.leaves

-- In every interleaving of main and the children, whichever calls fail: a child says goodbye behind its
-- one hello, main reports a child that it joined behind that child's one goodbye and behind its own
-- hello, and main says goodbye behind one report for each child. If main has returned 0, each of the
-- four children has said hello, said goodbye and been reported once, no other child has, and main has
-- said hello and goodbye once; at any other place main has not said goodbye.
pub lines_in_order : {p : Process} → Reach p → IsOrdered p.lines × PrintedAt p.stage p.lines
lines_in_order {p} r = let v = Reach-Inv r in (v.order, At-PrintedAt (p.stage) p v v.at)

can_print :
    (c : Child) (i : ℕ) (p : Process)
    → is_created c ≡ true
    → has_ended c ≡ false
    → (q : Process) × (child_at c i p ≡ some q)
unfolding child_at
can_print not_created i p a b = cc
can_print created i p a b = (_, refl)
can_print greeted i p a b = (_, refl)
can_print ended i p a b = cc

can_go_on :
    (s : Stage) (p : Process)
    → At s p
    → is_running s ≡ true
    → (q : Process) × ((parent_at s true p ≡ some q)
        ⊎ ((i : ℕ) × (s ≡ joining i) × (child_at (p.child i) i p ≡ some q)))
unfolding parent_at
can_go_on (creating i) p v on = elim (Bool-cases (ltb i num_children)) [
  | inl more ↦ rw more (_, inl refl)
  | inr last ↦ rw last (_, inl refl)
]
can_go_on (joining i) p (le, c) on = elim (Bool-cases (ltb i num_children)) [
  | inl more ↦ elim (Bool-cases (has_ended (p.child i))) [
    | inl over ↦ rw (more, over) (_, inl refl)
    | inr runs ↦
        let (q, s) = can_print (p.child i) i p (c.made i ∙ more) runs in (q, inr (i, refl, s))
  ]
  | inr last ↦ rw last (_, inl refl)
]
can_go_on (exited code) p v on = cc

-- No state blocks: in every state that an interleaving reaches, with main in one of its loops, main can
-- go on if its call succeeds, or the child that its join waits for can.
pub no_block :
    {p : Process}
    → Reach p
    → is_running p.stage ≡ true
    → (q : Process) × ((parent true p ≡ some q)
        ⊎ ((i : ℕ) × (p.stage ≡ joining i) × (child_step i p ≡ some q)))
unfolding child_step
no_block {p} r on =
    let (q, s) = can_go_on (p.stage) p (Reach-Inv r).at on in
    (q, elim s [ inl a ↦ inl a | inr (i, w, b) ↦ inr (i, w, rw on b) ])
