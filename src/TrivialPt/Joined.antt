-- ===== src/TrivialPt/Joined.antt =====
-- Asgn3/trivial_pt.c: what the steps of main keep.
use csc.Prelude.{
  ℕ, ◌+◌, ◌<◌, ◌≡◌, refl, sym, ap, ◌∙◌, subst, Bool, true, false, ltb, ◌==◌, arith, none, some,
  some_injective, Bool-cases, inl, inr, if◌then◌else◌,
}
use csc.TrivialPt.Threads.{
  num_children, child_exited, Stage, creating, joining, exited, Child, not_created, created,
  greeted, ended, Process, print, set_child, has_ended, parent_at, Step, Reach, of_parent, of_child,
  here, next,
}
use csc.TrivialPt.Lines.{
  has_greeted, has_left, is_created, Counts, At, Inv, start-Inv, left_once, child_step-Inv,
}

-- A step of main.
create-Inv :
    (p : Process) (i : ℕ)
    → i < 4
    → Counts p i 0 0 0
    → Inv p
    → Inv (record (set_child i created p) { stage = creating (i + 1) })
create-Inv p i small c v =
    let fresh : is_created (p.child i) ≡ false = c.made i ∙ (ground arith) in
    record {
      hello = λ j. elim (Bool-cases (j == i)) [
        | inl at ↦
            let same : i ≡ j = ground arith in
            rw at (
              v.hello j ∙ ap (λ k. has_greeted (p.child k)) (sym same) ∙ none_yet (p.child i) fresh)
        | inr off ↦ rw off (v.hello j)
      ];
      goodbye = λ j. elim (Bool-cases (j == i)) [
        | inl at ↦
            let same : i ≡ j = ground arith in
            rw at
              (v.goodbye j ∙ ap (λ k. has_left (p.child k)) (sym same) ∙ not_left (p.child i) fresh)
        | inr off ↦ rw off (v.goodbye j)
      ];
      order = v.order;
      at = (
        omega (arith, small),
        record {
          made = λ j. elim (Bool-cases (j == i)) [
            | inl at ↦ rw at (ground arith)
            | inr off ↦ rw off (let m = c.made j in m ∙ ground arith)
          ];
          over = λ j k. absurd (omega (arith, k));
          joins = c.joins;
          greets = c.greets;
          leaves = c.leaves;
        },
      );
    }
  where
    none_yet : (c : Child) → is_created c ≡ false → has_greeted c ≡ 0
    none_yet not_created e = refl
    none_yet created e = cc
    none_yet greeted e = cc
    none_yet ended e = cc

    not_left : (c : Child) → is_created c ≡ false → has_left c ≡ 0
    not_left not_created e = refl
    not_left created e = cc
    not_left greeted e = cc
    not_left ended e = cc

join-Inv :
    (p : Process) (i : ℕ)
    → i < 4
    → has_ended (p.child i) ≡ true
    → Counts p 4 i 1 0
    → Inv p
    → Inv (record (print (child_exited i) p) { stage = joining (i + 1) })
join-Inv p i small e c v = record {
  hello = v.hello;
  goodbye = v.goodbye;
  order = ((v.goodbye i ∙ left_once (p.child i) e, c.greets), v.order);
  at = (
    omega (arith, small),
    record {
      made = c.made;
      over = λ j k. elim (Bool-cases (j == i)) [
        | inl at ↦ let same : j ≡ i = ground arith in ap (λ k. has_ended (p.child k)) same ∙ e
        | inr off ↦ c.over j (ground arith)
      ];
      joins = λ j. let m = c.joins j in ground arith;
      greets = c.greets;
      leaves = c.leaves;
    },
  );
}

failed-Inv :
    (p : Process) (n m h : ℕ) → Counts p n m h 0 → Inv p → Inv (record p { stage = exited 1 })
failed-Inv p n m h c v = record {
  hello = v.hello;
  goodbye = v.goodbye;
  order = v.order;
  at = (
    n,
    m,
    h,
    record { made = c.made; over = c.over; joins = c.joins; greets = c.greets; leaves = c.leaves },
  );
}

parent_at-Inv :
    (s : Stage) (ok : Bool) (p q : Process) → At s p → parent_at s ok p ≡ some q → Inv p → Inv q
unfolding parent_at
parent_at-Inv (creating i) ok p q (le, c) s v = elim (Bool-cases (ltb i num_children)) [
  | inl more ↦ made ok (ground arith) (rw more at s)
  | inr last ↦
      let all : i ≡ 4 = ground arith in
      subst Inv (some_injective (rw last at s)) (record {
        hello = v.hello;
        goodbye = v.goodbye;
        order = (tt, v.order);
        at = (
          omega arith,
          record {
            made = λ j. c.made j ∙ ap (ltb j) all;
            over = λ j k. absurd (omega (arith, k));
            joins = c.joins;
            greets = let g = c.greets in omega (arith, g);
            leaves = c.leaves;
          },
        );
      })
]
  where
    made :
        (ok : Bool)
        → i < 4
        → (if ok
            then some (record (set_child i created p) { stage = creating (i + 1) })
            else some (record p { stage = exited 1 }))
          ≡ some q
        → Inv q
    made true small s = subst Inv (some_injective s) (create-Inv p i small c v)
    made false small s = subst Inv (some_injective s) (failed-Inv p i 0 0 c v)
parent_at-Inv (joining i) ok p q (le, c) s v = elim (Bool-cases (ltb i num_children)) [
  | inl more ↦ joined ok (ground arith) (rw more at s)
  | inr last ↦
      let all : i ≡ 4 = ground arith in
      subst Inv (some_injective (rw last at s)) (record {
        hello = v.hello;
        goodbye = v.goodbye;
        order = (λ j k. let m = c.joins j in ground arith, v.order);
        at = record {
          made = c.made;
          over = λ j k. c.over j (omega (arith, all, k));
          joins = λ j. c.joins j ∙ ap (λ n. if ltb j n then 1 else 0) all;
          greets = c.greets;
          leaves = let g = c.leaves in omega (arith, g);
        };
      })
]
  where
    joined :
        (ok : Bool)
        → i < 4
        → (if ok
            then if has_ended (p.child i)
              then some (record (print (child_exited i) p) { stage = joining (i + 1) })
              else none
            else some (record p { stage = exited 1 }))
          ≡ some q
        → Inv q
    joined true small s = elim (Bool-cases (has_ended (p.child i))) [
      | inl over ↦ subst Inv (some_injective (rw over at s)) (join-Inv p i small over c v)
      | inr runs ↦ absurd (let blocked : none ≡ some q = rw runs at s in cc)
    ]
    joined false small s = subst Inv (some_injective s) (failed-Inv p 4 i 1 c v)
parent_at-Inv (exited code) ok p q at s v = cc

Step-Inv : {p q : Process} → Step p q → Inv p → Inv q
Step-Inv {p} {q} (of_parent ok s) v = parent_at-Inv (p.stage) ok p q v.at s v
Step-Inv {p} {q} (of_child i s) v = child_step-Inv i p q s v

pub Reach-Inv : {p : Process} → Reach p → Inv p
Reach-Inv here = start-Inv
Reach-Inv (next r s) = Step-Inv s (Reach-Inv r)
