-- ===== src/TrivialPt/Lines.antt =====
-- Asgn3/trivial_pt.c: the lines that main and the children have printed at each place, and what the steps
-- of the children keep.
use csc.Prelude.{
  ℕ, zero, suc, ◌+◌, ◌<◌, ◌≤◌, ◌≡◌, refl, sym, ap, ◌∙◌, subst, Bool, true, false, ltb, ◌==◌, arith,
  none, some, some_injective, List, [], ◌∷◌, Bool-cases, inl, inr, if◌then◌else◌,
}
use csc.TrivialPt.Threads.{
  num_children, Line, child_hello, child_goodbye, child_exited, parent_hello, parent_goodbye, Stage,
  creating, joining, exited, Child, not_created, created, greeted, ended, Process, print, set_child,
  has_ended, child_at, is_running, child_step, start,
}

-- How often a line is among the printed ones.
abbrev pub hellos : ℕ → List Line → ℕ
hellos i [] = 0
hellos i (child_hello j ∷ xs) = if j == i then 1 + hellos i xs else hellos i xs
hellos i (x ∷ xs) = hellos i xs

abbrev pub goodbyes : ℕ → List Line → ℕ
goodbyes i [] = 0
goodbyes i (child_goodbye j ∷ xs) = if j == i then 1 + goodbyes i xs else goodbyes i xs
goodbyes i (x ∷ xs) = goodbyes i xs

abbrev pub exits : ℕ → List Line → ℕ
exits i [] = 0
exits i (child_exited j ∷ xs) = if j == i then 1 + exits i xs else exits i xs
exits i (x ∷ xs) = exits i xs

abbrev pub parent_hellos : List Line → ℕ
parent_hellos [] = 0
parent_hellos (parent_hello ∷ xs) = 1 + parent_hellos xs
parent_hellos (x ∷ xs) = parent_hellos xs

abbrev pub parent_goodbyes : List Line → ℕ
parent_goodbyes [] = 0
parent_goodbyes (parent_goodbye ∷ xs) = 1 + parent_goodbyes xs
parent_goodbyes (x ∷ xs) = parent_goodbyes xs

-- What has been printed once before a line is.
abbrev pub Behind : Line → List Line → Type 0
Behind (child_hello i) xs = Unit {0}
Behind (child_goodbye i) xs = hellos i xs ≡ 1
Behind (child_exited i) xs = (goodbyes i xs ≡ 1) × (parent_hellos xs ≡ 1)
Behind parent_hello xs = Unit {0}
Behind parent_goodbye xs = (i : ℕ) → i < num_children → exits i xs ≡ 1

abbrev pub IsOrdered : List Line → Type 0
IsOrdered [] = Unit {0}
IsOrdered (x ∷ xs) = Behind x xs × IsOrdered xs

abbrev pub has_greeted : Child → ℕ
has_greeted not_created = 0
has_greeted created = 0
has_greeted greeted = 1
has_greeted ended = 1

abbrev pub has_left : Child → ℕ
has_left ended = 1
has_left other = 0

abbrev pub is_created : Child → Bool
is_created not_created = false
is_created other = true

-- The first `n` children are created and no other is; of them, the first `m` have ended and the parent
-- has joined them.
pub record Counts (p : Process) (n m hello bye : ℕ) : Type 0 where
  pub made : (j : ℕ) → is_created (p.child j) ≡ ltb j n
  pub over : (j : ℕ) → j < m → has_ended (p.child j) ≡ true
  pub joins : (j : ℕ) → exits j p.lines ≡ (if ltb j m then 1 else 0)
  pub greets : parent_hellos p.lines ≡ hello
  pub leaves : parent_goodbyes p.lines ≡ bye

abbrev pub At : Stage → Process → Type 0
At (creating i) p = (i ≤ 4) × Counts p i 0 0 0
At (joining i) p = (i ≤ 4) × Counts p 4 i 1 0
At (exited zero) p = Counts p 4 4 1 1
At (exited (suc code)) p = (n m hello : ℕ) × Counts p n m hello 0

pub record Inv (p : Process) : Type 0 where
  pub hello : (j : ℕ) → hellos j p.lines ≡ has_greeted (p.child j)
  pub goodbye : (j : ℕ) → goodbyes j p.lines ≡ has_left (p.child j)
  pub order : IsOrdered p.lines
  pub at : At p.stage p

pub start-Inv : Inv start
start-Inv = record {
  hello = λ j. refl;
  goodbye = λ j. refl;
  order = tt;
  at = (
    omega arith,
    record {
      made = λ j. ground arith;
      over = λ j h. ground arith;
      joins = λ j. ground arith;
      greets = refl;
      leaves = refl;
    },
  );
}

-- A child that has ended has left, and one that can print has been created and has not ended.
pub left_once : (c : Child) → has_ended c ≡ true → has_left c ≡ 1
left_once not_created e = cc
left_once created e = cc
left_once greeted e = cc
left_once ended e = refl

-- A child's print of a line that is its own.
hello-Counts :
    (p : Process) (i n m h b : ℕ)
    → p.child i ≡ created
    → Counts p n m h b
    → Counts (set_child i greeted (print (child_hello i) p)) n m h b
hello-Counts p i n m h b e c = record {
  made = λ j. elim (Bool-cases (j == i)) [
    | inl at ↦
        let same : j ≡ i = ground arith in
        rw at (sym (ap is_created (ap (p.child) same ∙ e)) ∙ c.made j)
    | inr off ↦ rw off (c.made j)
  ];
  over = λ j k. elim (Bool-cases (j == i)) [
    | inl at ↦
        let same : j ≡ i = ground arith in
        let o = sym (ap has_ended (ap (p.child) same ∙ e)) ∙ c.over j k in cc
    | inr off ↦ rw off (c.over j k)
  ];
  joins = c.joins;
  greets = c.greets;
  leaves = c.leaves;
}

goodbye-Counts :
    (p : Process) (i n m h b : ℕ)
    → p.child i ≡ greeted
    → Counts p n m h b
    → Counts (set_child i ended (print (child_goodbye i) p)) n m h b
goodbye-Counts p i n m h b e c = record {
  made = λ j. elim (Bool-cases (j == i)) [
    | inl at ↦
        let same : j ≡ i = ground arith in
        rw at (sym (ap is_created (ap (p.child) same ∙ e)) ∙ c.made j)
    | inr off ↦ rw off (c.made j)
  ];
  over = λ j k. elim (Bool-cases (j == i)) [ inl at ↦ rw at refl | inr off ↦ rw off (c.over j k) ];
  joins = c.joins;
  greets = c.greets;
  leaves = c.leaves;
}

-- A change that keeps the counts keeps what is known at a place.
At-child :
    (s : Stage) (p q : Process)
    → ((n m h b : ℕ) → Counts p n m h b → Counts q n m h b)
    → At s p
    → At s q
At-child (creating i) p q keeps (le, c) = (le, keeps i 0 0 0 c)
At-child (joining i) p q keeps (le, c) = (le, keeps 4 i 1 0 c)
At-child (exited zero) p q keeps c = keeps 4 4 1 1 c
At-child (exited (suc code)) p q keeps (n, m, h, c) = (n, m, h, keeps n m h 0 c)

hello-Inv :
    (p : Process) (i : ℕ)
    → p.child i ≡ created
    → Inv p
    → Inv (set_child i greeted (print (child_hello i) p))
hello-Inv p i e v = record {
  hello = λ j. elim (Bool-cases (j == i)) [
    | inl at ↦
        let same : i ≡ j = ground arith in
        let none_yet = v.hello j ∙ ap has_greeted (ap (p.child) (sym same) ∙ e) in
        let back : (i == j) ≡ true = ground arith in rw (at, back) (omega (arith, none_yet))
    | inr off ↦ let back : (i == j) ≡ false = ground arith in rw (off, back) (v.hello j)
  ];
  goodbye = λ j. elim (Bool-cases (j == i)) [
    | inl at ↦
        let same : i ≡ j = ground arith in
        rw at (v.goodbye j ∙ ap has_left (ap (p.child) (sym same) ∙ e))
    | inr off ↦ rw off (v.goodbye j)
  ];
  order = (tt, v.order);
  at = At-child (p.stage) p _ (λ n m h b. hello-Counts p i n m h b e) v.at;
}

goodbye-Inv :
    (p : Process) (i : ℕ)
    → p.child i ≡ greeted
    → Inv p
    → Inv (set_child i ended (print (child_goodbye i) p))
goodbye-Inv p i e v = record {
  hello = λ j. elim (Bool-cases (j == i)) [
    | inl at ↦
        let same : i ≡ j = ground arith in
        rw at (v.hello j ∙ ap has_greeted (ap (p.child) (sym same) ∙ e))
    | inr off ↦ rw off (v.hello j)
  ];
  goodbye = λ j. elim (Bool-cases (j == i)) [
    | inl at ↦
        let same : i ≡ j = ground arith in
        let none_yet = v.goodbye j ∙ ap has_left (ap (p.child) (sym same) ∙ e) in
        let back : (i == j) ≡ true = ground arith in rw (at, back) (omega (arith, none_yet))
    | inr off ↦ let back : (i == j) ≡ false = ground arith in rw (off, back) (v.goodbye j)
  ];
  order = (v.hello i ∙ ap has_greeted e, v.order);
  at = At-child (p.stage) p _ (λ n m h b. goodbye-Counts p i n m h b e) v.at;
}

child_at-Inv :
    (c : Child) (i : ℕ) (p q : Process) → p.child i ≡ c → child_at c i p ≡ some q → Inv p → Inv q
unfolding child_at
child_at-Inv not_created i p q e s v = cc
child_at-Inv created i p q e s v = subst Inv (some_injective s) (hello-Inv p i e v)
child_at-Inv greeted i p q e s v = subst Inv (some_injective s) (goodbye-Inv p i e v)
child_at-Inv ended i p q e s v = cc

pub child_step-Inv : (i : ℕ) (p q : Process) → child_step i p ≡ some q → Inv p → Inv q
unfolding child_step
child_step-Inv i p q s v = elim (Bool-cases (is_running p.stage)) [
  | inl on ↦ child_at-Inv (p.child i) i p q refl (rw on at s) v
  | inr off ↦ absurd (let gone : none ≡ some q = rw off at s in cc)
]
