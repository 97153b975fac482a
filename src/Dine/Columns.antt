-- ===== src/Dine/Columns.antt =====
-- Asgn3/dine.c: the labels, and the widths of the rows of the table.
use csc.Prelude.{
  ℕ, zero, suc, ◌+◌, ◌-◌, ◌*◌, ◌<◌, ◌≤◌, ◌≡◌, ◌≢◌, refl, ap, ◌∙◌, List, [], ◌∷◌, ◌++◌, length,
  length-append, arith, Bool-cases, inl, inr,
}
use csc.Dine.Printing.{
  PhilState, changing, eating, thinking, View, wrapped_label, first_printable, last_printable, fill,
  write_char, forks_held, state_str, columns, print_status_change, header_border_len,
  build_table_border, border_columns, print_table_border, phil_label, label_columns,
  print_phil_labels, column_border_str, column_prefix_str, line_feed,
}

-- A label is printable, whatever the index, when its start is not below the first printable
-- character, and two labels from that start differ when their indices are different and less
-- than 94 apart.
pub wrapped_label_lem :
    (start i j : ℕ)
    → first_printable ≤ start
    → (first_printable ≤ wrapped_label start i)
      × (wrapped_label start i ≤ last_printable)
      × (i < j → j < i + 94 → wrapped_label start i ≢ wrapped_label start j)
unfolding wrapped_label
wrapped_label_lem start i j h = (omega arith, omega arith, λ a b. omega (arith, a, b))

length-fill : (n c : ℕ) → length (fill n c) ≡ n
unfolding fill
length-fill zero c = refl
length-fill (suc n) c = ap suc (length-fill n c)

length-write_char : (j c : ℕ) (xs : List ℕ) → length (write_char j c xs) ≡ length xs
unfolding write_char
length-write_char j c [] = refl
length-write_char zero c (x ∷ xs) = refl
length-write_char (suc j) c (x ∷ xs) = ap suc (length-write_char j c xs)

length-forks_held : (n : ℕ) (v : View) → length (forks_held n v) ≡ n
unfolding forks_held
length-forks_held n v = elim (Bool-cases v.holding_left) [
  | inl l ↦ elim (Bool-cases v.holding_right) [
    | inl r ↦ rw (l, r) (length-write_char _ _ _ ∙ length-write_char _ _ _ ∙ length-fill n 45)
    | inr r ↦ rw (l, r) (length-write_char _ _ _ ∙ length-fill n 45)
  ]
  | inr l ↦ elim (Bool-cases v.holding_right) [
    | inl r ↦ rw (l, r) (length-write_char _ _ _ ∙ length-fill n 45)
    | inr r ↦ rw (l, r) (length-fill n 45)
  ]
]

length-state_str : (s : PhilState) → length (state_str s) ≡ 7
unfolding state_str
length-state_str changing = refl
length-state_str eating = refl
length-state_str thinking = refl

length-columns : (n : ℕ) (views : ℕ → View) (k : ℕ) → length (columns n views k) ≡ k * (n + 9)
unfolding columns
length-columns n views zero = ground arith
length-columns n views (suc k) =
    let a =
      length-append {0} (columns n views k)
        (column_prefix_str ++ (forks_held n (views k) ++ state_str (views k).state)) in
    let b = length-append {0} (forks_held n (views k)) (state_str (views k).state) in
    let c = length-forks_held n (views k) in
    let d = length-state_str (views k).state in let e = length-columns n views k in ground arith

length-border_columns :
    (n k : ℕ) → length (border_columns (build_table_border (header_border_len n)) k) ≡ k * (n + 9)
unfolding border_columns build_table_border
length-border_columns n zero = ground arith
length-border_columns n (suc k) =
    let border = build_table_border (header_border_len n) in
    let a = length-append {0} (border_columns border k) (column_border_str ++ border) in
    let b = length-fill (header_border_len n - 1) 61 in
    let e = length-border_columns n k in ground arith

length-label_columns : (n k : ℕ) → length (label_columns n k) ≡ k * (n + 9)
unfolding label_columns phil_label
length-label_columns n zero = ground arith
length-label_columns n (suc k) =
    let a = length-append {0} (label_columns n k) (column_border_str ++ phil_label n k) in
    let b : length (phil_label n k) ≡ header_border_len n - 1 =
      length-write_char _ _ _ ∙ length-fill (header_border_len n - 1) 32 in
    let e = length-label_columns n k in ground arith

-- Every row of the table, for any number of philosophers and whatever they do, has the same number of
-- characters as the row of labels and as the border.
pub rows_align :
    (n : ℕ) (views : ℕ → View)
    → let border = print_table_border n (build_table_border (header_border_len n)) in
      (length (print_status_change n views) ≡ length border)
      × (length (print_phil_labels n) ≡ length border)
unfolding print_status_change print_table_border print_phil_labels
rows_align n views =
    let end = column_border_str ++ line_feed in
    let border = border_columns (build_table_border (header_border_len n)) n in
    let a = length-append {0} (columns n views n) end in
    let b = length-append {0} border end in
    let c = length-append {0} (label_columns n n) end in
    let d = length-columns n views n in
    let e = length-border_columns n n in
    let f = length-label_columns n n in (ground arith, ground arith)
