-- ===== src/Dine/Printing.antt =====
-- Asgn3/dine.c and Asgn3/dine.h: the table of the philosophers' states. A text is the list of its
-- characters' codes.
use csc.Prelude.{ℕ, zero, suc, ◌+◌, ◌-◌, ◌/◌, ◌%◌, Bool, List, [], ◌∷◌, ◌++◌, if◌then◌else◌}

-- CHANGING, EATING and THINKING
pub data PhilState : Type 0 where
  changing eating thinking : PhilState

-- '!' and '~'
abbrev pub first_printable : ℕ
first_printable = 33

abbrev pub last_printable : ℕ
last_printable = 126

abbrev pub printable_count : ℕ
printable_count = last_printable - first_printable + 1

-- 'A' and '0'
abbrev pub first_phil_label : ℕ
first_phil_label = 65

abbrev pub first_fork_label : ℕ
first_fork_label = 48

-- " Think ", " Eat   " and seven spaces
abbrev pub think_str : List ℕ
think_str = 32 ∷ 84 ∷ 104 ∷ 105 ∷ 110 ∷ 107 ∷ 32 ∷ []

abbrev pub eat_str : List ℕ
eat_str = 32 ∷ 69 ∷ 97 ∷ 116 ∷ 32 ∷ 32 ∷ 32 ∷ []

abbrev pub change_str : List ℕ
change_str = 32 ∷ 32 ∷ 32 ∷ 32 ∷ 32 ∷ 32 ∷ 32 ∷ []

-- "| ", "|" and a line feed
abbrev pub column_prefix_str : List ℕ
column_prefix_str = 124 ∷ 32 ∷ []

abbrev pub column_border_str : List ℕ
column_border_str = 124 ∷ []

abbrev pub line_feed : List ℕ
line_feed = 10 ∷ []

-- `start` is a printable character.
unfoldable pub wrapped_label : ℕ → ℕ → ℕ
wrapped_label start index = first_printable + (start - first_printable + index) % printable_count

-- An array filled with one character, and a write of one place of an array.
unfoldable pub fill : ℕ → ℕ → List ℕ
fill zero c = []
fill (suc n) c = c ∷ fill n c

unfoldable pub write_char : ℕ → ℕ → List ℕ → List ℕ
write_char j c [] = []
write_char zero c (x ∷ xs) = c ∷ xs
write_char (suc j) c (x ∷ xs) = x ∷ write_char j c xs

-- What a row shows of one philosopher.
pub record View : Type 0 where
  pub left_fork_index : ℕ
  pub right_fork_index : ℕ
  pub holding_left : Bool
  pub holding_right : Bool
  pub state : PhilState

-- The array `forks_held` before its null character
unfoldable pub forks_held : ℕ → View → List ℕ
forks_held n v =
    let blank = fill n 45 in
    let with_left =
      if v.holding_left
      then write_char v.left_fork_index (wrapped_label first_fork_label v.left_fork_index) blank
      else blank in
    if v.holding_right
    then write_char v.right_fork_index (wrapped_label first_fork_label v.right_fork_index) with_left
    else with_left

unfoldable pub state_str : PhilState → List ℕ
state_str eating = eat_str
state_str thinking = think_str
state_str changing = change_str

-- The columns of the first `k` of `n` philosophers.
unfoldable pub columns : ℕ → (ℕ → View) → ℕ → List ℕ
columns n views zero = []
columns n views (suc k) =
    columns n views k
    ++ (column_prefix_str ++ (forks_held n (views k) ++ state_str (views k).state))

unfoldable pub print_status_change : ℕ → (ℕ → View) → List ℕ
print_status_change n views = columns n views n ++ (column_border_str ++ line_feed)

-- `header_border_len`, and `label_len` in the header: leading space, forks, state, null character
abbrev pub header_border_len : ℕ → ℕ
header_border_len n = 1 + n + 7 + 1

unfoldable pub build_table_border : ℕ → List ℕ
build_table_border len = fill (len - 1) 61

unfoldable pub border_columns : List ℕ → ℕ → List ℕ
border_columns header_border zero = []
border_columns header_border (suc k) =
    border_columns header_border k ++ (column_border_str ++ header_border)

unfoldable pub print_table_border : ℕ → List ℕ → List ℕ
print_table_border n header_border =
    border_columns header_border n ++ (column_border_str ++ line_feed)

-- The label of the `i`th philosopher in the middle of a blank column.
unfoldable pub phil_label : ℕ → ℕ → List ℕ
phil_label n i =
    write_char (header_border_len n / 2 - 1) (wrapped_label first_phil_label i)
      (fill (header_border_len n - 1) 32)

unfoldable pub label_columns : ℕ → ℕ → List ℕ
label_columns n zero = []
label_columns n (suc k) = label_columns n k ++ (column_border_str ++ phil_label n k)

unfoldable pub print_phil_labels : ℕ → List ℕ
print_phil_labels n = label_columns n n ++ (column_border_str ++ line_feed)

unfoldable pub print_table_header : ℕ → List ℕ → List ℕ
print_table_header n header_border =
    print_table_border n header_border ++ print_phil_labels n ++ print_table_border n header_border
