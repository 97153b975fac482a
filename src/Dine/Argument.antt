-- ===== src/Dine/Argument.antt =====
-- Asgn3/dine.c, `main`: the argument as text. `strtol` is that of the C library, for base 10, a long of 64
-- bits and ASCII; a text is the list of its characters' codes.
use csc.Prelude.{
  ℕ, suc, ◌+◌, ◌-◌, ◌*◌, ◌^◌, ◌<◌, ◌≡◌, ◌≢◌, ◌⊎◌, refl, sym, ap, ◌∙◌, Bool, true, false, ◌&&◌, ◌||◌,
  ltb, leb, ◌==◌, some, List, [], ◌∷◌, ◌++◌, length, All, Bool-cases, inl, inr, arith,
  if◌then◌else◌, append-nil, ◌↔◌,
}
use native.Mathlib.Numerals.{unary_clauses}
use csc.Dine.Main.{Strtol, parse_cycles}

abbrev pub is_space : ℕ → Bool
is_space c = (c == 32) || (leb 9 c && leb c 13)

abbrev pub is_digit : ℕ → Bool
is_digit c = leb 48 c && leb c 57

unfoldable pub skip_spaces : List ℕ → List ℕ
skip_spaces [] = []
skip_spaces (c ∷ cs) = if is_space c then skip_spaces cs else (c ∷ cs)

-- '-' and '+'
unfoldable pub take_sign : List ℕ → Bool × List ℕ
take_sign [] = (false, [])
take_sign (c ∷ cs) =
    if c == 45 then (true, cs) else if c == 43 then (false, cs) else (false, c ∷ cs)

-- The number that the digits in front make, behind `n`, and the rest of the text.
unfoldable pub take_digits : ℕ → List ℕ → ℕ × List ℕ
take_digits n [] = (n, [])
take_digits n (c ∷ cs) = if is_digit c then take_digits (n * 10 + (c - 48)) cs else (n, c ∷ cs)

abbrev pub is_empty : List ℕ → Bool
is_empty [] = true
is_empty (c ∷ cs) = false

abbrev pub starts_with_digit : List ℕ → Bool
starts_with_digit [] = false
starts_with_digit (c ∷ cs) = is_digit c

abbrev pub long_max : ℕ
long_max = 2 ^ 63 - 1

-- Without a digit, no character is read and the value is 0. A number beyond the range is cut to it, and
-- errno is set.
unfoldable pub strtol : List ℕ → Strtol
strtol text =
    let (negative, cs) = take_sign (skip_spaces text) in
    let (n, rest) = take_digits 0 cs in
    let most = if negative then long_max + 1 else long_max in
    if starts_with_digit cs
    then record {
      errno_set = ltb most n;
      at_end = is_empty rest;
      negative = negative;
      size = if ltb most n then most else n;
    }
    else record { errno_set = false; at_end = is_empty text; negative = false; size = 0 }

-- The number that a numeral stands for.
abbrev pub decimal : List ℕ → ℕ
decimal [] = 0
decimal (c ∷ cs) = (c - 48) * 10 ^ length cs + decimal cs

-- A text that is a numeral of `n` with blanks and at most one plus in front.
pub record IsNumeral (text : List ℕ) (n : ℕ) : Type 0 where
  pub blanks : List ℕ
  pub plus : List ℕ
  pub digits : List ℕ
  pub text_is : text ≡ blanks ++ (plus ++ digits)
  pub are_blank : All (λ c. is_space c ≡ true) blanks
  pub one_plus : (plus ≡ []) ⊎ (plus ≡ 43 ∷ [])
  pub some_digit : digits ≢ []
  pub are_digits : All (λ c. is_digit c ≡ true) digits
  pub number : decimal digits ≡ n

-- One more digit behind the number `n`.
shifted : (n d k m : ℕ) → (n * 10 + d) * 10 ^ k + m ≡ n * 10 ^ (suc k) + (d * 10 ^ k + m)
shifted n d k m = rw (pow_suc k) (moved (10 ^ k))
  where
    pow_suc : (k : ℕ) → 10 ^ suc k ≡ 10 ^ k * 10
    pow_suc k = simp unary_clauses refl

    moved : (p : ℕ) → (n * 10 + d) * p + m ≡ n * (p * 10) + (d * p + m)
    moved p = grind arith

skip_spaces_lem :
    (text : List ℕ)
    → (blanks : List ℕ) × (text ≡ blanks ++ skip_spaces text) × All (λ c. is_space c ≡ true) blanks
unfolding skip_spaces
skip_spaces_lem [] = ([], refl, tt)
skip_spaces_lem (c ∷ cs) = elim (Bool-cases (is_space c)) [
  | inl blank ↦
      let (bs, e, all) = skip_spaces_lem cs in (c ∷ bs, rw blank (ap (λ l. c ∷ l) e), (blank, all))
  | inr other ↦ ([], rw other refl, tt)
]

-- The digits in front, as they are read from the left.
take_digits_lem :
    (n : ℕ) (cs : List ℕ)
    → (ds : List ℕ) × (cs ≡ ds ++ (take_digits n cs).1)
      × All (λ c. is_digit c ≡ true) ds
      × ((take_digits n cs).0 ≡ n * 10 ^ length ds + decimal ds)
unfolding take_digits
take_digits_lem n [] = ([], refl, tt, grind arith)
take_digits_lem n (c ∷ cs) = elim (Bool-cases (is_digit c)) [
  | inl digit ↦
      let (ds, e, all, v) = take_digits_lem (n * 10 + (c - 48)) cs in
      (
        c ∷ ds,
        rw digit (ap (λ l. c ∷ l) e),
        (digit, all),
        rw digit (v ∙ shifted n (c - 48) (length ds) (decimal ds)),
      )
  | inr other ↦ ([], rw other refl, tt, rw other (grind arith))
]

skip_blanks :
    (bs cs : List ℕ)
    → All (λ c. is_space c ≡ true) bs
    → skip_spaces cs ≡ cs
    → skip_spaces (bs ++ cs) ≡ cs
unfolding skip_spaces
skip_blanks [] cs all e = e
skip_blanks (b ∷ bs) cs (blank, all) e = rw blank (skip_blanks bs cs all e)

digits_taken :
    (n : ℕ) (ds : List ℕ)
    → All (λ c. is_digit c ≡ true) ds
    → take_digits n ds ≡ (n * 10 ^ length ds + decimal ds, [])
unfolding take_digits
digits_taken n [] all = ap (λ (k : ℕ). (k, [])) (grind arith)
digits_taken n (d ∷ ds) (digit, all) = rw digit (
    digits_taken (n * 10 + (d - 48)) ds all
    ∙ ap (λ (k : ℕ). (k, [])) (shifted n (d - 48) (length ds) (decimal ds)))

take_sign_lem :
    (cs : List ℕ)
    → (take_sign cs).0 ≡ false
    → (plus : List ℕ) × (cs ≡ plus ++ (take_sign cs).1) × ((plus ≡ []) ⊎ (plus ≡ 43 ∷ []))
unfolding take_sign
take_sign_lem [] e = ([], refl, inl refl)
take_sign_lem (c ∷ cs) e = elim (Bool-cases (c == 45)) [
  | inl minus ↦ absurd (let e' = rw minus at e in cc)
  | inr other ↦ elim (Bool-cases (c == 43)) [
    | inl plus ↦
        let at : c ≡ 43 = ground arith in
        (43 ∷ [], rw (other, plus) (ap (λ x. x ∷ cs) at), inr refl)
    | inr none_of_them ↦ ([], rw (other, none_of_them) refl, inl refl)
  ]
]

-- What is tested of the number.
parse_cycles_lem :
    (arg : Strtol) (n : ℕ)
    → (parse_cycles 2 arg ≡ some n) ↔ (
        (arg.errno_set ≡ false)
        × (arg.at_end ≡ true)
        × (arg.negative ≡ false)
        × (arg.size ≡ n)
        × (0 < n)
        × (n < 2 ^ 31))
unfolding parse_cycles
parse_cycles_lem arg n = (λ h. ground arith, λ h. ground arith)

empty_lem : (xs : List ℕ) → is_empty xs ≡ true → xs ≡ []
empty_lem [] e = refl
empty_lem (x ∷ xs) e = cc

-- The number that strtol reads.
abbrev read : Bool → ℕ → List ℕ → Strtol
read negative n rest =
    let most = if negative then long_max + 1 else long_max in
    record {
      errno_set = ltb most n;
      at_end = is_empty rest;
      negative = negative;
      size = if ltb most n then most else n;
    }

strtol-read :
    (text : List ℕ)
    → let (negative, cs) = take_sign (skip_spaces text) in
      starts_with_digit cs ≡ true
      → strtol text ≡ read negative (take_digits 0 cs).0 (take_digits 0 cs).1
unfolding strtol
strtol-read text d = rw d refl

strtol-zero :
    (text : List ℕ)
    → starts_with_digit (take_sign (skip_spaces text)).1 ≡ false
    → (strtol text).size ≡ 0
unfolding strtol
strtol-zero text d = rw d refl

IsNumeral-read : (text : List ℕ) (n : ℕ) → parse_cycles 2 (strtol text) ≡ some n → IsNumeral text n
IsNumeral-read text n e =
    let cs = (take_sign (skip_spaces text)).1 in
    elim (Bool-cases (starts_with_digit cs)) [
      | inr no_digit ↦
          let (a, b, c, size, pos, small) = (parse_cycles_lem (strtol text) n).0 e in
          let zero_size = strtol-zero text no_digit in absurd (omega (arith, size, pos, zero_size))
      | inl digit ↦
          let same = strtol-read text digit in
          let e' = sym (ap (parse_cycles 2) same) ∙ e in
          let (in_range, at_end, positive, size, pos, small) = (parse_cycles_lem _ n).0 e' in
          let (blanks, text_is, are_blank) = skip_spaces_lem text in
          let (plus, sign_is, one_plus) = take_sign_lem (skip_spaces text) positive in
          let (digits, digits_are, are_digits, v) = take_digits_lem 0 cs in
          let whole : cs ≡ digits =
            digits_are
            ∙ ap (λ r. digits ++ r) (empty_lem (take_digits 0 cs).1 at_end)
            ∙ append-nil digits in
          let value : (take_digits 0 cs).0 ≡ n = sym (rw (in_range) refl) ∙ size in
          record {
            blanks = blanks;
            plus = plus;
            digits = digits;
            text_is = text_is ∙ ap (λ r. blanks ++ r) (sign_is ∙ ap (λ r. plus ++ r) whole);
            are_blank = are_blank;
            one_plus = one_plus;
            some_digit = λ none_there. let no = ap starts_with_digit (whole ∙ none_there) in cc;
            are_digits = are_digits;
            number = let w = v in omega (arith, w, value);
          }
    ]

first_digit :
    (plus ds : List ℕ)
    → (plus ≡ []) ⊎ (plus ≡ 43 ∷ [])
    → ds ≢ []
    → All (λ c. is_digit c ≡ true) ds
    → (skip_spaces (plus ++ ds) ≡ plus ++ ds)
      × (take_sign (plus ++ ds) ≡ (false, ds))
      × (starts_with_digit ds ≡ true)
unfolding skip_spaces take_sign
first_digit plus [] one some_digit all = absurd (some_digit refl)
first_digit plus (d ∷ ds) (inl e) some_digit (digit, all) =
    let no_space : is_space d ≡ false = ground arith in
    let no_minus : (d == 45) ≡ false = ground arith in
    let no_plus : (d == 43) ≡ false = ground arith in
    rw e (rw no_space refl, rw (no_minus, no_plus) refl, digit)
first_digit plus (d ∷ ds) (inr e) some_digit (digit, all) = rw e (refl, refl, digit)

numeral_accepted :
    (text : List ℕ) (n : ℕ)
    → IsNumeral text n
    → 0 < n
    → n < 2 ^ 31
    → parse_cycles 2 (strtol text) ≡ some n
numeral_accepted text n num pos small =
    let (skips, signs, digit) =
      first_digit num.plus num.digits num.one_plus num.some_digit num.are_digits in
    let skipped : skip_spaces text ≡ num.plus ++ num.digits =
      ap skip_spaces num.text_is
      ∙ skip_blanks num.blanks (num.plus ++ num.digits) num.are_blank skips in
    let signed : take_sign (skip_spaces text) ≡ (false, num.digits) =
      ap take_sign skipped ∙ signs in
    let read_off = digits_taken 0 num.digits num.are_digits in
    let value : 0 * 10 ^ length num.digits + decimal num.digits ≡ n =
      let v = num.number in omega (arith, v) in
    let same : strtol text ≡ read false n [] =
      strtol-read text (ap (λ (r : Bool × List ℕ). starts_with_digit r.1) signed ∙ digit)
      ∙ ap (λ (r : Bool × List ℕ). read r.0 (take_digits 0 r.1).0 (take_digits 0 r.1).1) signed
      ∙ ap (λ (r : ℕ × List ℕ). read false r.0 r.1) read_off
      ∙ ap (λ (k : ℕ). read false k []) value in
    ap (parse_cycles 2) same
    ∙ (parse_cycles_lem (read false n []) n).1 (ground arith, refl, refl, ground arith, pos, small)

-- With one argument, main takes it as the number of cycles exactly if it is a decimal numeral, with
-- blanks and at most one plus in front and nothing behind, of a number from 1 to INT_MAX, and the number
-- of cycles is that number.
pub parse_cycles-IsNumeral :
    (text : List ℕ) (n : ℕ)
    → (parse_cycles 2 (strtol text) ≡ some n) ↔ (IsNumeral text n × (0 < n) × (n < 2 ^ 31))
parse_cycles-IsNumeral text n = (
  λ e.
      let (a, b, c, size, pos, small) = (parse_cycles_lem (strtol text) n).0 e in
      (IsNumeral-read text n e, pos, small),
  λ (num, pos, small). numeral_accepted text n num pos small,
)
