-- ===== src/Debug/Written.antt =====
-- The debug output of Asgn1/malloc.c: what reaches standard error.
use csc.Prelude.{
  ℕ, zero, suc, min, ◌<◌, ◌≤◌, ◌≡◌, refl, ap, ◌∙◌, Bool, not, ◌||◌, ltb, List, [], ◌∷◌, ◌++◌,
  length, Option, none, some, arith, Bool-cases, inl, inr, if◌then◌else◌,
}
use csc.Malloc.Blocks.{BlockHeader}
use csc.Debug.Output.{
  take, snprintf_buf, write_buf, Output, Message, message, result_size, print_suppressed,
  print_debug_msg,
}

take-append {ℓ} :
    {A : Type ℓ} (n : ℕ) (xs ys : List A) → n ≤ length xs → take n (xs ++ ys) ≡ take n xs
take-append zero xs ys h = refl
take-append (suc n) [] ys h = absurd (omega (arith, h))
take-append (suc n) (x ∷ xs) ys h = ap (λ l. x ∷ l) (take-append n xs ys (omega (arith, h)))

take_all {ℓ} : {A : Type ℓ} (n : ℕ) (xs : List A) → length xs ≤ n → take n xs ≡ xs
take_all zero [] h = refl
take_all zero (x ∷ xs) h = absurd (omega (arith, h))
take_all (suc n) [] h = refl
take_all (suc n) (x ∷ xs) h = ap (λ l. x ∷ l) (take_all n xs (omega (arith, h)))

take_twice {ℓ} : {A : Type ℓ} (n : ℕ) (xs : List A) → take n (take n xs) ≡ take n xs
take_twice zero xs = refl
take_twice (suc n) [] = refl
take_twice (suc n) (x ∷ xs) = ap (λ l. x ∷ l) (take_twice n xs)

length-take {ℓ} : {A : Type ℓ} (n : ℕ) (xs : List A) → length (take n xs) ≡ min n (length xs)
length-take zero xs = omega arith
length-take (suc n) [] = omega arith
length-take (suc n) (x ∷ xs) = let r = length-take n xs in omega (arith, r)

-- What is written of a text is the text, cut to the size `n + 1` of the buffer without its null.
cut_text {ℓ} :
    {A : Type ℓ} (n : ℕ) (text end : List A)
    → take (if ltb n (length text) then n else length text) (take n text ++ end) ≡ take n text
cut_text n text end = elim (Bool-cases (ltb n (length text))) [
  | inl long ↦
      let l = length-take n text in
      let more : n < length text = ground arith in
      rw long (take-append n (take n text) end (omega (arith, l, more)) ∙ take_twice n text)
  | inr short ↦
      let fits : length text ≤ n = ground arith in
      rw (short, take_all n text fits)
        (take-append (length text) text end (omega arith)
          ∙ (take_all (length text) text (omega arith)))
]

write_buf_lem : (text : List ℕ) → write_buf (some text) ≡ take 255 text
unfolding write_buf snprintf_buf
write_buf_lem text = cut_text 255 text (0 ∷ [])

-- What `write_buf` is for: the first 255 bytes of the text, if there is one.
abbrev pub shown : Option (List ℕ) → List ℕ
shown none = []
shown (some text) = take 255 text

pub write_buf-shown : (text : Option (List ℕ)) → write_buf text ≡ shown text
unfolding write_buf
write_buf-shown none = refl
write_buf-shown (some text) = write_buf_lem text

shown-le : (text : Option (List ℕ)) → length (shown text) ≤ 255
shown-le none = omega arith
shown-le (some text) = let l = length-take {A = ℕ} 255 text in omega (arith, l)

-- The debug output of the allocator. While output is suppressed or DEBUG_MALLOC is not set, nothing
-- changes. Otherwise standard error gets the first 255 bytes, at most, of the text for the call, with
-- the capacity of the block of the new pointer in it, and nothing where the text cannot be formatted;
-- never a byte of the buffer behind the text. The suppression is as it was before.
pub print_debug_msg_lem :
    (env : Bool) (format : Message → Option (List ℕ)) (id ptr new_ptr nmemb size : ℕ)
    → (blocks : List BlockHeader) (o : Output)
    → let text = format (message id ptr new_ptr nmemb size (result_size new_ptr blocks)) in
      (print_debug_msg env format id ptr new_ptr nmemb size blocks o
        ≡ (if o.suppress_debug || not env then o else record o { stderr = o.stderr ++ shown text }))
      × (length (shown text) ≤ 255)
unfolding print_debug_msg print_suppressed
print_debug_msg_lem env format id ptr new_ptr nmemb size blocks o =
    let text = format (message id ptr new_ptr nmemb size (result_size new_ptr blocks)) in
    (rw (write_buf-shown text) refl, shown-le text)
