-- ===== src/Debug/Output.antt =====
-- The debug output of Asgn1/malloc.c and Asgn2/lwp.c: a message is formatted into a buffer of 256 bytes,
-- and what the buffer holds of it is written to standard error. A text is the list of its bytes; what
-- `snprintf` makes of a message is an argument, with no text for a failure.
use csc.Prelude.{
  ℕ, zero, suc, ◌-◌, Bool, true, not, ◌||◌, ltb, List, [], ◌∷◌, ◌++◌, length, Option, none, some,
  if◌then◌else◌,
}
use csc.Malloc.Blocks.{BlockHeader, findblock}

-- The first `n` elements.
abbrev pub take {ℓ} : {A : Type ℓ} → ℕ → List A → List A
take zero xs = []
take (suc n) [] = []
take (suc n) (x ∷ xs) = x ∷ take n xs

abbrev pub buf_size : ℕ
buf_size = 256

-- `snprintf` puts the text, cut to the size but for one, and a null character into the buffer.
unfoldable pub snprintf_buf : List ℕ → List ℕ
snprintf_buf text = take (buf_size - 1) text ++ 0 ∷ []

-- The length that `snprintf` returns is cut to that of the text in the buffer, and that much is written.
unfoldable pub write_buf : Option (List ℕ) → List ℕ
unfolding snprintf_buf
write_buf none = []
write_buf (some text) =
    let len = length text in
    let cut = if ltb (buf_size - 1) len then buf_size - 1 else len in take cut (snprintf_buf text)

-- Whether output is suppressed, and standard error.
pub record Output : Type 0 where
  pub suppress_debug : Bool
  pub stderr : List ℕ

-- The messages of `print_debug_msg`, with their arguments.
pub data Message : Type 0 where
  malloc_msg : (size new_ptr result_size : ℕ) → Message
  free_msg : (ptr : ℕ) → Message
  calloc_msg : (nmemb size new_ptr result_size : ℕ) → Message
  realloc_msg : (ptr size new_ptr result_size : ℕ) → Message
  no_msg : Message

-- The `switch`, on MALLOC_ID, FREE_ID, CALLOC_ID and REALLOC_ID.
unfoldable pub message : (id ptr new_ptr nmemb size result_size : ℕ) → Message
message (suc zero) ptr new_ptr nmemb size result_size = malloc_msg size new_ptr result_size
message (suc (suc zero)) ptr new_ptr nmemb size result_size = free_msg ptr
message (suc (suc (suc zero))) ptr new_ptr nmemb size result_size =
    calloc_msg nmemb size new_ptr result_size
message (suc (suc (suc (suc zero)))) ptr new_ptr nmemb size result_size =
    realloc_msg ptr size new_ptr result_size
message other ptr new_ptr nmemb size result_size = no_msg

-- The capacity of the block of the result, or 0.
unfoldable pub result_size : ℕ → List BlockHeader → ℕ
result_size new_ptr blocks = elim (findblock new_ptr blocks) [
  | none ↦ 0
  | some c ↦ c.here.payload_capacity
]

-- The write, and the two assignments of `suppress_debug` around it.
unfoldable pub print_suppressed : Option (List ℕ) → Output → Output
print_suppressed text o =
    let old_suppress = o.suppress_debug in
    let quiet : Output = record o { suppress_debug = true } in
    record quiet { stderr = quiet.stderr ++ write_buf text; suppress_debug = old_suppress }

-- `env` tells whether DEBUG_MALLOC is set; `format` is `snprintf`.
unfoldable pub print_debug_msg :
    (env : Bool) (format : Message → Option (List ℕ)) (id ptr new_ptr nmemb size : ℕ)
    → List BlockHeader
    → Output
    → Output
print_debug_msg env format id ptr new_ptr nmemb size blocks o =
    if o.suppress_debug || not env
    then o
    else print_suppressed (format (message id ptr new_ptr nmemb size (result_size new_ptr blocks)))
        o

unfoldable pub print_custom_debug_msg : Bool → Option (List ℕ) → Output → Output
print_custom_debug_msg env msg o = if o.suppress_debug || not env then o else print_suppressed msg o

-- The function of the same name of Asgn2/lwp.c, on standard error; `lwp_debug` is LWP_DEBUG.
unfoldable pub lwp_print_custom_debug_msg : Bool → Option (List ℕ) → List ℕ → List ℕ
lwp_print_custom_debug_msg lwp_debug msg stderr =
    if lwp_debug then stderr ++ write_buf msg else stderr
