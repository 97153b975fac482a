-- ===== src/Debug/CallReports.antt =====
-- Asgn1/malloc.c: what reaches standard error by a call of malloc, free, calloc or realloc.
use Prim.Native.String.{String}
use csc.Prelude.{
  ℕ, ◌≡◌, refl, ap, sym, ◌∙◌, Bool, true, false, Option, List, [], ◌∷◌, ◌++◌, append_assoc,
  append-nil,
}
use csc.Malloc.Calls.{Sbrk, Heap, malloc, free, calloc, realloc}
use csc.Debug.Output.{
  Output, Message, message, result_size, print_suppressed, print_debug_msg, print_custom_debug_msg,
}
use csc.Debug.Written.{shown, write_buf-shown}
use csc.Debug.Events.{
  Event, custom, debug, suppress, execute, address, malloc_id, free_id, calloc_id, realloc_id,
  malloc_events, free_events, calloc_events,
}
use csc.Debug.ReallocEvents.{realloc_events}
use csc.Debug.Reported.{heard, ends, reports, transcript, malloc-Reports, free-Reports}
use csc.Debug.Once.{ReportsOnce, calloc-once, realloc-once}

abbrev pub output : Bool → List ℕ → Output
output q bytes = record { suppress_debug = q; stderr = bytes }

execute_lem :
    (format : Message → Option (List ℕ)) (text : String → Option (List ℕ))
    → (es : List Event) (q : Bool) (bytes : List ℕ)
    → execute true format text es (output q bytes)
      ≡ output (ends q es) (bytes ++ transcript format text (heard q es))
unfolding execute print_debug_msg print_custom_debug_msg print_suppressed
execute_lem format text [] q bytes = ap (output q) (sym (append-nil bytes))
execute_lem format text (custom s ∷ es) true bytes = execute_lem format text es true bytes
execute_lem format text (custom s ∷ es) false bytes = rw (write_buf-shown (text s)) (
    execute_lem format text es false (bytes ++ shown (text s))
    ∙ ap (output (ends false es)) (append_assoc bytes (shown (text s)) _))
execute_lem format text (debug id p r m n bs ∷ es) true bytes =
    execute_lem format text es true bytes
execute_lem format text (debug id p r m n bs ∷ es) false bytes =
    let line = format (message id p r m n (result_size r bs)) in
    rw (write_buf-shown line) (
      execute_lem format text es false (bytes ++ shown line)
      ∙ ap (output (ends false es)) (append_assoc bytes (shown line) _))
execute_lem format text (suppress b ∷ es) q bytes = execute_lem format text es b bytes

execute_unset :
    (format : Message → Option (List ℕ)) (text : String → Option (List ℕ))
    → (es : List Event) (q : Bool) (bytes : List ℕ)
    → execute false format text es (output q bytes) ≡ output (ends q es) bytes
unfolding execute print_debug_msg print_custom_debug_msg
execute_unset format text [] q bytes = refl
execute_unset format text (custom s ∷ es) true bytes = execute_unset format text es true bytes
execute_unset format text (custom s ∷ es) false bytes = execute_unset format text es false bytes
execute_unset format text (debug id p r m n bs ∷ es) true bytes =
    execute_unset format text es true bytes
execute_unset format text (debug id p r m n bs ∷ es) false bytes =
    execute_unset format text es false bytes
execute_unset format text (suppress b ∷ es) q bytes = execute_unset format text es b bytes

module _ (format : Message → Option (List ℕ)) (text : String → Option (List ℕ)) where
  -- Behind `bytes`, standard error gets the lines of messages of which just one is a report, and that is
  -- `e`; without DEBUG_MALLOC it gets nothing. Output is not suppressed behind.
  pub record IsReported (bytes : List ℕ) (es : List Event) (e : Event) : Type 0 where
    pub written :
        execute true format text es (output false bytes)
        ≡ output false (bytes ++ transcript format text (heard false es))
    pub one_report : reports (heard false es) ≡ e ∷ []
    pub unset : execute false format text es (output false bytes) ≡ output false bytes

  is_reported :
      (bytes : List ℕ) (es : List Event) (e : Event) → ReportsOnce es e → IsReported bytes es e
  is_reported bytes es e o = record {
    written =
        execute_lem format text es false bytes
        ∙ ap (λ q. output q (bytes ++ transcript format text (heard false es))) o.1;
    one_report = o.0;
    unset = execute_unset format text es false bytes ∙ ap (λ q. output q bytes) o.1;
  }

  -- Suppose that output is not suppressed. Then a call of malloc, free, calloc or realloc, on each of
  -- their branches, over any heap and any `sbrk`, and also where they call each other, writes just one
  -- report among its messages if DEBUG_MALLOC is set, and nothing if it is not: the report of the call
  -- that was made, with its arguments, the pointer that it returns and the blocks that it leaves.
  -- Behind the call output is not suppressed.
  pub call_reports :
      (sbrk : Sbrk) (bytes : List ℕ) (nmemb size : ℕ) (ptr : Option ℕ) (h : Heap)
      → IsReported bytes
          (malloc_events sbrk size h)
          (debug malloc_id 0 (address (malloc sbrk size h).0) 0 size (malloc sbrk size h).1.blocks)
        × IsReported bytes
            (free_events ptr h)
            (debug free_id (address ptr) 0 0 0 (free ptr h).blocks)
        × IsReported bytes (calloc_events sbrk nmemb size h) (
            debug calloc_id 0
              (address (calloc sbrk nmemb size h).0)
              nmemb
              size
              (calloc sbrk nmemb size h).1.blocks)
        × IsReported bytes (realloc_events sbrk ptr size h) (
            debug realloc_id
              (address ptr)
              (address (realloc sbrk ptr size h).0)
              0
              size
              (realloc sbrk ptr size h).1.blocks)
  call_reports sbrk bytes nmemb size ptr h =
      let m = malloc-Reports sbrk size h in
      let f = free-Reports ptr h in
      (
        is_reported bytes _ _ (m.0, m.1),
        is_reported bytes _ _ (f.0, f.1),
        is_reported bytes _ _ (calloc-once sbrk nmemb size h),
        is_reported bytes _ _ (realloc-once sbrk ptr size h),
      )
