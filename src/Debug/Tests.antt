-- ===== src/Debug/Tests.antt =====
-- The debug output of Asgn1/malloc.c at a call of malloc.
use csc.Prelude.{ℕ, ◌+◌, ◌≡◌, refl, true, false, List, [], ◌∷◌, Option, none, some}
use Prim.Native.String.{String}
use csc.Malloc.Calls.{Sbrk, Heap, malloc, free, calloc, realloc}
use csc.Malloc.Blocks.{BlockHeader, block, findblock}
use csc.Debug.Output.{
  snprintf_buf, write_buf, Output, Message, malloc_msg, free_msg, calloc_msg, realloc_msg, no_msg,
  message, result_size, print_debug_msg, print_suppressed,
}
use csc.Debug.Events.{
  debug, address, malloc_id, free_id, calloc_id, realloc_id, malloc_events, free_events,
  calloc_events,
}
use csc.Debug.ReallocEvents.{realloc_events}
use csc.Debug.CallReports.{IsReported, call_reports}

-- A formatting that shows the sizes only.
abbrev format : Message → Option (List ℕ)
format (malloc_msg size new_ptr result) = some (size ∷ result ∷ [])
format (free_msg ptr) = some []
format (calloc_msg nmemb size new_ptr result) = some (size ∷ result ∷ [])
format (realloc_msg ptr size new_ptr result) = some (size ∷ result ∷ [])
format no_msg = none

abbrev one_block : List BlockHeader
one_block = block 4096 112 false ∷ []

abbrev silent : Output
silent = record { suppress_debug = false; stderr = [] }

malloc_shows : (print_debug_msg true format 1 0 4128 0 100 one_block silent).stderr ≡ 100 ∷ 112 ∷ []
unfolding print_debug_msg print_suppressed write_buf snprintf_buf message result_size findblock
malloc_shows = refl

-- Each custom message is one mark.
abbrev mark : String → Option (List ℕ)
mark s = some (0 ∷ [])

-- A system that gives memory from the break on.
abbrev more_memory : Sbrk
more_memory brk n = some (brk, brk + n)

abbrev heap : Heap
heap = record { blocks = one_block; brk = 4240; bytes = λ a. 0; enomem = false }

call_reports_example :
    IsReported format mark [] (malloc_events more_memory 100 heap) (
      debug malloc_id 0
        (address (malloc more_memory 100 heap).0)
        0
        100
        (malloc more_memory 100 heap).1.blocks)
    × IsReported format mark []
        (free_events (some 4128) heap)
        (debug free_id 4128 0 0 0 (free (some 4128) heap).blocks)
    × IsReported format mark [] (calloc_events more_memory 5 100 heap) (
        debug calloc_id 0
          (address (calloc more_memory 5 100 heap).0)
          5
          100
          (calloc more_memory 5 100 heap).1.blocks)
    × IsReported format mark [] (realloc_events more_memory (some 4128) 100 heap) (
        debug realloc_id 4128
          (address (realloc more_memory (some 4128) 100 heap).0)
          0
          100
          (realloc more_memory (some 4128) 100 heap).1.blocks)
call_reports_example = call_reports format mark more_memory [] 5 100 (some 4128) heap
