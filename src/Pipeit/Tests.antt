-- ===== src/Pipeit/Tests.antt =====
-- Lab01/pipeit.c: the theorems for a process with the descriptors 0 to 2 open, which gets the pipe 3 and 4.
use csc.Prelude.{◌≡◌, ◌≢◌, ◌⊎◌, refl, true, none, some, ltb, arith, if◌then◌else◌}
use csc.Pipeit.Processes.{
  Fds, other_file, read_end, write_end, close_fd, dup2, open_at, ls_child, sort_child, exited,
  start_children, main,
}
use csc.Pipeit.Pipeline.{
  IsPlain, Ends, WritesPipe, ReadsPipe, Lacks, AllWell, piped, pipeline_connected, main_lem,
}

abbrev standard : Fds
standard k = if ltb k 3 then some (other_file k) else none

standard-IsPlain : IsPlain standard
standard-IsPlain = record {
  input = cc;
  output = cc;
  no_read = λ k e. ground arith;
  no_write = λ k e. ground arith;
  no_outfile = λ k e. ground arith;
}

pipeline_connected_example :
    Ends WritesPipe (ls_child 3 4 true true (piped 3 4 standard))
    × Ends ReadsPipe (sort_child 3 4 true (some 3) true true (piped 3 4 standard))
    × (let parent = start_children (some (3, 4)) true true standard in
        (parent.code ≡ none)
        × (parent.children ≡ 2)
        × Lacks read_end parent.fds
        × Lacks write_end parent.fds)
unfolding close_fd dup2 open_at
pipeline_connected_example =
    pipeline_connected standard 3 4 standard-IsPlain
      (record { unused0 = refl; unused1 = refl; apart = omega arith }) true true true true true
      (some 3) refl

main_lem_example :
    let m = main (some (3, 4)) true true (some (exited 2)) (some (exited 0)) in
    (((m.code ≡ 0)
        × AllWell (some (3, 4)) true true (some (exited 2)) (some (exited 0))
        × (m.waits ≡ m.children))
      ⊎ ((m.code ≡ 1)
          × ¬ AllWell (some (3, 4)) true true (some (exited 2)) (some (exited 0))
          × ((m.waits ≡ m.children)
              ⊎ ((m.waits ≡ 1)
                  × (m.children ≡ 2)
                  × (true ≡ true)
                  × (true ≡ true)
                  × (some (exited 2) ≢ some (exited 0))))))
main_lem_example = main_lem (some (3, 4)) true true (some (exited 2)) (some (exited 0))
