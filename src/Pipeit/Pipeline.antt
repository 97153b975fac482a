-- ===== src/Pipeit/Pipeline.antt =====
-- Lab01/pipeit.c: who holds which end of the pipe, and the exit status.
use csc.Prelude.{
  ℕ, zero, suc, ◌+◌, ◌≡◌, ◌≢◌, ◌⊎◌, refl, sym, ap, ◌∙◌, Bool, true, false, Option, none, some,
  arith, inl, inr,
}
use csc.Pipeit.Processes.{
  File, read_end, write_end, outfile, Fds, close_fd, dup2, open_at, ls, sort_r, Ending, executes,
  exits, execlp, ls_child, sort_output, sort_child, ChildStatus, exited, signalled, wait_for,
  wait_for_both, wait_for_ls, check, exit, fork_children, start_children, main, Program,
  stdin_fileno, stdout_fileno,
}

-- No descriptor stands for the file.
abbrev pub Lacks : File → Fds → Type 0
Lacks f fds = (k : ℕ) → fds k ≢ some f

-- A process that is started with its standard descriptors open, and with none for the pipe or the output
-- file.
pub record IsPlain (fds : Fds) : Type 0 where
  pub input : fds stdin_fileno ≢ none
  pub output : fds stdout_fileno ≢ none
  pub no_read : Lacks read_end fds
  pub no_write : Lacks write_end fds
  pub no_outfile : Lacks outfile fds

-- `pipe` answers with two different descriptors that are not in use.
pub record ArePipe (fds : Fds) (pipefd0 pipefd1 : ℕ) : Type 0 where
  pub unused0 : fds pipefd0 ≡ none
  pub unused1 : fds pipefd1 ≡ none
  pub apart : pipefd0 ≢ pipefd1

-- A process that exits with 1, or executes a program with a table as stated.
abbrev pub Ends : (Program → Fds → Type 0) → Ending → Type 0
Ends P (executes p t) = P p t
Ends P (exits code) = code ≡ 1

-- `open` fails, or answers with a descriptor that is not in use.
abbrev pub IsUnused : Fds → Option ℕ → Type 0
IsUnused t none = Unit {0}
IsUnused t (some fd) = t fd ≡ none

-- ls writes to the pipe and has no other descriptor for it.
abbrev pub WritesPipe : Program → Fds → Type 0
WritesPipe p t =
    (p ≡ ls)
    × (t stdout_fileno ≡ some write_end)
    × ((k : ℕ) → t k ≡ some write_end → k ≡ stdout_fileno)
    × Lacks read_end t

-- sort reads from the pipe, has no other descriptor for it, and writes to the output file.
abbrev pub ReadsPipe : Program → Fds → Type 0
ReadsPipe p t =
    (p ≡ sort_r)
    × (t stdin_fileno ≡ some read_end)
    × (t stdout_fileno ≡ some outfile)
    × ((k : ℕ) → t k ≡ some read_end → k ≡ stdin_fileno)
    × Lacks write_end t

-- The table with which both children begin.
abbrev pub piped : ℕ → ℕ → Fds → Fds
piped pipefd0 pipefd1 fds = open_at pipefd1 write_end (open_at pipefd0 read_end fds)

module _ (fds : Fds) (pipefd0 pipefd1 : ℕ) (plain : IsPlain fds)
    (pipe : ArePipe fds pipefd0 pipefd1) where
  not_standard : (pipefd0 ≢ 0) × (pipefd0 ≢ 1) × (pipefd1 ≢ 0) × (pipefd1 ≢ 1)
  not_standard = (
    λ e. plain.input (sym (ap fds e) ∙ pipe.unused0),
    λ e. plain.output (sym (ap fds e) ∙ pipe.unused0),
    λ e. plain.input (sym (ap fds e) ∙ pipe.unused1),
    λ e. plain.output (sym (ap fds e) ∙ pipe.unused1),
  )

  -- What ls is executed with.
  ls_fds :
      (k : ℕ)
      → let t =
          close_fd pipefd1
            (dup2 pipefd1 stdout_fileno (close_fd pipefd0 (piped pipefd0 pipefd1 fds))) in
        (t 1 ≡ some write_end) × (t k ≢ some read_end) × (t k ≡ some write_end → k ≡ 1)
  unfolding close_fd dup2 open_at
  ls_fds k =
      let (a, b, c, d) = not_standard in
      let e = pipe.apart in
      let f = plain.no_read k in
      let g = plain.no_write k in (ground arith, ground arith, ground arith)

  -- What sort is executed with.
  sort_fds :
      (outfile_fd k : ℕ)
      → (let t =
            close_fd pipefd0
              (dup2 pipefd0 stdin_fileno (close_fd pipefd1 (piped pipefd0 pipefd1 fds))) in
          t outfile_fd ≡ none)
      → let t =
          close_fd pipefd0
            (dup2 pipefd0 stdin_fileno (close_fd pipefd1 (piped pipefd0 pipefd1 fds))) in
        let u =
          close_fd outfile_fd (dup2 outfile_fd stdout_fileno (open_at outfile_fd outfile t)) in
        (u 0 ≡ some read_end)
        × (u 1 ≡ some outfile)
        × (u k ≢ some write_end)
        × (u k ≡ some read_end → k ≡ 0)
  unfolding close_fd dup2 open_at
  sort_fds outfile_fd k free =
      let (a, b, c, d) = not_standard in
      let e = pipe.apart in
      let f = plain.no_read k in
      let g = plain.no_write k in
      let h = plain.output in (ground arith, ground arith, ground arith, ground arith)

  -- What the parent has while it waits.
  parent_fds :
      (k : ℕ)
      → let t = close_fd pipefd1 (close_fd pipefd0 (piped pipefd0 pipefd1 fds)) in
        (t k ≢ some read_end) × (t k ≢ some write_end)
  unfolding close_fd open_at
  parent_fds k =
      let e = pipe.apart in
      let f = plain.no_read k in let g = plain.no_write k in (ground arith, ground arith)

  ls_child-Ends :
      (dup2_ok exec_ok : Bool)
      → Ends WritesPipe (ls_child pipefd0 pipefd1 dup2_ok exec_ok (piped pipefd0 pipefd1 fds))
  unfolding ls_child execlp
  ls_child-Ends false exec_ok = refl
  ls_child-Ends true false = refl
  ls_child-Ends true true = (refl, (ls_fds 0).0, λ k. (ls_fds k).2, λ k. (ls_fds k).1)

  sort_child-Ends :
      (dup2_in_ok : Bool) (outfile_fd : Option ℕ) (dup2_out_ok exec_ok : Bool)
      → IsUnused
          (close_fd pipefd0
            (dup2 pipefd0 stdin_fileno (close_fd pipefd1 (piped pipefd0 pipefd1 fds))))
          outfile_fd
      → Ends ReadsPipe (
          sort_child pipefd0 pipefd1 dup2_in_ok outfile_fd dup2_out_ok exec_ok
            (piped pipefd0 pipefd1 fds))
  unfolding sort_child sort_output execlp
  sort_child-Ends false outfile_fd dup2_out_ok exec_ok free = refl
  sort_child-Ends true none dup2_out_ok exec_ok free = refl
  sort_child-Ends true (some fd) false exec_ok free = refl
  sort_child-Ends true (some fd) true false free = refl
  sort_child-Ends true (some fd) true true free = (
    refl,
    (sort_fds fd 0 free).0,
    (sort_fds fd 0 free).1,
    λ k. (sort_fds fd k free).3,
    λ k. (sort_fds fd k free).2,
  )

  -- Suppose that the standard descriptors are open, that pipe answers with two different descriptors
  -- that are not in use, and open with one that is not in use. Then each child exits with 1 or
  -- executes its program: ls with its output to the pipe and no other descriptor for either end, sort
  -- with its input from the pipe, its output to the file and no other descriptor for either end. The
  -- parent holds neither end while it waits for both, so that only ls can keep sort from the end of
  -- its input.
  pub pipeline_connected :
      (dup2_ls_ok exec_ls_ok dup2_in_ok dup2_out_ok exec_sort_ok : Bool) (outfile_fd : Option ℕ)
      → IsUnused
          (close_fd pipefd0
            (dup2 pipefd0 stdin_fileno (close_fd pipefd1 (piped pipefd0 pipefd1 fds))))
          outfile_fd
      → Ends WritesPipe (ls_child pipefd0 pipefd1 dup2_ls_ok exec_ls_ok (piped pipefd0 pipefd1 fds))
        × Ends ReadsPipe (
            sort_child pipefd0 pipefd1 dup2_in_ok outfile_fd dup2_out_ok exec_sort_ok
              (piped pipefd0 pipefd1 fds))
        × (let parent = start_children (some (pipefd0, pipefd1)) true true fds in
            (parent.code ≡ none)
            × (parent.children ≡ 2)
            × Lacks read_end parent.fds
            × Lacks write_end parent.fds)
  unfolding start_children fork_children
  pipeline_connected a b d e f outfile_fd free = (
    ls_child-Ends a b,
    sort_child-Ends d outfile_fd e f free,
    (refl, refl, λ k. (parent_fds k).0, λ k. (parent_fds k).1),
  )

-- The parent succeeded.
abbrev pub AllWell : Option (ℕ × ℕ) → Bool → Bool → Option ChildStatus → Option ChildStatus → Type 0
AllWell pipe fork_ls_ok fork_sort_ok first second =
    (pipe ≢ none)
    × (fork_ls_ok ≡ true)
    × (fork_sort_ok ≡ true)
    × (first ≡ some (exited 0))
    × (second ≡ some (exited 0))

wait_for_lem :
    (answer : Option ChildStatus)
    → ((answer ≡ some (exited 0)) × (wait_for answer ≡ none))
      ⊎ ((answer ≢ some (exited 0)) × (wait_for answer ≡ some 1))
unfolding wait_for
wait_for_lem none = inr (λ e. cc, refl)
wait_for_lem (some signalled) = inr (λ e. cc, refl)
wait_for_lem (some (exited zero)) = inl (refl, refl)
wait_for_lem (some (exited (suc n))) = inr (λ e. ground arith, ground arith)

-- What the parent of both makes of what its waits tell.
both_lem :
    (first second : Option ChildStatus) (a b : Option ℕ)
    → wait_for first ≡ a
    → wait_for second ≡ b
    → wait_for_both first second 0 ≡ check a (λ waits. check b (exit 0 2) (waits + 1)) 1
unfolding wait_for_both
both_lem first second a b e f =
    ap (λ x. check x (λ waits. check (wait_for second) (exit 0 2) (waits + 1)) 1) e
    ∙ ap (λ y. check a (λ waits. check y (exit 0 2) (waits + 1)) 1) f

ls_is_waited_for : (first : Option ChildStatus) → wait_for_ls first 0 ≡ exit 1 1 1
unfolding wait_for_ls
ls_is_waited_for none = refl
ls_is_waited_for (some status) = refl

-- The parent exits with 0 exactly if the pipe and both forks succeed and both children exit with 0, and
-- with 1 otherwise. It calls wait as often as it has started children, also where the second fork
-- fails, but for one case: when both run and the wait that comes first fails or shows a failure, it
-- exits and leaves the other child.
pub main_lem :
    (pipe : Option (ℕ × ℕ)) (fork_ls_ok fork_sort_ok : Bool) (first second : Option ChildStatus)
    → let m = main pipe fork_ls_ok fork_sort_ok first second in
      (((m.code ≡ 0) × AllWell pipe fork_ls_ok fork_sort_ok first second × (m.waits ≡ m.children))
        ⊎ ((m.code ≡ 1)
            × ¬ AllWell pipe fork_ls_ok fork_sort_ok first second
            × ((m.waits ≡ m.children)
                ⊎ ((m.waits ≡ 1)
                    × (m.children ≡ 2)
                    × (fork_ls_ok ≡ true)
                    × (fork_sort_ok ≡ true)
                    × (first ≢ some (exited 0))))))
unfolding main
main_lem none a b first second = inr (refl, λ w. w.0 refl, inl refl)
main_lem (some p) false b first second = inr (refl, λ w. (let e = w.1 in cc), inl refl)
main_lem (some p) true false first second =
    rw (ls_is_waited_for first) (inr (refl, λ w. (let e = w.2 in cc), inl refl))
main_lem (some p) true true first second = elim (wait_for_lem first) [
  | inr (bad, w) ↦
      rw (both_lem first second (some 1) _ w refl)
        (inr (refl, λ all. bad all.3, inr (refl, refl, refl, refl, bad)))
  | inl (good, w) ↦ elim (wait_for_lem second) [
    | inr (bad, w') ↦
        rw (both_lem first second none (some 1) w w') (inr (refl, λ all. bad all.4, inl refl))
    | inl (good', w') ↦
        rw (both_lem first second none none w w')
          (inl (refl, (λ e. cc, refl, refl, good, good'), refl))
  ]
]
