-- ===== src/Pipeit/Processes.antt =====
-- Lab01/pipeit.c: the parent and the children of "ls | sort -r > outfile". A process has a table of file
-- descriptors; what the system answers is an argument. The result of `close` is not read by the code.
use csc.Prelude.{ℕ, Bool, not, ◌==◌, ◌+◌, Option, none, some, if◌then◌else◌}

-- What a descriptor stands for.
pub data File : Type 0 where
  read_end write_end outfile : File
  other_file : ℕ → File

abbrev pub Fds : Type 0
Fds = ℕ → Option File

abbrev pub stdin_fileno : ℕ
stdin_fileno = 0

abbrev pub stdout_fileno : ℕ
stdout_fileno = 1

-- The effects of `close`, and of `pipe`, `dup2` and `open` where they succeed.
unfoldable pub close_fd : ℕ → Fds → Fds
close_fd fd fds k = if k == fd then none else fds k

unfoldable pub dup2 : ℕ → ℕ → Fds → Fds
dup2 old new fds k = if k == new then fds old else fds k

unfoldable pub open_at : ℕ → File → Fds → Fds
open_at fd f fds k = if k == fd then some f else fds k

pub data Program : Type 0 where
  ls sort_r : Program

-- How a process goes on: it executes a program, or exits.
pub data Ending : Type 0 where
  executes : Program → Fds → Ending
  exits : ℕ → Ending

-- `execlp` returns only if it fails.
unfoldable pub execlp : Bool → Program → Fds → Ending
execlp ok p fds = if ok then executes p fds else exits 1

-- The branch `pid_ls == 0`; the arguments tell whether `dup2` and `execlp` succeed.
unfoldable pub ls_child : (pipefd0 pipefd1 : ℕ) (dup2_ok exec_ok : Bool) → Fds → Ending
ls_child pipefd0 pipefd1 dup2_ok exec_ok fds =
    let fds1 = close_fd pipefd0 fds in
    if not dup2_ok
    then exits 1
    else execlp exec_ok ls (close_fd pipefd1 (dup2 pipefd1 stdout_fileno fds1))

-- The branch `pid_sort_r == 0` after its input is redirected; `outfile_fd` is what `open` answers.
unfoldable pub sort_output : (outfile_fd : Option ℕ) (dup2_ok exec_ok : Bool) → Fds → Ending
sort_output none dup2_ok exec_ok fds = exits 1
sort_output (some outfile_fd) dup2_ok exec_ok fds =
    let fds1 = open_at outfile_fd outfile fds in
    if not dup2_ok
    then exits 1
    else execlp exec_ok sort_r (close_fd outfile_fd (dup2 outfile_fd stdout_fileno fds1))

unfoldable pub sort_child :
    (pipefd0 pipefd1 : ℕ) (dup2_in_ok : Bool) (outfile_fd : Option ℕ) (dup2_out_ok exec_ok : Bool)
    → Fds
    → Ending
sort_child pipefd0 pipefd1 dup2_in_ok outfile_fd dup2_out_ok exec_ok fds =
    let fds1 = close_fd pipefd1 fds in
    if not dup2_in_ok
    then exits 1
    else sort_output outfile_fd dup2_out_ok exec_ok
        (close_fd pipefd0 (dup2 pipefd0 stdin_fileno fds1))

-- The status of a child that `wait` answers with.
pub data ChildStatus : Type 0 where
  exited : (status : ℕ) → ChildStatus
  signalled : ChildStatus

-- One of the two waits with its tests; no result where the parent goes on.
unfoldable pub wait_for : Option ChildStatus → Option ℕ
wait_for none = some 1
wait_for (some signalled) = some 1
wait_for (some (exited status)) = if not (status == 0) then some 1 else none

-- The parent up to its first wait, or to its exit: the descriptors that it has, and how many children
-- run.
pub record Parent : Type 0 where
  pub fds : Fds
  pub children : ℕ
  pub code : Option ℕ

-- The parent after the pipe; the arguments tell whether the forks succeed.
unfoldable pub fork_children : (pipefd0 pipefd1 : ℕ) (fork_ls_ok fork_sort_ok : Bool) → Fds → Parent
fork_children pipefd0 pipefd1 fork_ls_ok fork_sort_ok fds =
    let closed = close_fd pipefd1 (close_fd pipefd0 fds) in
    if not fork_ls_ok
    then record { fds = fds; children = 0; code = some 1 }
    else if not fork_sort_ok
    then record { fds = closed; children = 1; code = some 1 }
    else record { fds = closed; children = 2; code = none }

-- `pipe` answers with two descriptors, if it succeeds.
unfoldable pub start_children : Option (ℕ × ℕ) → (fork_ls_ok fork_sort_ok : Bool) → Fds → Parent
start_children none fork_ls_ok fork_sort_ok fds = record { fds = fds; children = 0; code = some 1 }
start_children (some (pipefd0, pipefd1)) fork_ls_ok fork_sort_ok fds =
    fork_children pipefd0 pipefd1 fork_ls_ok fork_sort_ok
      (open_at pipefd1 write_end (open_at pipefd0 read_end fds))

-- The exit status, how many children were started, and how many waits were made.
pub record Outcome : Type 0 where
  pub code : ℕ
  pub children : ℕ
  pub waits : ℕ

abbrev pub exit : (code children waits : ℕ) → Outcome
exit code children waits = record { code = code; children = children; waits = waits }

-- A call of `wait`, which is counted, and what is done with its answer.
abbrev pub wait : Option ChildStatus → (Option ChildStatus → ℕ → Outcome) → ℕ → Outcome
wait answer next waits = next answer (waits + 1)

-- The branch `pid_sort_r < 0`: the parent waits for ls, and exits whatever the answer is.
unfoldable pub wait_for_ls : (first : Option ChildStatus) → ℕ → Outcome
wait_for_ls first waits =
    wait first
      (λ answer waits'. elim answer [ none ↦ exit 1 1 waits' | some status ↦ exit 1 1 waits' ])
      waits

-- Behind a wait of the parent of both: it exits on a failure, or goes on.
abbrev pub check : Option ℕ → (ℕ → Outcome) → ℕ → Outcome
check (some code) next waits = exit code 2 waits
check none next waits = next waits

-- The two waits of the parent, with the answers in the order in which they come.
unfoldable pub wait_for_both : (first second : Option ChildStatus) → ℕ → Outcome
wait_for_both first second = wait first (λ answer.
    check (wait_for answer) (wait second (λ answer'. check (wait_for answer') (exit 0 2))))

-- The answers of `wait` are those that it gives if it is called.
unfoldable pub main :
    Option (ℕ × ℕ) → (fork_ls_ok fork_sort_ok : Bool) (first second : Option ChildStatus) → Outcome
main none fork_ls_ok fork_sort_ok first second = exit 1 0 0
main (some pipefd) fork_ls_ok fork_sort_ok first second =
    if not fork_ls_ok
    then exit 1 0 0
    else if not fork_sort_ok
    then wait_for_ls first 0
    else wait_for_both first second 0
