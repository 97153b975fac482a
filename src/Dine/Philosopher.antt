-- ===== src/Dine/Philosopher.antt =====
-- Asgn3/dine.c, `philosopher` and the set-up in `main`: the threads, one statement at a time. The table
-- has `n` philosophers; the index of a philosopher is its id.
use csc.Prelude.{
  ℕ, ◌+◌, ◌-◌, ◌%◌, ◌<◌, ◌≡◌, Bool, true, false, ◌==◌, ltb, Option, none, some, List, [], ◌∷◌,
  if◌then◌else◌,
}
use csc.Dine.Printing.{PhilState, changing, eating, thinking, View, print_status_change}

pub data Side : Type 0 where
  left right : Side

-- A philosopher takes two forks, one after the other.
pub data Turn : Type 0 where
  first_fork second_fork : Turn

-- The sections of `philosopher` under the printing lock, by what they write.
pub data Section : Type 0 where
  hungry : Section
  took : Turn → Section
  eat : Section
  finish : Section
  drop : Side → Section
  think : Section
  leave : Section

pub data Rest : Type 0 where
  after_eat after_finish after_think : Rest

-- The next statement of a philosopher: the test of the loop, `sem_wait` on a fork, the statements of a
-- section, `sem_post` on a fork inside the section, `dawdle`, the decrement of `cycles_left`, or none.
pub data Pc : Type 0 where
  loop : Pc
  grab : Turn → Pc
  lock : Section → Pc
  write : Section → Pc
  put_down : Side → Pc
  print : Section → Pc
  unlock : Section → Pc
  dawdle : Rest → Pc
  count : Pc
  returned : Pc

-- `failed` says that the thread has ended by `pthread_exit (THREAD_FAILURE)`.
pub record PhilInfo : Type 0 where
  pub cycles_left : ℕ
  pub state : PhilState
  pub holding_left : Bool
  pub holding_right : Bool
  pub pc : Pc
  pub failed : Bool

pub record Table : Type 0 where
  pub forks : ℕ → ℕ
  pub printing_lock : ℕ
  pub phils : ℕ → PhilInfo
  pub printed : List (List ℕ)

abbrev pub left_fork_index : ℕ → ℕ → ℕ
left_fork_index n i = i

abbrev pub right_fork_index : ℕ → ℕ → ℕ
right_fork_index n i = (i + 1) % n

unfoldable pub fork_index : ℕ → ℕ → Side → ℕ
fork_index n i left = left_fork_index n i
fork_index n i right = right_fork_index n i

-- An even philosopher takes its right fork first, an odd one its left.
unfoldable pub side : Bool → Turn → Side
side true first_fork = right
side true second_fork = left
side false first_fork = left
side false second_fork = right

abbrev pub is_even : ℕ → Bool
is_even i = i % 2 == 0

abbrev pub is_changing : PhilState → Bool
is_changing changing = true
is_changing eating = false
is_changing thinking = false

abbrev pub hold : Side → Bool → PhilInfo → PhilInfo
hold left b p = record p { holding_left = b }
hold right b p = record p { holding_right = b }

-- What a section writes.
unfoldable pub assign : Bool → Section → PhilInfo → PhilInfo
assign even hungry p = record p { state = changing }
assign even (took t) p = hold (side even t) true p
assign even eat p = record p { state = eating }
assign even finish p = record p { state = changing }
assign even (drop s) p = hold s false p
assign even think p = record p { state = thinking }
assign even leave p = record p { state = changing }

-- After the write comes the print, in the two sections that put a fork down the `sem_post` first.
unfoldable pub after_write : Section → Pc
after_write (drop s) = put_down s
after_write hungry = print hungry
after_write (took t) = print (took t)
after_write eat = print eat
after_write finish = print finish
after_write think = print think
after_write leave = print leave

unfoldable pub after_section : Section → Pc
after_section hungry = grab first_fork
after_section (took first_fork) = grab second_fork
after_section (took second_fork) = lock eat
after_section eat = dawdle after_eat
after_section finish = dawdle after_finish
after_section (drop right) = lock (drop left)
after_section (drop left) = lock think
after_section think = dawdle after_think
after_section leave = returned

unfoldable pub after_rest : Rest → Pc
after_rest after_eat = lock finish
after_rest after_finish = lock (drop right)
after_rest after_think = count

-- The test of the loop, and the test for CHANGING at its start.
unfoldable pub loop_test : PhilInfo → Pc
loop_test p =
    if ltb 0 p.cycles_left
    then if is_changing p.state then grab first_fork else lock hungry
    else lock leave

abbrev pub view : ℕ → (ℕ → PhilInfo) → ℕ → View
view n phils i = record {
  left_fork_index = left_fork_index n i;
  right_fork_index = right_fork_index n i;
  holding_left = (phils i).holding_left;
  holding_right = (phils i).holding_right;
  state = (phils i).state;
}

-- Philosopher `i` is now `p`, and fork `k` has the value `v`.
abbrev pub put_phil : ℕ → PhilInfo → (ℕ → PhilInfo) → ℕ → PhilInfo
put_phil i p phils j = if j == i then p else phils j

abbrev pub set_fork : ℕ → ℕ → (ℕ → ℕ) → ℕ → ℕ
set_fork k v forks j = if j == k then v else forks j

abbrev pub go : ℕ → Pc → Table → Table
go i pc t = record t { phils = put_phil i (record (t.phils i) { pc = pc }) t.phils }

-- The statement at `pc` of philosopher `i`. There is no result where the thread has to wait, or has
-- ended.
unfoldable pub act : ℕ → ℕ → Pc → Table → Option Table
act n i loop t = some (go i (loop_test (t.phils i)) t)
act n i (grab turn) t =
    let k = fork_index n i (side (is_even i) turn) in
    if t.forks k == 0
    then none
    else some (go i (lock (took turn)) (record t { forks = set_fork k (t.forks k - 1) t.forks }))
act n i (lock b) t =
    if t.printing_lock == 0
    then none
    else some (go i (write b) (record t { printing_lock = t.printing_lock - 1 }))
act n i (write b) t = some (record t {
  phils = put_phil i (record (assign (is_even i) b (t.phils i)) { pc = after_write b }) t.phils;
})
act n i (put_down s) t =
    let k = fork_index n i s in
    some (go i (print (drop s)) (record t { forks = set_fork k (t.forks k + 1) t.forks }))
act n i (print b) t =
    some
      (go i (unlock b) (record t { printed = print_status_change n (view n t.phils) ∷ t.printed }))
act n i (unlock b) t =
    some (go i (after_section b) (record t { printing_lock = t.printing_lock + 1 }))
act n i (dawdle r) t = some (go i (after_rest r) t)
act n i count t = some (record t {
  phils =
      put_phil i (record (t.phils i) { cycles_left = (t.phils i).cycles_left - 1; pc = loop })
        t.phils;
})
act n i returned t = none

unfoldable pub run : ℕ → ℕ → Table → Option Table
run n i t = if (t.phils i).failed then none else act n i (t.phils i).pc t

-- The statement is a call of `sem_wait` or `sem_post`, which may answer -1.
abbrev pub may_fail : Pc → Bool
may_fail (grab t) = true
may_fail (lock b) = true
may_fail (put_down s) = true
may_fail (unlock b) = true
may_fail loop = false
may_fail (write b) = false
may_fail (print b) = false
may_fail (dawdle r) = false
may_fail count = false
may_fail returned = false

unfoldable pub fail : ℕ → Table → Table
fail i t = record t { phils = put_phil i (record (t.phils i) { failed = true }) t.phils }

-- One statement of one of the `n` threads, in any order, or a failure of its semaphore.
pub data Step (n : ℕ) (t : Table) : Table → Type 0 where
  runs : (i : ℕ) {t' : Table} → i < n → run n i t ≡ some t' → Step n t t'
  fails :
      (i : ℕ)
      → i < n
      → (t.phils i).failed ≡ false
      → may_fail (t.phils i).pc ≡ true
      → Step n t (fail i t)

-- The table when the threads are created, after the first row has been printed.
unfoldable pub initial : ℕ → ℕ → Table
initial n cycle =
    let phils : ℕ → PhilInfo = λ i. record {
      cycles_left = cycle;
      state = changing;
      holding_left = false;
      holding_right = false;
      pc = loop;
      failed = false;
    } in
    record {
      forks = λ k. 1;
      printing_lock = 1;
      phils = phils;
      printed = print_status_change n (view n phils) ∷ [];
    }

pub data Reach (n cycle : ℕ) : Table → Type 0 where
  start : Reach n cycle (initial n cycle)
  later : {t t' : Table} → Reach n cycle t → Step n t t' → Reach n cycle t'
