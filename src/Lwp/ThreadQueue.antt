-- ===== src/Lwp/ThreadQueue.antt =====
-- Asgn2/lwp.c: insert_live, remove_live, insert_waiting, remove_waiting, insert_zombie, find_zombie and
-- remove_zombie. The three queues are singly linked and have the same code: in the queues of live and of
-- waiting threads a node is the thread, in the queue of zombies a node is a wrapper with a field
-- `zombie_thread`. A node is its address, and NULL is 0.
use csc.Prelude.{ℕ, zero, suc, ◌&&◌, ◌==◌, Option, none, some, if◌then◌else◌}

abbrev pub null : ℕ
null = 0

-- Head and tail of a queue, and the link of every node.
pub record NodeQueue : Type 0 where
  pub head : ℕ
  pub tail : ℕ
  pub next : ℕ → ℕ

abbrev pub set_next : (ℕ → ℕ) → ℕ → ℕ → ℕ → ℕ
set_next f p v q = if q == p then v else f q

unfoldable pub insert : ℕ → NodeQueue → NodeQueue
insert new q =
    if new == null
    then q
    else if q.head == null
    then record { head = new; tail = new; next = set_next q.next new null }
    else record { head = q.head; tail = new; next = set_next (set_next q.next q.tail new) new null }

-- The search of `find_zombie` and of the three removals, from the node `curr` behind `prev` on: the
-- predecessor of the node of the thread, and the node. The fuel is a bound on the length of the queue.
unfoldable pub search : ℕ → (ℕ → ℕ) → NodeQueue → ℕ → ℕ → ℕ → Option (ℕ × ℕ)
search zero thread_of q victim prev curr = none
search (suc fuel) thread_of q victim prev curr =
    let rest = search fuel thread_of q victim curr (q.next curr) in
    if curr == null then none else if thread_of curr == victim then some (prev, curr) else rest

-- `zombie_thread` of a node is `thread_of`; NULL is the answer for a thread with no node.
unfoldable pub find_zombie : ℕ → (ℕ → ℕ) → ℕ → NodeQueue → ℕ
find_zombie fuel thread_of victim q = elim (search fuel thread_of q victim null q.head) [
  | none ↦ null
  | some (_, curr) ↦ curr
]

-- The links around a node that has been found, and the ends of the queue.
unfoldable pub unlink_node : ℕ → ℕ → NodeQueue → NodeQueue
unlink_node prev curr q =
    let next_node = q.next curr in
    if (curr == q.head) && (curr == q.tail)
    then record { head = null; tail = null; next = set_next q.next curr null }
    else if curr == q.head
    then record q { head = next_node; next = set_next q.next curr null }
    else if curr == q.tail
    then record q { tail = prev; next = set_next (set_next q.next prev null) curr null }
    else record q { next = set_next (set_next q.next prev next_node) curr null }

unfoldable pub remove : ℕ → (ℕ → ℕ) → ℕ → NodeQueue → NodeQueue
remove fuel thread_of victim q =
    if victim == null then q else elim (search fuel thread_of q victim null q.head) [
      | none ↦ q
      | some (prev, curr) ↦ unlink_node prev curr q
    ]

-- The queues of live and of waiting threads
abbrev pub itself : ℕ → ℕ
itself p = p

abbrev pub insert_live : ℕ → NodeQueue → NodeQueue
insert_live = insert

abbrev pub remove_live : ℕ → ℕ → NodeQueue → NodeQueue
remove_live fuel = remove fuel itself

abbrev pub insert_waiting : ℕ → NodeQueue → NodeQueue
insert_waiting = insert

abbrev pub remove_waiting : ℕ → ℕ → NodeQueue → NodeQueue
remove_waiting fuel = remove fuel itself

-- `new_zombie` is the wrapper that `malloc` answers with, and `none` the failure at which the process
-- exits. NULL is not wrapped.
unfoldable pub insert_zombie : Option ℕ → ℕ → (ℕ → ℕ) → NodeQueue → Option ((ℕ → ℕ) × NodeQueue)
insert_zombie new_zombie new thread_of q =
    if new == null then some (thread_of, q) else elim new_zombie [
      | none ↦ none
      | some node ↦ some (set_next thread_of node new, insert node q)
    ]

abbrev pub remove_zombie : ℕ → (ℕ → ℕ) → ℕ → NodeQueue → NodeQueue
remove_zombie = remove
