-- ===== src/Scheduler.antt =====
-- Asgn2/scheduler.c: the round-robin scheduler over its doubly linked queue of threads. `RoundRobin`
-- has the operations on pointers; the other modules prove that they are those of a list.
pub mod RoundRobin
pub mod Links
pub mod Erasure
pub mod Queue
pub mod Rotation
mod Tests
