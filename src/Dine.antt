-- ===== src/Dine.antt =====
-- Asgn3/dine.c: the dining philosophers, as threads over semaphores. `Printing` has the table that they
-- print, `Philosopher` the threads; the other modules prove that they share the forks, that they never
-- block each other for good, and that they end.
pub mod Printing
pub mod Philosopher
pub mod Ownership
pub mod Effects
pub mod Statements
pub mod Accounts
pub mod Sharing
pub mod Deadlock
pub mod Weight
pub mod Termination
pub mod Columns
pub mod Meals
pub mod Main
pub mod Argument
mod Tests
mod MainTests
