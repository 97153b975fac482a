-- ===== src/Lwp.antt =====
-- Asgn2/lwp.c: the queues of threads that the library keeps, its calls, the change of its scheduler, and
-- the words and stacks of its threads.
pub mod ThreadQueue
pub mod Chains
pub mod Removal
pub mod SetScheduler
pub mod Transfer
pub mod RoundRobinPool
pub mod Registers
pub mod Library
pub mod Create
pub mod Erased
pub mod Consistent
pub mod Changes
pub mod Ending
pub mod Entering
pub mod Yielding
pub mod Calls
pub mod Waits
pub mod Creation
pub mod Reachable
pub mod Switching
pub mod Lookup
pub mod Created
pub mod Handover
pub mod Serving
pub mod Waiting
pub mod Words
pub mod Stacks
mod Tests
mod LibraryTests
mod SwitchingTests
