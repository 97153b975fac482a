-- ===== src/Debug.antt =====
-- The debug output of Asgn1/malloc.c and Asgn2/lwp.c: `Output` has the functions that print, `Events` and
-- `ReallocEvents` what each call of the allocator prints; the other modules prove what reaches standard
-- error.
pub mod Output
pub mod Written
pub mod Events
pub mod ReallocEvents
pub mod Reported
pub mod Once
pub mod CallReports
mod Tests
