-- ===== src/TrivialPt.antt =====
-- Asgn3/trivial_pt.c: a parent that creates four threads and joins them. `Threads` has its statements and
-- those of the children; the other modules prove in which order they print, and that they
-- never block.
pub mod Threads
pub mod Lines
pub mod Joined
pub mod Printed
mod Tests
