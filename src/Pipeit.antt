-- ===== src/Pipeit.antt =====
-- Lab01/pipeit.c: `Processes` has the code of the parent and of its two children, and `Pipeline` proves how
-- they are connected and what the parent reports.
pub mod Processes
pub mod Pipeline
mod Tests
