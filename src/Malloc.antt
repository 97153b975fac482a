-- ===== src/Malloc.antt =====
-- Asgn1/malloc.c: the allocator. `Blocks` has the list of headers and its three walks, `Calls` the
-- four entry points; the other modules prove what they keep and what they return.
pub mod Blocks
pub mod Headers
pub mod Calls
pub mod Layout
pub mod Merge
pub mod Split
pub mod Search
pub mod Scan
pub mod Invariant
pub mod Regions
pub mod Memory
pub mod Allocate
pub mod Release
pub mod Resized
pub mod Resize
pub mod Zeroed
pub mod Refusal
pub mod Overflow
pub mod History
mod Tests
