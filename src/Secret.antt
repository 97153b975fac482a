-- ===== src/Secret.antt =====
-- Asgn4/secret.c: the driver of /dev/Secret. `Driver` has its state and handlers, `LiveUpdate` the
-- saving and restoring of the state; the other modules prove who may open the device, what is read
-- back, and that a live update keeps the secret.
pub mod Driver
pub mod LiveUpdate
pub mod Access
pub mod Bytes
pub mod Survival
pub mod Confidential
pub mod Grant
pub mod Granting
mod Tests
