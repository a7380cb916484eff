-- ===== src/Refinement.antt =====
-- What src/core/runtime.ts does, as steps of the protocol of a record.
pub mod Clock
pub mod Setting
pub mod Resolutions
pub mod Attempts
pub mod Checks
pub mod Passes
pub mod Openings
pub mod Effects
pub mod Reviews
pub mod Promises
