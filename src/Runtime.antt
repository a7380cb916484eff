-- ===== src/Runtime.antt =====
-- src/core/runtime.ts, in children.
pub mod Monad
pub mod Frame
pub mod Quiet
pub mod Answers
pub mod Fingerprints
pub mod Hooks
pub mod Review
pub mod Report
pub mod Attempt
pub mod Check
pub mod Entry
pub mod Continue
pub mod Effect
pub mod Decision
