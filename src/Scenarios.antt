-- ===== src/Scenarios.antt =====
-- Concrete runs of the model, and each theorem at an input where its hypotheses hold.
mod Setup
mod Database
mod Postgres
mod Stripe
mod Conformance
mod Faults
mod Passes
mod Parts
