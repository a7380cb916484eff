-- ===== src/Stripe.antt =====
-- examples/stripe-refund: the contract that refunds a charge, and the fake client of its tests.
pub mod Client
pub mod Contract
pub mod Listing
pub mod Findings
pub mod Paging
pub mod Fake
pub mod Once
