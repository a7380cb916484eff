-- ===== src/Types.antt =====
-- src/core/types.ts, in two children: what a store keeps (`Records`), and what an integrator
-- supplies and gets back (`Contract`).
mod Records
mod Contract
pub use Records.*
pub use Contract.*
