-- ===== src/Runtime.antt =====
-- The runtime (blockchain/runtime/src/lib.rs).
pub mod Constants
pub mod Transaction
pub mod Pallets
pub mod Api
pub mod TryRuntime
pub mod Version
pub mod Configs
pub mod Benches
