-- ===== src/Pallet.antt =====
-- The pallet `probabilistic-payments` (blockchain/pallets/probabilistic-payments/src): lottery
-- vouchers, the randomness of recent blocks, and the `claim` call.
pub mod Config
pub mod Voucher
pub mod History
pub mod Claim
pub mod Chain
pub mod Ledger
pub mod Dispatch
pub mod Benchmarking
pub mod Weights
pub mod Mock
pub mod TestRuntime
