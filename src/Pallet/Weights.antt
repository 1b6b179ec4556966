-- ===== src/Pallet/Weights.antt =====
-- The weight of `claim` (blockchain/pallets/probabilistic-payments/src/weights.rs).
pub mod Writes
use guillotine.Base.{ℕ}

-- What weights.rs takes from `frame_support`: weights, and the weight of so many writes.
pub record Weights : Type 1 where
  pub Weight : Type 0
  pub from_parts : ℕ → ℕ → Weight
  pub saturating_add : Weight → Weight → Weight
  pub db_writes : ℕ → Weight
  pub rocks_db_writes : ℕ → Weight

module _ (W : Weights) where
  -- `SubstrateWeight<T>`, with the database weight of `T`
  unfoldable pub substrate_claim : W.Weight
  substrate_claim = W.saturating_add (W.from_parts 9000000 0) (W.db_writes 1)

  -- `()`
  unfoldable pub unit_claim : W.Weight
  unit_claim = W.saturating_add (W.from_parts 9000000 0) (W.rocks_db_writes 1)
