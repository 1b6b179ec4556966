-- ===== src/Pallet/TestRuntime.antt =====
-- The runtime of the pallet's tests (blockchain/pallets/probabilistic-payments/src/mock.rs).
pub mod Order
use guillotine.Base.{ℕ, List, [], ◌∷◌}
use guillotine.Pallet.Config.{Config, State}
use guillotine.Pallet.History.{on_initialize}
use guillotine.Pallet.Weights.{Weights, unit_claim}
use guillotine.Runtime.Configs.{Limits, SystemConfig, everything, PaymentsConfig}

-- The pallets of `Test`
pub data TestPallet : Type 0 where
  system : TestPallet
  probabilistic_payments : TestPallet
  insecure_randomness_collective_flip : TestPallet

-- The order in which `construct_runtime!` declares them, and in which their hooks run.
unfoldable pub test_pallets : List TestPallet
test_pallets = system ∷ probabilistic_payments ∷ insecure_randomness_collective_flip ∷ []

-- `frame_system::Config for Test`
unfoldable pub test_system : (X : Limits) → SystemConfig X
test_system X = record {
  base_call_filter = everything;
  block_weights = X.default_weights;
  block_length = X.default_length;
  nonce_bits = 64;
  hash_bits = 256;
  block_hash_count = 250;
  db_weight = X.default_db_weight;
  ss58_prefix = 42;
  max_consumers = 16;
}

-- `pallet_probabilistic_payments::Config for Test`
unfoldable pub test_payments : (W : Weights) → PaymentsConfig W
test_payments W = record { block_number_bits = 32; claim_weight = unit_claim W }

module _ (C : Config) where
  -- The hook `on_initialize` of one pallet, over the hooks of FRAME's two.
  unfoldable pub test_on_initialize :
      (TestPallet → ℕ → C.SystemState → C.SystemState) → TestPallet → ℕ → State C → State C
  test_on_initialize hooks probabilistic_payments n s = (on_initialize C n s).1
  test_on_initialize hooks system n s = record s { system = hooks system n s.system }
  test_on_initialize hooks insecure_randomness_collective_flip n s = record s {
    system = hooks insecure_randomness_collective_flip n s.system;
  }

  -- How a test prepares block `n` (tests.rs): it calls the two hooks itself.
  unfoldable pub prepare_block :
      (TestPallet → ℕ → C.SystemState → C.SystemState) → ℕ → State C → State C
  prepare_block hooks n s =
      let flipped = test_on_initialize hooks insecure_randomness_collective_flip n s in
      test_on_initialize hooks probabilistic_payments n flipped
