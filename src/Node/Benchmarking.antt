-- ===== src/Node/Benchmarking.antt =====
-- The extrinsics that the benchmarks submit (blockchain/node/src/benchmarking.rs).
pub mod Laws
use Prim.Native.String.{String, ◌++◌ as ◌<>◌}
use guillotine.Base.{ℕ, ◌/◌, ◌∷◌, Option, none, some, [], Result, ok, map_err, panic, ◌>>=◌, Bytes}
use guillotine.Runtime.Constants.{
  block_hash_count, checked_next_power_of_two, spec_version, transaction_version,
}
use guillotine.Runtime.Transaction.{
  Signing, SignedExtra, check_non_zero_sender, check_spec_version, check_tx_version, check_genesis,
  check_era, check_nonce, check_weight, charge_transaction_payment,
}

-- The additional data that is signed and not sent; the units of the tuple are left out.
pub record Additional (Hash : Type 0) : Type 0 where
  pub spec : ℕ
  pub transaction : ℕ
  pub genesis_hash : Hash
  pub best_hash : Hash

-- What the benchmarks take from the client, the key ring and the pallets `system` and `balances`.
-- `block_hash` gives `none` for an error and `some none` for an unknown block.
pub record Bench (G : Signing) : Type 1 where
  pub Hash : Type 0
  pub Pair : Type 0
  pub Client : Type 0
  pub block_hash : Client → ℕ → Option (Option Hash)
  pub best_hash : Client → Hash
  pub best_number : Client → ℕ
  pub from_raw : G.Call → SignedExtra G.Era → Additional Hash → G.Payload
  pub pair_sign : Pair → Bytes → G.Signature
  pub account_of : Pair → G.AccountId
  pub bob : Pair
  pub remark : Bytes → G.Call
  pub transfer_keep_alive : G.AccountId → ℕ → G.Call

-- `UncheckedExtrinsic`
pub record UncheckedExtrinsic (G : Signing) : Type 0 where
  pub call : G.Call
  pub address : G.AccountId
  pub signature : G.Signature
  pub extra : SignedExtra G.Era

-- `.ok().flatten().expect("Genesis block exists; qed")`
abbrev pub expect_genesis : {A : Type 0} → Option (Option A) → Result String A
expect_genesis none = panic
expect_genesis (some none) = panic
expect_genesis (some (some a)) = ok a

module _ {G : Signing} (B : Bench G) where
  -- The period, which the source writes out again.
  unfoldable pub benchmark_period : ℕ → ℕ
  benchmark_period count = elim (checked_next_power_of_two count) [ some c ↦ c / 2 | none ↦ 2 ]

  -- The tuple of extensions, which the source writes out again.
  unfoldable pub benchmark_extra : ℕ → ℕ → ℕ → SignedExtra G.Era
  benchmark_extra period best_block nonce =
      check_non_zero_sender
      ∷ check_spec_version
      ∷ check_tx_version
      ∷ check_genesis
      ∷ check_era (G.mortal period best_block)
      ∷ check_nonce nonce
      ∷ check_weight
      ∷ charge_transaction_payment 0
      ∷ []

  unfoldable pub create_benchmark_extrinsic :
      B.Client → B.Pair → G.Call → ℕ → Result String (UncheckedExtrinsic G)
  create_benchmark_extrinsic client sender call nonce = do
    genesis_hash ← expect_genesis (B.block_hash client 0)
    let period = benchmark_period block_hash_count
    let extra = benchmark_extra period (B.best_number client) nonce
    let raw_payload = B.from_raw call extra (record {
      spec = spec_version;
      transaction = transaction_version;
      genesis_hash = genesis_hash;
      best_hash = B.best_hash client;
    })
    let signature = B.pair_sign sender (G.encoded raw_payload)
    ok (record { call = call; address = B.account_of sender; signature = signature; extra = extra })

  -- `ExtrinsicBuilder` for `RemarkBuilder` and `TransferKeepAliveBuilder`.
  pub data Builder : Type 0 where
    remark_builder : B.Client → Builder
    transfer_keep_alive_builder : B.Client → G.AccountId → ℕ → Builder

  abbrev pub client_of : Builder → B.Client
  client_of (remark_builder client) = client
  client_of (transfer_keep_alive_builder client _ _) = client

  unfoldable pub pallet_name : Builder → String
  pallet_name (remark_builder _) = "system"
  pallet_name (transfer_keep_alive_builder _ _ _) = "balances"

  unfoldable pub extrinsic_name : Builder → String
  extrinsic_name (remark_builder _) = "remark"
  extrinsic_name (transfer_keep_alive_builder _ _ _) = "transfer_keep_alive"

  abbrev pub call_of : Builder → G.Call
  call_of (remark_builder _) = B.remark []
  call_of (transfer_keep_alive_builder _ dest value) = B.transfer_keep_alive dest value

  -- `build`, which signs with Bob's pair.
  unfoldable pub build : Builder → ℕ → Result String (UncheckedExtrinsic G)
  build b nonce = do
    extrinsic ← create_benchmark_extrinsic (client_of b) B.bob (call_of b) nonce
    ok extrinsic

-- The timestamp's inherent, which may fail, and how its error is shown.
pub record Inherents : Type 1 where
  pub InherentData : Type 0
  pub Error : Type 0
  pub new : InherentData
  pub provide_inherent_data : ℕ → InherentData → Result Error InherentData
  pub debug : Error → String

-- The inherent data of the time 0.
unfoldable pub inherent_benchmark_data : (I : Inherents) → Result String I.InherentData
inherent_benchmark_data I =
    map_err (λ e. "creating inherent data: " <> I.debug e) (I.provide_inherent_data 0 I.new)
