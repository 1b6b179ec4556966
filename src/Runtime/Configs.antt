-- ===== src/Runtime/Configs.antt =====
-- The configurations of FRAME's pallets in the runtime (blockchain/runtime/src/lib.rs): the
-- associated types that are values, flags or functions. Those that only name a type of the
-- runtime itself (its events, its calls, its pallets) and the weights of FRAME's pallets are left
-- out, and so is `pallet_sudo`, which has no others. Where the source writes `()` for a number, it is 0, the
-- default of the number's type.
pub mod Clock
pub mod Nfts
pub mod Redemption
use guillotine.Base.{ℕ, ◌-◌, ◌*◌, ◌^◌, Bool, true, false}
use guillotine.Pallet.Weights.{Weights, substrate_claim}
use guillotine.Runtime.Constants.{
  block_hash_count, existential_deposit, max_authorities, minimum_period,
}

-- What the configurations of `frame_system` take from FRAME: the limits of a block, and the
-- weight of the database's operations.
pub record Limits : Type 1 where
  pub Call : Type 0
  pub Weight : Type 0
  pub BlockWeights : Type 0
  pub BlockLength : Type 0
  pub DbWeight : Type 0
  pub from_parts : ℕ → ℕ → Weight
  pub weight_ref_time_per_second : ℕ
  -- the most weight of a block, and the share of normal calls in per cent
  pub with_sensible_defaults : Weight → ℕ → BlockWeights
  pub max_with_normal_ratio : ℕ → ℕ → BlockLength
  -- what `()` stands for
  pub default_weights : BlockWeights
  pub default_length : BlockLength
  pub default_db_weight : DbWeight
  pub rocks_db_weight : DbWeight

-- `frame_system::Config`; `Nonce` and `Hash` as their bits.
pub record SystemConfig (X : Limits) : Type 0 where
  pub base_call_filter : X.Call → Bool
  pub block_weights : X.BlockWeights
  pub block_length : X.BlockLength
  pub nonce_bits : ℕ
  pub hash_bits : ℕ
  pub block_hash_count : ℕ
  pub db_weight : X.DbWeight
  pub ss58_prefix : ℕ
  pub max_consumers : ℕ

-- `Everything` lets every call through.
abbrev pub everything : {Call : Type 0} → Call → Bool
everything call = true

-- `NORMAL_DISPATCH_RATIO`, in per cent
abbrev pub normal_dispatch_ratio : ℕ
normal_dispatch_ratio = 75

-- `BlockWeights`: two seconds of compute for a block, and `u64::MAX` of proof.
unfoldable pub block_weights : (X : Limits) → X.BlockWeights
block_weights X =
    X.with_sensible_defaults (X.from_parts (2 * X.weight_ref_time_per_second) (2 ^ 64 - 1))
      normal_dispatch_ratio

-- `BlockLength`
unfoldable pub block_length : (X : Limits) → X.BlockLength
block_length X = X.max_with_normal_ratio (5 * 1024 * 1024) normal_dispatch_ratio

-- `SS58Prefix`
abbrev pub ss58_prefix : ℕ
ss58_prefix = 42

unfoldable pub runtime_system : (X : Limits) → SystemConfig X
runtime_system X = record {
  base_call_filter = everything;
  block_weights = block_weights X;
  block_length = block_length X;
  nonce_bits = 32;
  hash_bits = 256;
  block_hash_count = block_hash_count;
  db_weight = X.rocks_db_weight;
  ss58_prefix = ss58_prefix;
  max_consumers = 16;
}

-- `pallet_aura::Config`; `()` disables no validator.
pub record AuraConfig : Type 0 where
  pub disabled_validators : ℕ → Bool
  pub max_authorities : ℕ
  pub allow_multiple_blocks_per_slot : Bool

unfoldable pub runtime_aura : AuraConfig
runtime_aura = record {
  disabled_validators = λ index. false;
  max_authorities = max_authorities;
  allow_multiple_blocks_per_slot = false;
}

-- `pallet_grandpa::Config`; `sp_core::Void` has no values.
pub record GrandpaConfig : Type 1 where
  pub KeyOwnerProof : Type 0
  pub reports_equivocations : Bool
  pub max_authorities : ℕ
  pub max_set_id_session_entries : ℕ
  pub max_nominators : ℕ

pub data Void : Type 0 where

unfoldable pub runtime_grandpa : GrandpaConfig
runtime_grandpa = record {
  KeyOwnerProof = Void;
  reports_equivocations = false;
  max_authorities = max_authorities;
  max_set_id_session_entries = 0;
  max_nominators = 0;
}

-- What is told of a new timestamp.
pub data OnTimestampSet : Type 0 where
  nothing : OnTimestampSet
  aura : OnTimestampSet

-- `pallet_timestamp::Config`; `Moment` as its bits.
pub record TimestampConfig : Type 0 where
  pub moment_bits : ℕ
  pub on_timestamp_set : OnTimestampSet
  pub minimum_period : ℕ

unfoldable pub runtime_timestamp : TimestampConfig
runtime_timestamp = record {
  moment_bits = 64;
  on_timestamp_set = aura;
  minimum_period = minimum_period;
}

-- `pallet_balances::Config`; the identifiers of reserves as their bytes.
pub record BalancesConfig : Type 0 where
  pub max_locks : ℕ
  pub max_reserves : ℕ
  pub reserve_identifier_bytes : ℕ
  pub balance_bits : ℕ
  pub existential_deposit : ℕ
  pub max_freezes : ℕ
  pub max_holds : ℕ

unfoldable pub runtime_balances : BalancesConfig
runtime_balances = record {
  max_locks = 50;
  max_reserves = 0;
  reserve_identifier_bytes = 8;
  balance_bits = 128;
  existential_deposit = existential_deposit;
  max_freezes = 0;
  max_holds = 0;
}

-- `pallet_transaction_payment::Config`; a fee multiplier is a whole number here.
pub record TransactionPaymentConfig : Type 0 where
  pub operational_fee_multiplier : ℕ
  pub weight_to_fee : ℕ → ℕ
  pub length_to_fee : ℕ → ℕ
  pub fee_multiplier_update : ℕ → ℕ

-- `IdentityFee`, of the first part of a weight or of a length, and `ConstFeeMultiplier`
abbrev pub identity_fee : ℕ → ℕ
identity_fee n = n

-- `FeeMultiplier`
abbrev pub fee_multiplier : ℕ
fee_multiplier = 1

unfoldable pub runtime_transaction_payment : TransactionPaymentConfig
runtime_transaction_payment = record {
  operational_fee_multiplier = 5;
  weight_to_fee = identity_fee;
  length_to_fee = identity_fee;
  fee_multiplier_update = λ previous. fee_multiplier;
}

-- `pallet_probabilistic_payments::Config`; `BlockNumber` as its bits, and the weight of a call.
pub record PaymentsConfig (W : Weights) : Type 0 where
  pub block_number_bits : ℕ
  pub claim_weight : W.Weight

unfoldable pub runtime_payments : (W : Weights) → PaymentsConfig W
runtime_payments W = record { block_number_bits = 32; claim_weight = substrate_claim W }
