-- ===== src/Runtime/Configs/Nfts.antt =====
-- The configuration of `pallet_nfts` in the runtime (blockchain/runtime/src/lib.rs), as the other
-- configurations: `()` is 0 where it stands for a number.
use guillotine.Base.{ℕ}

-- Who may make a call.
pub data Allowed : Type 0 where
  root_only : Allowed
  signed : Allowed

-- `pallet_nfts::Config`; collections and items as the bits of their ids.
pub record NftsConfig : Type 0 where
  pub collection_id_bits : ℕ
  pub item_id_bits : ℕ
  pub force_origin : Allowed
  pub create_origin : Allowed
  pub collection_deposit : ℕ
  pub item_deposit : ℕ
  pub metadata_deposit_base : ℕ
  pub attribute_deposit_base : ℕ
  pub deposit_per_byte : ℕ
  pub string_limit : ℕ
  pub key_limit : ℕ
  pub value_limit : ℕ
  pub approvals_limit : ℕ
  pub item_attributes_approvals_limit : ℕ
  pub max_tips : ℕ
  pub max_deadline_duration : ℕ
  pub max_attributes_per_call : ℕ

unfoldable pub runtime_nfts : NftsConfig
runtime_nfts = record {
  collection_id_bits = 32;
  item_id_bits = 32;
  force_origin = root_only;
  create_origin = signed;
  collection_deposit = 0;
  item_deposit = 0;
  metadata_deposit_base = 0;
  attribute_deposit_base = 0;
  deposit_per_byte = 0;
  string_limit = 256;
  key_limit = 256;
  value_limit = 256;
  approvals_limit = 0;
  item_attributes_approvals_limit = 0;
  max_tips = 0;
  max_deadline_duration = 0;
  max_attributes_per_call = 0;
}
