-- ===== src/Pallet/Voucher.antt =====
-- `Voucher` and `Voucher::parse` (blockchain/pallets/probabilistic-payments/src/lib.rs).
pub mod Layout
pub mod Reading
pub mod Canonical
pub mod Source
use guillotine.Base.{
  ℕ, Bytes, Result, ok, err, ◌>>=◌, ok_or, slice, to_array, from_le_bytes, length, ltb,
  if◌then◌else◌,
}
use guillotine.Pallet.Config.{Config}

pub record Voucher (C : Config) : Type 0 where
  pub oracle_block : ℕ
  pub difficulty : ℕ
  pub no_redeem_before_block : ℕ
  pub value_if_paid : ℕ
  pub price_list_commit : ℕ
  pub sender_pk : C.AccountId
  pub recipient_pk : C.AccountId
  pub nonce : Bytes
  pub signature : C.Signature

-- `uN::from_le_bytes(v[a..b].try_into().unwrap())`, for an integer of `n` bytes.
unfoldable pub read_uint : {E : Type 0} → ℕ → Bytes → ℕ → ℕ → Result E ℕ
read_uint n v a b = do array ← to_array n (← slice v a b); ok (from_le_bytes array)

module _ (C : Config) where
  -- The fields are read in this order; a `u8` tells which of them failed to decode.
  unfoldable pub parse_fields : Bytes → Result ℕ (Voucher C)
  parse_fields voucher = do
    oracle_block ← read_uint 4 voucher 0 4
    difficulty ← read_uint 4 voucher 4 8
    no_redeem_before_block ← read_uint 4 voucher 8 12
    value_if_paid ← read_uint 4 voucher 12 16
    price_list_commit ← read_uint 16 voucher 16 32
    sender_bytes ← slice voucher 32 64
    sender_pk ← ok_or (C.decode_account sender_bytes) 1
    recipient_bytes ← slice voucher 64 96
    recipient_pk ← ok_or (C.decode_account recipient_bytes) 2
    nonce_bytes ← slice voucher 96 128
    nonce ← to_array 32 nonce_bytes
    signature_bytes ← slice voucher 128 192
    signature ← ok_or (C.decode_sr25519 signature_bytes) 3
    ok (record {
      oracle_block = oracle_block;
      difficulty = difficulty;
      no_redeem_before_block = no_redeem_before_block;
      value_if_paid = value_if_paid;
      price_list_commit = price_list_commit;
      sender_pk = sender_pk;
      recipient_pk = recipient_pk;
      nonce = nonce;
      signature = C.from_sr25519 signature;
    })

  -- `Voucher::parse`
  unfoldable pub parse : Bytes → Result ℕ (Voucher C)
  parse voucher = if ltb (length voucher) 192 then err 0 else parse_fields voucher
