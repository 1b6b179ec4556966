-- ===== src/Runtime/Transaction.antt =====
-- `create_transaction` (blockchain/runtime/src/lib.rs) and the extensions that a transaction carries.
pub mod Laws
pub mod Mortality
use guillotine.Base.{ℕ, ◌-◌, ◌≡◌, Option, none, some, List, [], ◌∷◌, Bytes}
use guillotine.Runtime.Constants.{block_hash_count, mortal_period}

-- The members of `SignedExtra`, in the tuple's order.
pub data SignedExtension (Era : Type 0) : Type 0 where
  check_non_zero_sender : SignedExtension Era
  check_spec_version : SignedExtension Era
  check_tx_version : SignedExtension Era
  check_genesis : SignedExtension Era
  check_era : Era → SignedExtension Era
  check_nonce : ℕ → SignedExtension Era
  check_weight : SignedExtension Era
  charge_transaction_payment : ℕ → SignedExtension Era

abbrev pub SignedExtra : Type 0 → Type 0
SignedExtra Era = List (SignedExtension Era)

-- What signing takes from the crates around the runtime. `mortal` is `Era::mortal`, `new_payload`
-- is `SignedPayload::new`, `deconstruct` takes the call and the extra out again, `encoded` is what
-- `using_encoded` hands over, and `sign` is the caller's `AppCrypto`.
pub record Signing : Type 1 where
  pub Call : Type 0
  pub AccountId : Type 0
  pub Public : Type 0
  pub Signature : Type 0
  pub Era : Type 0
  pub Payload : Type 0
  pub mortal : ℕ → ℕ → Era
  pub new_payload : Call → SignedExtra Era → Option Payload
  pub deconstruct : Payload → Call × SignedExtra Era
  pub encoded : Payload → Bytes
  pub sign : Bytes → Public → Option Signature

-- A payload holds the call and the extra that it was made of.
pub record IsLawful (G : Signing) : Type 0 where
  pub deconstruct-new_payload :
      (call : G.Call) (extra : SignedExtra G.Era) {p : G.Payload}
      → G.new_payload call extra ≡ some p
      → G.deconstruct p ≡ (call, extra)

-- `(MultiAddress::Id(address), signature, extra)`
pub record SignaturePayload (G : Signing) : Type 0 where
  pub address : G.AccountId
  pub signature : G.Signature
  pub extra : SignedExtra G.Era

-- The extra for a period, a current block and a nonce; the tip is 0.
unfoldable pub signed_extra : {Era : Type 0} → (ℕ → ℕ → Era) → ℕ → ℕ → ℕ → SignedExtra Era
signed_extra mortal period current_block nonce =
    check_non_zero_sender
    ∷ check_spec_version
    ∷ check_tx_version
    ∷ check_genesis
    ∷ check_era (mortal period current_block)
    ∷ check_nonce nonce
    ∷ check_weight
    ∷ charge_transaction_payment 0
    ∷ []

module _ (G : Signing) where
  -- `block_number` is `System::block_number()`. A payload that cannot be made is logged by the
  -- source.
  unfoldable pub create_transaction :
      ℕ → G.Call → G.Public → G.AccountId → ℕ → Option (G.Call × SignaturePayload G)
  create_transaction block_number call public account nonce =
      let period = mortal_period block_hash_count in
      let current_block = block_number - 1 in
      let extra = signed_extra G.mortal period current_block nonce in
      elim (G.new_payload call extra) [
        | none ↦ none
        | some raw_payload ↦ elim (G.sign (G.encoded raw_payload) public) [
          | none ↦ none
          | some signature ↦
              let (call, extra) = G.deconstruct raw_payload in
              some (call, record { address = account; signature = signature; extra = extra })
        ]
      ]
