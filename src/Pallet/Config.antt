-- ===== src/Pallet/Config.antt =====
-- The pallet's constants, events and errors (blockchain/pallets/probabilistic-payments/src/lib.rs),
-- and what it takes from the crates around it: `frame_system`, `sp_core`, the randomness pallet.
use guillotine.Base.{
  ℕ, ◌-◌, ◌/◌, ◌^◌, ◌≤◌, ◌<◌, ◌≡◌, ◌↔◌, Bool, true, Option, none, some, Bytes, length,
  from_le_bytes, ◌==◌, if◌then◌else◌,
}

-- `EPOCH_LENGTH`
abbrev pub epoch_length : ℕ
epoch_length = 1024

-- `Event<T>`
pub data Event (AccountId : Type 0) : Type 0 where
  voucher_claimed : ℕ → AccountId → Event AccountId

-- `Error<T>`
pub data Error : Type 0 where
  invalid_voucher : ℕ → Error
  invalid_recipient : Error
  invalid_voucher_signature : Error
  claimed_too_soon_or_late : Error
  voucher_did_not_win : Error

-- What a call returns where it fails: `BadOrigin`, or an error of the pallet.
pub data DispatchError : Type 0 where
  bad_origin : DispatchError
  module_error : Error → DispatchError

-- `StorageMap<_, Blake2_256, BlockNumber, V, OptionQuery>`: `set` with `none` removes the entry.
pub record StorageMap (V : Type 0) : Type 1 where
  pub State : Type 0
  pub get : State → ℕ → Option V
  pub set : State → ℕ → Option V → State
  pub get-set :
      (s : State) (k : ℕ) (v : Option V) (j : ℕ)
      → get (set s k v) j ≡ (if k == j then v else get s j)

-- `Config` and what its supertraits bring. `none` of a decoder is a decoding error; `none` of an
-- operation of `U256`, whose values are numbers here, is a panic.
pub record Config : Type 1 where
  pub AccountId : Type 0
  pub Sr25519Signature : Type 0
  pub Signature : Type 0
  pub Origin : Type 0
  pub Weight : Type 0
  pub SystemState : Type 0
  pub decode_account : Bytes → Option AccountId
  pub decode_sr25519 : Bytes → Option Sr25519Signature
  pub from_sr25519 : Sr25519Signature → Signature
  pub account_eq : AccountId → AccountId → Bool
  pub ensure_signed : Origin → Option AccountId
  pub verify : Signature → Bytes → AccountId → Bool
  pub blake2_256 : Bytes → Bytes
  pub random : SystemState → Bytes → Bytes
  pub block_number : SystemState → ℕ
  pub deposit_event : SystemState → Event AccountId → SystemState
  pub reads_writes : ℕ → ℕ → Weight
  pub u256_from_little_endian : Bytes → Option ℕ
  pub u256_div : ℕ → ℕ → Option ℕ
  pub history : StorageMap Bytes

-- `U256::MAX`
abbrev pub u256_max : ℕ
u256_max = 2 ^ 256 - 1

-- What the documentation of those crates says of them, as far as the theorems need it.
pub record IsLawful (C : Config) : Type 0 where
  pub length-random : (s : C.SystemState) (topic : Bytes) → length (C.random s topic) ≡ 32
  pub length-blake2_256 : (input : Bytes) → length (C.blake2_256 input) ≡ 32
  pub account_eq_iff : (a b : C.AccountId) → (C.account_eq a b ≡ true) ↔ (a ≡ b)
  pub block_number-deposit_event :
      (s : C.SystemState) (e : Event C.AccountId)
      → C.block_number (C.deposit_event s e) ≡ C.block_number s
  pub u256_from_little_endian_lem :
      (v : Bytes) → length v ≤ 32 → C.u256_from_little_endian v ≡ some (from_le_bytes v)
  pub u256_div_lem : (a b : ℕ) → 0 < b → C.u256_div a b ≡ some (a / b)
  pub u256_div-zero : (a : ℕ) → C.u256_div a 0 ≡ none

-- The pallet's state: its own storage map, and the state of the other pallets.
pub record State (C : Config) : Type 0 where
  pub system : C.SystemState
  pub history : C.history.State
