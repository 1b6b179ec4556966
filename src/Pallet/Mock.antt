-- ===== src/Pallet/Mock.antt =====
-- A concrete configuration that meets the assumptions of `IsLawful`, for the runs and examples.
use guillotine.Base.{
  ℕ, ◌+◌, ◌/◌, ◌^◌, ◌≤◌, ◌<◌, ◌≡◌, refl, ◌↔◌, Bool, true, false, Option, none, some, List, ◌∷◌,
  Bytes, length, from_le_bytes, to_le_bytes, length-to_le_bytes, arith, leb, le→leb, ltb, ◌==◌,
  if◌then◌else◌,
}
use guillotine.Pallet.Config.{Config, IsLawful, StorageMap, Event}
use guillotine.Pallet.Voucher.Layout.{Codec}

-- A finite map as a function.
abbrev pub map_of_functions : StorageMap Bytes
map_of_functions = record {
  State = ℕ → Option Bytes;
  get = λ s k. s k;
  set = λ s k v j. if k == j then v else s j;
  get-set = λ s k v j. refl;
}

-- The block number and the events so far. There are two accounts, `true` and `false`.
pub record System : Type 0 where
  pub number : ℕ
  pub events : List (Event Bool)

abbrev same : Bool → Bool → Bool
same true true = true
same false false = true
same _ _ = false

same_iff : (a b : Bool) → (same a b ≡ true) ↔ (a ≡ b)
same_iff a b = ground arith

abbrev pub bool_of : Bytes → Option Bool
bool_of v = some (ltb 0 (from_le_bytes v))

abbrev pub bytes_of : ℕ → Bool → Bytes
bytes_of n true = to_le_bytes n 1
bytes_of n false = to_le_bytes n 0

abbrev little_endian : Bytes → Option ℕ
little_endian v = if leb (length v) 32 then some (from_le_bytes v) else none

abbrev quotient : ℕ → ℕ → Option ℕ
quotient a b = if b == 0 then none else some (a / b)

-- A hash is 2 ^ 254 and the length of what it hashes. What verifies is left open.
abbrev pub mock_with : (Bool → Bytes → Bool → Bool) → Config
mock_with verify = record {
  AccountId = Bool;
  Sr25519Signature = Bool;
  Signature = Bool;
  Origin = Option Bool;
  Weight = ℕ × ℕ;
  SystemState = System;
  decode_account = bool_of;
  decode_sr25519 = bool_of;
  from_sr25519 = λ s. s;
  account_eq = same;
  ensure_signed = λ o. o;
  verify = verify;
  blake2_256 = λ input. to_le_bytes 32 (2 ^ 254 + length input);
  random = λ s topic. to_le_bytes 32 s.number;
  block_number = λ s. s.number;
  deposit_event = λ s e. record s { events = e ∷ s.events };
  reads_writes = λ r w. (r, w);
  u256_from_little_endian = little_endian;
  u256_div = quotient;
  history = map_of_functions;
}

-- Every signature but `false` verifies.
abbrev pub mock : Config
mock = mock_with (λ s message key. s)

pub length-bytes_of : (n : ℕ) (b : Bool) → length (bytes_of n b) ≡ n
length-bytes_of n true = length-to_le_bytes n 1
length-bytes_of n false = length-to_le_bytes n 0

little_endian_lem : (v : Bytes) → length v ≤ 32 → little_endian v ≡ some (from_le_bytes v)
little_endian_lem v h = rw (le→leb _ _ h)

quotient_lem : (a b : ℕ) → 0 < b → quotient a b ≡ some (a / b)
quotient_lem a b h = ground arith

pub mock_with-IsLawful : (verify : Bool → Bytes → Bool → Bool) → IsLawful (mock_with verify)
mock_with-IsLawful verify = record {
  length-random = λ s topic. length-to_le_bytes 32 _;
  length-blake2_256 = λ input. length-to_le_bytes 32 _;
  account_eq_iff = same_iff;
  block_number-deposit_event = λ s e. refl;
  u256_from_little_endian_lem = little_endian_lem;
  u256_div_lem = quotient_lem;
  u256_div-zero = λ a. refl;
}

pub mock-IsLawful : IsLawful mock
mock-IsLawful = mock_with-IsLawful _

pub bool_of-bytes_of_32 : (b : Bool) → bool_of (bytes_of 32 b) ≡ some b
unfolding to_le_bytes from_le_bytes
bool_of-bytes_of_32 true = refl
bool_of-bytes_of_32 false = refl

pub bool_of-bytes_of_64 : (b : Bool) → bool_of (bytes_of 64 b) ≡ some b
unfolding to_le_bytes from_le_bytes
bool_of-bytes_of_64 true = refl
bool_of-bytes_of_64 false = refl

abbrev pub codec_with : (verify : Bool → Bytes → Bool → Bool) → Codec (mock_with verify)
codec_with verify = record {
  encode_account = bytes_of 32;
  encode_sr25519 = bytes_of 64;
  length-encode_account = length-bytes_of 32;
  length-encode_sr25519 = length-bytes_of 64;
  decode_account-encode_account = bool_of-bytes_of_32;
  decode_sr25519-encode_sr25519 = bool_of-bytes_of_64;
}

abbrev pub mock_codec : Codec mock
mock_codec = codec_with _
