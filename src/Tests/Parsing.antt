-- ===== src/Tests/Parsing.antt =====
-- The theorems on the parser at concrete data.
use guillotine.Base.{
  from_le_bytes, to_le_bytes, AreBytes, to_le_bytes-from_le_bytes_of, Bytes, Option, Bool, true,
  false, none, some, drop, take, err, ◌==◌, ◌↔◌, if◌then◌else◌, ◌⊎◌, leb, length, ℕ, ◌≤◌, ◌<◌, ◌≡◌,
  refl, length-to_le_bytes, [], ◌∷◌, ok, arith,
}
use guillotine.Pallet.Voucher.{Voucher, parse}
use guillotine.Pallet.Config.{Config}
use guillotine.Pallet.Voucher.Canonical.{Reads, parse-Reads_iff}
use guillotine.Pallet.Voucher.Source.{IsCanonical, encode-parse}
use guillotine.Pallet.Voucher.Layout.{Codec, IsInRange, unsigned_bytes, encode, parse-encode}
use guillotine.Pallet.Claim.{claim}
use guillotine.Pallet.Dispatch.{Bounded, claim_bytes}
use guillotine.Pallet.Dispatch.Bound.{claim_bytes-encode}
use guillotine.Pallet.Mock.{bytes_of, length-bytes_of, mock, mock_codec}
use guillotine.Tests.{after_three, voucher_of, voucher_of-IsInRange, alice}

parse-encode_example :
    parse mock (encode mock_codec (voucher_of 2) true (7 ∷ [])) ≡ ok (voucher_of 2)
parse-encode_example =
    parse-encode mock_codec (voucher_of 2) true (7 ∷ []) (voucher_of-IsInRange 2 (omega arith))

-- A `BoundedVec` as the bytes themselves.
abbrev bounded : Bounded
bounded = record {
  try_from = λ bound v. if leb (length v) bound then some v else none;
  try_from_lem = λ bound v. refl;
}

claim_bytes-encode_example :
    ((length {A = ℕ} (7 ∷ []) ≤ 64)
      × (claim_bytes mock bounded alice (encode mock_codec (voucher_of 2) true (7 ∷ [])) after_three
          ≡ some (claim mock alice (encode mock_codec (voucher_of 2) true []) after_three)))
    ⊎ ((64 < length {A = ℕ} (7 ∷ []))
        × (claim_bytes mock bounded alice
              (encode mock_codec (voucher_of 2) true (7 ∷ []))
              after_three
            ≡ none))
claim_bytes-encode_example =
    claim_bytes-encode mock_codec (voucher_of 2) true bounded alice after_three (7 ∷ [])
      (voucher_of-IsInRange 2 (omega arith))

-- Accounts and signatures that are decoded from one spelling only.
abbrev one_bool : Bytes → Option Bool
one_bool b =
    if from_le_bytes b == 0 then some false else if from_le_bytes b == 1 then some true else none

abbrev strict : Config
strict = record mock { decode_account = one_bool; decode_sr25519 = one_bool }

one_bool-bytes_of_32 : (a : Bool) → one_bool (bytes_of 32 a) ≡ some a
unfolding to_le_bytes from_le_bytes
one_bool-bytes_of_32 true = refl
one_bool-bytes_of_32 false = refl

one_bool-bytes_of_64 : (a : Bool) → one_bool (bytes_of 64 a) ≡ some a
unfolding to_le_bytes from_le_bytes
one_bool-bytes_of_64 true = refl
one_bool-bytes_of_64 false = refl

abbrev strict_codec : Codec strict
strict_codec = record {
  encode_account = bytes_of 32;
  encode_sr25519 = bytes_of 64;
  length-encode_account = length-bytes_of 32;
  length-encode_sr25519 = length-bytes_of 64;
  decode_account-encode_account = one_bool-bytes_of_32;
  decode_sr25519-encode_sr25519 = one_bool-bytes_of_64;
}

one_bool_value :
    (b : Bytes) (a : Bool) → one_bool b ≡ some a → from_le_bytes b ≡ (if a then 1 else 0)
one_bool_value b true h = ground arith
one_bool_value b false h = ground arith

bytes_of-one_bool :
    (n : ℕ) (b : Bytes) (a : Bool)
    → length b ≡ n
    → AreBytes b
    → one_bool b ≡ some a
    → bytes_of n a ≡ b
bytes_of-one_bool n b true e k h =
    rw (← one_bool_value b true h) (to_le_bytes-from_le_bytes_of n b e k)
bytes_of-one_bool n b false e k h =
    rw (← one_bool_value b false h) (to_le_bytes-from_le_bytes_of n b e k)

strict_codec-IsCanonical : IsCanonical strict_codec
strict_codec-IsCanonical = record {
  encode_account-decode_account = λ b {a} e k h. bytes_of-one_bool 32 b a e k h;
  encode_sr25519-decode_sr25519 = λ b {s} e k h. bytes_of-one_bool 64 b s e k h;
}

abbrev two : Voucher strict
two = record {
  oracle_block = 1;
  difficulty = 2;
  no_redeem_before_block = 3;
  value_if_paid = 4;
  price_list_commit = 5;
  sender_pk = false;
  recipient_pk = true;
  nonce = to_le_bytes 32 0;
  signature = true;
}

two-IsInRange : IsInRange two
two-IsInRange = omega (arith, length-to_le_bytes 32 0)

-- Its bytes, and one behind them.
abbrev presented : Bytes
presented = encode strict_codec two true (7 ∷ [])

presented-AreBytes : AreBytes presented
unfolding to_le_bytes
presented-AreBytes = omega arith

presented_read : parse strict presented ≡ ok two
presented_read = parse-encode strict_codec two true (7 ∷ []) two-IsInRange

parse-Reads_iff_example : (parse strict (1 ∷ 2 ∷ []) ≡ err 0) ↔ Reads strict (1 ∷ 2 ∷ []) (err 0)
parse-Reads_iff_example = parse-Reads_iff strict (1 ∷ 2 ∷ []) (err 0)

encode-parse_example :
    (s : Bool) × (two.signature ≡ s)
    × (encode strict_codec two s (drop 192 presented) ≡ presented)
    × (unsigned_bytes strict_codec two ≡ take 128 presented)
encode-parse_example =
    encode-parse strict_codec strict_codec-IsCanonical presented presented-AreBytes presented_read
