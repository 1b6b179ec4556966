-- ===== src/Tests/Client.antt =====
-- The theorems on the local node at a concrete voucher.
use guillotine.Base.{
  length, List, ℕ, ◌+◌, ◌*◌, ◌≡◌, ◌≢◌, refl, Bool, true, false, none, some, [], ◌∷◌, ◌&&◌, Bytes,
  ok, arith, zeros, ◌==◌, to_le_bytes,
}
use guillotine.Pallet.Config.{State}
use guillotine.Pallet.Voucher.{Voucher, parse}
use guillotine.Pallet.Mock.{mock_with, mock_with-IsLawful, codec_with, bytes_of}
use guillotine.Pallet.Claim.{claim}
use guillotine.Pallet.Claim.Rules.{IsSized}
use guillotine.Client.Payment.{
  Surroundings, session_or_default, amount_or_default, url_or_default, pay_payment_request,
}
use guillotine.Client.Payment.Refused.{
  IsOrdinary, pay_payment_request-read, pay_payment_request-refused,
}
use guillotine.Client.Packing.Signs.{IsBinding}
use guillotine.Client.Packing.Layout.{hex_from}
use guillotine.Client.{decimal_from, slot, oracle_block, no_redeem_before_block}
use guillotine.Client.Packing.{Hex, number, VoucherData, Toolkit, pack_and_sign_voucher}
use guillotine.Client.Packing.Refused.{IsSigned, swap, read_back, parse-pack_and_sign_voucher}

abbrev from_hex : Hex → Bytes
from_hex [] = []
from_hex (high ∷ []) = high ∷ []
from_hex (high ∷ low ∷ rest) = (16 * high + low) ∷ from_hex rest

abbrev toolkit : Toolkit
toolkit = record {
  hex_to_u8a = from_hex;
  sign = λ m. bytes_of 64 true;
  hex_to_u8a-nil = refl;
  hex_to_u8a-cons = λ high low rest. refl;
}

-- A voucher for the account `true`, from the account `false`.
abbrev paid_voucher : VoucherData
paid_voucher = record {
  oracle_block = 4103;
  difficulty = 2;
  no_redeem_before_block = number 7048;
  value_if_paid = 4;
  price_list_commit = zeros 64;
  sender_pub_key = zeros 64;
  recipient_pub_key = 0 ∷ 1 ∷ zeros 62;
  nonce = zeros 64;
}

-- A signature verifies for messages of 192 bytes.
abbrev verify : Bool → Bytes → Bool → Bool
verify s m key = s && length m == 192

paid_voucher-IsSigned : IsSigned (codec_with verify) toolkit paid_voucher false true true
unfolding to_le_bytes
paid_voucher-IsSigned = record {
  packable = record {
    oracle_block = omega arith;
    difficulty = omega arith;
    no_redeem_before_block = omega arith;
    value_if_paid = omega arith;
    commit = refl;
    sender = refl;
    recipient = refl;
    nonce = refl;
  };
  sender_key = refl;
  recipient_key = refl;
  commit_bytes = omega arith;
  signature_bytes = refl;
}

parse-pack_and_sign_voucher_example :
    (voucher : Bytes) × (pack_and_sign_voucher toolkit paid_voucher "sr25519" ≡ ok voucher)
    × (parse (mock_with verify) voucher
        ≡ ok (read_back (codec_with verify) toolkit paid_voucher false true true))
parse-pack_and_sign_voucher_example =
    parse-pack_and_sign_voucher (codec_with verify) toolkit paid_voucher false true true
      paid_voucher-IsSigned

-- A node whose keys are those of the two accounts.
abbrev surroundings : Surroundings
surroundings = record {
  self_pubkey = zeros 64;
  remote_pubkey = 0 ∷ 1 ∷ zeros 62;
  sesh = 7;
  default_commit = zeros 64;
  double_blake2 = λ url. zeros 64;
  parse_int = λ nonce. 5000;
}

toolkit-IsBinding : IsBinding (mock_with verify) toolkit
unfolding to_le_bytes
toolkit-IsBinding = record {
  length-sign = λ m. refl;
  binding = λ m other s key size short decoded verified. ground arith;
}

abbrev begin : State (mock_with verify)
begin = record { system = record { number = 0; events = [] }; history = λ b. none }

begin-IsSized : IsSized (mock_with verify) begin
begin-IsSized b rand e = cc

-- The head block of the pallet's test, 6568.
abbrev head_block : List ℕ
head_block = 6 ∷ 5 ∷ 6 ∷ 8 ∷ []

payment-IsOrdinary :
    IsOrdinary
      (codec_with verify)
      toolkit
      surroundings
      none
      (some 4)
      none
      head_block
      false
      true
      true
unfolding session_or_default amount_or_default url_or_default to_le_bytes decimal_from
payment-IsOrdinary = record {
  short = omega arith;
  decimal = omega arith;
  sesh = omega arith;
  difficulty = omega arith;
  value = omega arith;
  block = omega arith;
  commit = refl;
  commit_bytes = omega arith;
  nonce = refl;
  sender_key = refl;
  recipient_key = refl;
  signature_bytes = refl;
}

-- The numbers of that test: the oracle block 6144, and 65682048 digit by digit.
block_of_test : oracle_block head_block 0 ≡ 0x1800
unfolding oracle_block decimal_from
block_of_test = refl

digits_of_test : hex_from 0 (no_redeem_before_block head_block) ≡ 0x65682048
unfolding no_redeem_before_block
digits_of_test = refl

pay_payment_request-read_example :
    (voucher : Bytes) × (pay_payment_request toolkit surroundings none
        (some 4)
        none
        (some head_block)
      ≡ ok voucher)
    × ((v : Voucher (mock_with verify)) × (parse (mock_with verify) voucher ≡ ok v)
        × (v.oracle_block
            ≡ swap
                (oracle_block head_block (slot (session_or_default surroundings none).sesh 5000)))
        × (v.difficulty ≡ swap (session_or_default surroundings none).difficulty)
        × (v.no_redeem_before_block ≡ swap 0x65682048)
        × (v.value_if_paid ≡ swap (amount_or_default (some 4)))
        × (v.sender_pk ≡ false)
        × (v.recipient_pk ≡ true))
pay_payment_request-read_example =
    pay_payment_request-read (codec_with verify) toolkit surroundings none (some 4) none head_block
      false true true payment-IsOrdinary

abbrev paid_bytes : Bytes
paid_bytes =
    (pay_payment_request-read (codec_with verify) toolkit surroundings none (some 4) none head_block
      false true true payment-IsOrdinary).0

paid : pay_payment_request toolkit surroundings none (some 4) none (some head_block) ≡ ok paid_bytes
paid =
    (pay_payment_request-read (codec_with verify) toolkit surroundings none (some 4) none head_block
      false true true payment-IsOrdinary).1

pay_payment_request-refused_example :
    (claim (mock_with verify) (some true) paid_bytes begin).0 ≢ ok tt
pay_payment_request-refused_example =
    pay_payment_request-refused (mock_with verify) (mock_with-IsLawful verify) toolkit
      toolkit-IsBinding surroundings none (some 4) none (some head_block) paid (some true) begin
      begin-IsSized
