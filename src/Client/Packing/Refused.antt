-- ===== src/Client/Packing/Refused.antt =====
-- What the pallet makes of a voucher that the local node packed.
use mathlib.Core.List.{append-nil}
use guillotine.Base.{
  ℕ, ◌+◌, ◌*◌, ◌/◌, ◌%◌, ◌^◌, ◌<◌, ◌≡◌, sym, ap, ◌∙◌, [], Bytes, ok, append_assoc, length, take,
  length-take, arith, from_le_bytes, to_le_bytes, to_be_bytes, length-to_be_bytes, AreBytes,
  to_be_bytes-AreBytes, to_le_bytes-from_le_bytes_of, from_le_bytes-lt, AreBytes-take,
}
use guillotine.Pallet.Config.{Config}
use guillotine.Pallet.Voucher.{Voucher, parse}
use guillotine.Pallet.Voucher.Layout.{Codec, IsInRange, encode, parse-encode}
use guillotine.Client.Packing.{VoucherData, Toolkit, pack_and_sign_voucher}
use guillotine.Client.Packing.Layout.{
  IsPackable, word_of, packed, message, pack_and_sign_voucher-packed,
}

-- A word of 32 bits with its bytes in the other order.
abbrev pub swap : ℕ → ℕ
swap n =
    n / 2 ^ 24 % 256 + 256 * (n / 2 ^ 16 % 256) + 2 ^ 16 * (n / 2 ^ 8 % 256) + 2 ^ 24 * (n % 256)

from_le_bytes-to_be_bytes : (n : ℕ) → from_le_bytes (to_be_bytes 4 n) ≡ swap n
unfolding from_le_bytes to_be_bytes
from_le_bytes-to_be_bytes n = omega arith

to_le_bytes-swap : (n : ℕ) → to_le_bytes 4 (swap n) ≡ to_be_bytes 4 n
to_le_bytes-swap n =
    ap (to_le_bytes 4) (sym (from_le_bytes-to_be_bytes n))
    ∙ to_le_bytes-from_le_bytes_of 4 (to_be_bytes 4 n) (length-to_be_bytes 4 n)
        (to_be_bytes-AreBytes 4 n)

swap-lt : (n : ℕ) → swap n < 2 ^ 32
swap-lt n = omega arith

-- The data of a voucher: its keys encode accounts, and its signature is one.
pub record IsSigned {C : Config} (K : Codec C) (T : Toolkit) (d : VoucherData)
    (sender recipient : C.AccountId) (signature : C.Sr25519Signature) : Type 0 where
  pub packable : IsPackable T d
  pub sender_key : T.hex_to_u8a d.sender_pub_key ≡ K.encode_account sender
  pub recipient_key : T.hex_to_u8a d.recipient_pub_key ≡ K.encode_account recipient
  pub commit_bytes : AreBytes (T.hex_to_u8a d.price_list_commit)
  pub signature_bytes : T.sign (message T d) ≡ K.encode_sr25519 signature

module _ {C : Config} (K : Codec C) (T : Toolkit) (d : VoucherData) (sender recipient : C.AccountId)
    (signature : C.Sr25519Signature) where
  -- The voucher that the pallet reads: its four numbers have their bytes in the other order.
  abbrev pub read_back : Voucher C
  read_back = record {
    oracle_block = swap d.oracle_block;
    difficulty = swap d.difficulty;
    no_redeem_before_block = swap (word_of d.no_redeem_before_block);
    value_if_paid = swap d.value_if_paid;
    price_list_commit = from_le_bytes (take 16 (T.hex_to_u8a d.price_list_commit));
    sender_pk = sender;
    recipient_pk = recipient;
    nonce = T.hex_to_u8a d.nonce;
    signature = C.from_sr25519 signature;
  }

  module _ (g : IsSigned K T d sender recipient signature) where
    abbrev kept : Bytes
    kept = take 16 (T.hex_to_u8a d.price_list_commit)

    kept-length : length kept ≡ 16
    kept-length =
        omega (arith, length-take {0} 16 (T.hex_to_u8a d.price_list_commit), g.packable.commit)

    kept-AreBytes : AreBytes kept
    kept-AreBytes = AreBytes-take 16 _ g.commit_bytes

    read_back-IsInRange : IsInRange read_back
    read_back-IsInRange = record {
      oracle_block = swap-lt d.oracle_block;
      difficulty = swap-lt d.difficulty;
      no_redeem_before_block = swap-lt (word_of d.no_redeem_before_block);
      value_if_paid = swap-lt d.value_if_paid;
      price_list_commit = rw kept-length at (from_le_bytes-lt kept kept-AreBytes);
      nonce = g.packable.nonce;
    }

    packed-encode : packed T d (T.sign (message T d)) ≡ encode K read_back signature []
    packed-encode =
        ap (packed T d) g.signature_bytes
        ∙ rw
            (
              to_le_bytes-swap d.oracle_block,
              to_le_bytes-swap d.difficulty,
              to_le_bytes-swap (word_of d.no_redeem_before_block),
              to_le_bytes-swap d.value_if_paid,
              to_le_bytes-from_le_bytes_of 16 kept kept-length kept-AreBytes,
              g.sender_key,
              g.recipient_key,
              append-nil (K.encode_sr25519 signature),
            )
            (simp (append_assoc, append-nil))

    -- Packing data with numbers of 32 bits and fields of 32 bytes, the first redeeming block
    -- being such a number or a text of at most 8 digits, succeeds, and the pallet reads the
    -- result as the voucher whose four numbers have their bytes in the other order, with the
    -- first 16 bytes of the commitment.
    pub parse-pack_and_sign_voucher :
        (voucher : Bytes) × (pack_and_sign_voucher T d "sr25519" ≡ ok voucher)
        × (parse C voucher ≡ ok read_back)
    parse-pack_and_sign_voucher =
        let size : length (T.sign (message T d)) ≡ 64 =
          ap length g.signature_bytes ∙ K.length-encode_sr25519 signature in
        (
          packed T d (T.sign (message T d)),
          pack_and_sign_voucher-packed T d g.packable size,
          ap (λ w. parse C w) packed-encode
              ∙ parse-encode K read_back signature [] read_back-IsInRange,
        )
