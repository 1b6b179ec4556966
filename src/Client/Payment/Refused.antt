-- ===== src/Client/Payment/Refused.antt =====
-- What the pallet makes of the voucher of a payment.
use Prim.Native.String.{String}
use guillotine.Base.{
  ℕ, ◌+◌, ◌^◌, ◌≤◌, ◌<◌, ◌≡◌, ◌≢◌, refl, ap, ◌∙◌, none, some, Option, List, [], ◌∷◌, ◌++◌, Bytes,
  ok, ok_ne_err, sym, length, length-append, arith, AreBytes,
}
use guillotine.Pallet.Config.{Config, IsLawful, State}
use guillotine.Pallet.Voucher.{Voucher, parse}
use guillotine.Pallet.Voucher.Layout.{Codec}
use guillotine.Pallet.Claim.{claim}
use guillotine.Pallet.Claim.Rules.{IsSized}
use guillotine.Client.{decimal_from, slot, oracle_block, no_redeem_before_block}
use guillotine.Client.Slot.{slot-lt}
use guillotine.Client.Packing.{Hex, VoucherData, Toolkit}
use guillotine.Client.Packing.Layout.{message, AreDigits, hex_from}
use guillotine.Client.Packing.Signs.{IsBinding, claim-packed}
use guillotine.Client.Packing.Refused.{IsSigned, swap, read_back, parse-pack_and_sign_voucher}
use guillotine.Client.Payment.{
  SessionInfo, Surroundings, session_or_default, amount_or_default, url_or_default, voucher_data,
  pay_payment_request,
}

AreDigits-append : (s t : Hex) → AreDigits s → AreDigits t → AreDigits (s ++ t)
AreDigits-append [] t h k = k
AreDigits-append (d ∷ s) t h k = (h.0, AreDigits-append s t h.1 k)

module _ (C : Config) (L : IsLawful C) (T : Toolkit) (B : IsBinding C T) (W : Surroundings)
    (session : Option SessionInfo) (amount : Option ℕ) (url : Option String) where
  -- Whatever the session, the amount, the url and the head block, no claim of a voucher that
  -- payPaymentRequest makes succeeds, by any caller and in any state whose history holds 32-byte
  -- hashes, if the signatures of the local node have 64 bytes and one that it makes for 192 bytes
  -- verifies for no 128 bytes.
  pub pay_payment_request-refused :
      (head : Option (List ℕ)) {voucher : Bytes}
      → pay_payment_request T W session amount url head ≡ ok voucher
      → (origin : C.Origin) (s : State C) → IsSized C s
      → (claim C origin voucher s).0 ≢ ok tt
  unfolding pay_payment_request
  pay_payment_request-refused none made origin s sized = absurd (ok_ne_err (sym made))
  pay_payment_request-refused (some current_block) made origin s sized =
      claim-packed C L T B _ _ origin s sized made

module _ {C : Config} (K : Codec C) (T : Toolkit) (W : Surroundings) (session : Option SessionInfo)
    (amount : Option ℕ) (url : Option String) (current_block : List ℕ)
    (sender recipient : C.AccountId) (signature : C.Sr25519Signature) where
  abbrev pub used : SessionInfo
  used = session_or_default W session

  abbrev pub data_of_payment : VoucherData
  data_of_payment =
      voucher_data W used (amount_or_default amount) (url_or_default url) current_block

  -- A head block of at most four digits, a session value below 1024, numbers of 32 bits, hashes
  -- of 32 bytes, and keys and a signature that encode accounts and a signature.
  pub record IsOrdinary : Type 0 where
    pub sesh : used.sesh < 1024
    pub difficulty : used.difficulty < 2 ^ 32
    pub value : amount_or_default amount < 2 ^ 32
    pub short : length current_block ≤ 4
    pub decimal : AreDigits current_block
    pub block : decimal_from 0 current_block + 1024 < 2 ^ 32
    pub commit : length (T.hex_to_u8a used.price_list_commit) ≡ 32
    pub commit_bytes : AreBytes (T.hex_to_u8a used.price_list_commit)
    pub nonce : length (T.hex_to_u8a (W.double_blake2 (url_or_default url))) ≡ 32
    pub sender_key : T.hex_to_u8a used.self_pubkey ≡ K.encode_account sender
    pub recipient_key : T.hex_to_u8a W.remote_pubkey ≡ K.encode_account recipient
    pub signature_bytes : T.sign (message T data_of_payment) ≡ K.encode_sr25519 signature

  pub IsOrdinary-IsSigned : IsOrdinary → IsSigned K T data_of_payment sender recipient signature
  unfolding voucher_data oracle_block no_redeem_before_block
  IsOrdinary-IsSigned o =
      let nonce = W.double_blake2 (url_or_default url) in
      let place = slot-lt used.sesh (W.parse_int nonce) o.sesh in
      record {
        packable = record {
          oracle_block = omega (arith, o.block);
          difficulty = o.difficulty;
          no_redeem_before_block = (
            omega (arith, o.short, length-append {0} current_block (2 ∷ 0 ∷ 4 ∷ 8 ∷ [])),
            AreDigits-append current_block (2 ∷ 0 ∷ 4 ∷ 8 ∷ []) o.decimal (omega arith),
          );
          value_if_paid = o.value;
          commit = o.commit;
          sender = ap length o.sender_key ∙ K.length-encode_account sender;
          recipient = ap length o.recipient_key ∙ K.length-encode_account recipient;
          nonce = o.nonce;
        };
        sender_key = o.sender_key;
        recipient_key = o.recipient_key;
        commit_bytes = o.commit_bytes;
        signature_bytes = o.signature_bytes;
      }

  -- For a head block of at most four digits, a session value below 1024, numbers of 32 bits,
  -- hashes of 32 bytes, and keys and a signature of the known encodings, payPaymentRequest makes
  -- the voucher, and the pallet reads it as from the session's key, for the key that is fixed in
  -- the module, with its numbers' bytes in the other order; its first redeeming block is the text
  -- of the head block with 2048 behind it, read as hexadecimal digits.
  pub pay_payment_request-read :
      IsOrdinary
      → (voucher : Bytes) × (pay_payment_request T W session amount url (some current_block)
          ≡ ok voucher)
        × ((v : Voucher C) × (parse C voucher ≡ ok v)
            × (v.oracle_block
                ≡ swap (
                    oracle_block current_block
                      (slot used.sesh (W.parse_int (W.double_blake2 (url_or_default url))))))
            × (v.difficulty ≡ swap used.difficulty)
            × (v.no_redeem_before_block ≡ swap (hex_from 0 (current_block ++ 2 ∷ 0 ∷ 4 ∷ 8 ∷ [])))
            × (v.value_if_paid ≡ swap (amount_or_default amount))
            × (v.sender_pk ≡ sender)
            × (v.recipient_pk ≡ recipient))
  unfolding pay_payment_request voucher_data no_redeem_before_block
  pay_payment_request-read o =
      let g = IsOrdinary-IsSigned o in
      let d = data_of_payment in
      let (voucher, made, read) = parse-pack_and_sign_voucher K T d sender recipient signature g in
      (
        voucher,
        made,
        (read_back K T d sender recipient signature, read, refl, refl, refl, refl, refl, refl),
      )
