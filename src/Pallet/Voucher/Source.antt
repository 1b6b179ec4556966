-- ===== src/Pallet/Voucher/Source.antt =====
-- The bytes that a voucher was read from.
use guillotine.Base.{
  ℕ, ◌+◌, ◌-◌, ◌^◌, ◌≤◌, ◌<◌, ◌≡◌, sym, ap, ◌∙◌, some, ◌++◌, Bytes, Result, ok, ok_inj, ok_ne_err,
  length, take, drop, drop-drop, take-append-drop, length-slice, from_le_bytes, to_le_bytes, arith,
  AreBytes, AreBytes-take, AreBytes-drop, from_le_bytes-lt_of, to_le_bytes-from_le_bytes_of,
}
use guillotine.Pallet.Config.{Config}
use guillotine.Pallet.Voucher.{Voucher, parse}
use guillotine.Pallet.Voucher.Layout.{Codec, IsInRange, unsigned_bytes, encode, take-encode}
use guillotine.Pallet.Voucher.Reading.{section_of, voucher_in}
use guillotine.Pallet.Voucher.Canonical.{
  Reads, short, bad_sender, bad_recipient, bad_signature, whole, parse-Reads,
}

-- What is encoded is what was decoded: each value has one encoding.
pub record IsCanonical {C : Config} (K : Codec C) : Type 0 where
  pub encode_account-decode_account :
      (b : Bytes) {a : C.AccountId}
      → length b ≡ 32
      → AreBytes b
      → C.decode_account b ≡ some a
      → K.encode_account a ≡ b
  pub encode_sr25519-decode_sr25519 :
      (b : Bytes) {s : C.Sr25519Signature}
      → length b ≡ 64
      → AreBytes b
      → C.decode_sr25519 b ≡ some s
      → K.encode_sr25519 s ≡ b

module _ (w : Bytes) (a b : ℕ) (h : a ≤ b) where
  section_of-append-drop : section_of w a b ++ drop b w ≡ drop a w
  section_of-append-drop =
      let end : a + (b - a) ≡ b = omega arith in
      ap (λ r. section_of w a b ++ r) (rw (drop-drop a (b - a) w, end))
      ∙ take-append-drop (b - a) (drop a w)

  section_of-AreBytes : AreBytes w → AreBytes (section_of w a b)
  section_of-AreBytes k = AreBytes-take (b - a) (drop a w) (AreBytes-drop a w k)

  from_le_bytes-section_of :
      b ≤ length w → AreBytes w → from_le_bytes (section_of w a b) < 256 ^ (b - a)
  from_le_bytes-section_of l k =
      from_le_bytes-lt_of (b - a) (section_of w a b) (length-slice w a b h l)
        (section_of-AreBytes k)

  to_le_bytes-section_of :
      b ≤ length w
      → AreBytes w
      → to_le_bytes (b - a) (from_le_bytes (section_of w a b)) ≡ section_of w a b
  to_le_bytes-section_of l k =
      to_le_bytes-from_le_bytes_of (b - a) (section_of w a b) (length-slice w a b h l)
        (section_of-AreBytes k)

-- A voucher that was read, and the values that the decoders gave.
pub record IsRead (C : Config) (w : Bytes) (v : Voucher C) : Type 0 where
  pub sender : C.AccountId
  pub recipient : C.AccountId
  pub s : C.Sr25519Signature
  pub long : 192 ≤ length w
  pub sender_decoded : C.decode_account (section_of w 32 64) ≡ some sender
  pub recipient_decoded : C.decode_account (section_of w 64 96) ≡ some recipient
  pub signature_decoded : C.decode_sr25519 (section_of w 128 192) ≡ some s
  pub voucher : v ≡ voucher_in C w sender recipient s

module _ (C : Config) (w : Bytes) where
  IsRead-of : {r : Result ℕ (Voucher C)} {v : Voucher C} → Reads C w r → r ≡ ok v → IsRead C w v
  IsRead-of (short e h) q = absurd (ok_ne_err (sym q ∙ e))
  IsRead-of (bad_sender e h a) q = absurd (ok_ne_err (sym q ∙ e))
  IsRead-of (bad_recipient e h a b) q = absurd (ok_ne_err (sym q ∙ e))
  IsRead-of (bad_signature e h a b c) q = absurd (ok_ne_err (sym q ∙ e))
  IsRead-of (whole {sender} {recipient} {s} e h a b c) q = record {
    sender = sender;
    recipient = recipient;
    s = s;
    long = h;
    sender_decoded = a;
    recipient_decoded = b;
    signature_decoded = c;
    voucher = ok_inj (sym q ∙ e);
  }

  pub parse-IsRead : {v : Voucher C} → parse C w ≡ ok v → IsRead C w v
  parse-IsRead = IsRead-of (parse-Reads C w)

  voucher_in-IsInRange :
      192 ≤ length w
      → AreBytes w
      → (sender recipient : C.AccountId) (s : C.Sr25519Signature)
      → IsInRange (voucher_in C w sender recipient s)
  voucher_in-IsInRange h k sender recipient s = record {
    oracle_block = from_le_bytes-section_of w 0 4 (omega arith) (omega arith) k;
    difficulty = from_le_bytes-section_of w 4 8 (omega arith) (omega arith) k;
    no_redeem_before_block = from_le_bytes-section_of w 8 12 (omega arith) (omega arith) k;
    value_if_paid = from_le_bytes-section_of w 12 16 (omega arith) (omega arith) k;
    price_list_commit = from_le_bytes-section_of w 16 32 (omega arith) (omega arith) k;
    nonce = length-slice w 96 128 (omega arith) (omega arith);
  }

  -- A voucher that is read from bytes has its numbers in the ranges of u32 and u128 and a nonce
  -- of 32 bytes.
  pub parse-IsInRange : {v : Voucher C} → AreBytes w → parse C w ≡ ok v → IsInRange v
  parse-IsInRange k e =
      let r = parse-IsRead e in
      rw r.voucher (voucher_in-IsInRange r.long k r.sender r.recipient r.s)

module _ {C : Config} (K : Codec C) (canonical : IsCanonical K) (w : Bytes) where
  encode-voucher_in :
      {sender recipient : C.AccountId} {s : C.Sr25519Signature}
      → 192 ≤ length w
      → AreBytes w
      → C.decode_account (section_of w 32 64) ≡ some sender
      → C.decode_account (section_of w 64 96) ≡ some recipient
      → C.decode_sr25519 (section_of w 128 192) ≡ some s
      → encode K (voucher_in C w sender recipient s) s (drop 192 w) ≡ w
  encode-voucher_in h k a b c = rw (
    to_le_bytes-section_of w 0 4 (omega arith) (omega arith) k,
    to_le_bytes-section_of w 4 8 (omega arith) (omega arith) k,
    to_le_bytes-section_of w 8 12 (omega arith) (omega arith) k,
    to_le_bytes-section_of w 12 16 (omega arith) (omega arith) k,
    to_le_bytes-section_of w 16 32 (omega arith) (omega arith) k,
    canonical.encode_account-decode_account (section_of w 32 64)
        (length-slice w 32 64 (omega arith) (omega arith))
        (section_of-AreBytes w 32 64 (omega arith) k) a,
    canonical.encode_account-decode_account (section_of w 64 96)
        (length-slice w 64 96 (omega arith) (omega arith))
        (section_of-AreBytes w 64 96 (omega arith) k) b,
    canonical.encode_sr25519-decode_sr25519 (section_of w 128 192)
        (length-slice w 128 192 (omega arith) (omega arith))
        (section_of-AreBytes w 128 192 (omega arith) k) c,
    section_of-append-drop w 128 192 (omega arith),
    section_of-append-drop w 96 128 (omega arith),
    section_of-append-drop w 64 96 (omega arith),
    section_of-append-drop w 32 64 (omega arith),
    section_of-append-drop w 16 32 (omega arith),
    section_of-append-drop w 12 16 (omega arith),
    section_of-append-drop w 8 12 (omega arith),
    section_of-append-drop w 4 8 (omega arith),
    section_of-append-drop w 0 4 (omega arith),
  )

  -- If each account id and each signature has one encoding only, then the encoding of a voucher
  -- that was read, with the signature that was decoded and the bytes behind the 192nd, is the
  -- input; the 128 bytes that are verified and hashed are the encoding of its other fields.
  pub encode-parse :
      {v : Voucher C}
      → AreBytes w
      → parse C w ≡ ok v
      → (s : C.Sr25519Signature) × (v.signature ≡ C.from_sr25519 s)
        × (encode K v s (drop 192 w) ≡ w)
        × (unsigned_bytes K v ≡ take 128 w)
  encode-parse {v} k e =
      let r = parse-IsRead C w e in
      let whole_input : encode K v r.s (drop 192 w) ≡ w =
        ap (λ u. encode K u r.s (drop 192 w)) r.voucher
        ∙ encode-voucher_in r.long k r.sender_decoded r.recipient_decoded r.signature_decoded in
      (
        r.s,
        ap (λ u. u.signature) r.voucher,
        whole_input,
        sym (take-encode K v r.s (drop 192 w) (parse-IsInRange C w k e))
            ∙ ap (take 128) whole_input,
      )
