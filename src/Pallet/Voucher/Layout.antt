-- ===== src/Pallet/Voucher/Layout.antt =====
-- The byte layout of a voucher, as the table in README.md gives it, and its round trip.
use guillotine.Base.{
  ℕ, ◌+◌, ◌-◌, ◌^◌, ◌≤◌, ◌<◌, ◌≡◌, refl, [], ◌∷◌, ◌++◌, List, some, Bytes, ok, length, take,
  length-append, slice, slice-chunks, chunks, chunks-append, take-append_length, ap, sym, ◌∙◌, size,
  to_array-ok, to_le_bytes, length-to_le_bytes, from_le_bytes-to_le_bytes, arith, le→ltb,
}
use guillotine.Pallet.Config.{Config}
use guillotine.Pallet.Voucher.{Voucher, read_uint, parse_fields, parse}

-- SCALE encoding of account ids and of signatures, which `decode` undoes.
pub record Codec (C : Config) : Type 0 where
  pub encode_account : C.AccountId → Bytes
  pub encode_sr25519 : C.Sr25519Signature → Bytes
  pub length-encode_account : (a : C.AccountId) → length (encode_account a) ≡ 32
  pub length-encode_sr25519 : (s : C.Sr25519Signature) → length (encode_sr25519 s) ≡ 64
  pub decode_account-encode_account :
      (a : C.AccountId) → C.decode_account (encode_account a) ≡ some a
  pub decode_sr25519-encode_sr25519 :
      (s : C.Sr25519Signature) → C.decode_sr25519 (encode_sr25519 s) ≡ some s

-- The ranges of the field types `u32`, `u128` and `H256`.
pub record IsInRange {C : Config} (v : Voucher C) : Type 0 where
  pub oracle_block : v.oracle_block < 2 ^ 32
  pub difficulty : v.difficulty < 2 ^ 32
  pub no_redeem_before_block : v.no_redeem_before_block < 2 ^ 32
  pub value_if_paid : v.value_if_paid < 2 ^ 32
  pub price_list_commit : v.price_list_commit < 2 ^ 128
  pub nonce : length v.nonce ≡ 32

module _ {C : Config} (K : Codec C) where
  -- Bytes 0 to 127, one piece for each row of the table.
  abbrev pub pieces : Voucher C → List Bytes
  pieces v =
      to_le_bytes 4 v.oracle_block
      ∷ to_le_bytes 4 v.difficulty
      ∷ to_le_bytes 4 v.no_redeem_before_block
      ∷ to_le_bytes 4 v.value_if_paid
      ∷ to_le_bytes 16 v.price_list_commit
      ∷ K.encode_account v.sender_pk
      ∷ K.encode_account v.recipient_pk
      ∷ v.nonce
      ∷ []

  abbrev pub unsigned_bytes : Voucher C → Bytes
  unsigned_bytes v = chunks (pieces v) []

  -- The 192 bytes of a voucher with its signature, and what follows them.
  abbrev pub encode : Voucher C → C.Sr25519Signature → Bytes → Bytes
  encode v s rest = chunks (pieces v) (K.encode_sr25519 s ++ rest)

read_uint-chunks :
    {E : Type 0} (n x : ℕ) (fs : List Bytes) (rest : Bytes) (a b : ℕ)
    → size fs ≡ a
    → a + n ≡ b
    → x < 256 ^ n
    → read_uint {E = E} n (chunks fs (to_le_bytes n x ++ rest)) a b ≡ ok x
unfolding read_uint
read_uint-chunks n x fs rest a b h e k =
    let span : length (to_le_bytes n x) ≡ b - a = omega (arith, length-to_le_bytes n x) in
    let order : a ≤ b = omega arith in
    rw (
      slice-chunks fs (to_le_bytes n x) rest a b h span order,
      to_array-ok n (to_le_bytes n x) (length-to_le_bytes n x),
      from_le_bytes-to_le_bytes n x k,
    )

-- `parse_fields` from what each of its reads gives.
parse_fields-ok :
    (C : Config) (w signature_bytes sender_bytes recipient_bytes : Bytes) (v : Voucher C)
    (s : C.Sr25519Signature)
    → read_uint {E = ℕ} 4 w 0 4 ≡ ok v.oracle_block
    → read_uint {E = ℕ} 4 w 4 8 ≡ ok v.difficulty
    → read_uint {E = ℕ} 4 w 8 12 ≡ ok v.no_redeem_before_block
    → read_uint {E = ℕ} 4 w 12 16 ≡ ok v.value_if_paid
    → read_uint {E = ℕ} 16 w 16 32 ≡ ok v.price_list_commit
    → slice {E = ℕ} w 32 64 ≡ ok sender_bytes
    → C.decode_account sender_bytes ≡ some v.sender_pk
    → slice {E = ℕ} w 64 96 ≡ ok recipient_bytes
    → C.decode_account recipient_bytes ≡ some v.recipient_pk
    → slice {E = ℕ} w 96 128 ≡ ok v.nonce
    → length v.nonce ≡ 32
    → slice {E = ℕ} w 128 192 ≡ ok signature_bytes
    → C.decode_sr25519 signature_bytes ≡ some s
    → parse_fields C w ≡ ok (record v { signature = C.from_sr25519 s })
unfolding parse_fields
parse_fields-ok C w _ _ _ v s a b c d e f g h i j k l m =
    rw (a, b, c, d, e, f, g, h, i, j, to_array-ok 32 v.nonce k, l, m)

module _ {C : Config} (K : Codec C) (v : Voucher C) (s : C.Sr25519Signature) (rest : Bytes) where
  length-unsigned_bytes : IsInRange v → length (unsigned_bytes K v) ≡ 128
  length-unsigned_bytes r =
      omega (arith, r.nonce, length-append {0} {A = ℕ}, length-to_le_bytes, K.length-encode_account)

  -- The first 128 of these bytes are those that are signed.
  pub take-encode : IsInRange v → take 128 (encode K v s rest) ≡ unsigned_bytes K v
  take-encode r =
      let signature = K.encode_sr25519 s ++ rest in
      ap (take 128) (chunks-append (pieces K v) [] signature)
      ∙ ap (λ n. take n (unsigned_bytes K v ++ signature)) (sym (length-unsigned_bytes r))
      ∙ take-append_length (unsigned_bytes K v) signature

  length-encode : IsInRange v → 192 ≤ length (encode K v s rest)
  length-encode r = omega (
    arith,
    r.nonce,
    length-append {0} {A = ℕ},
    length-to_le_bytes,
    K.length-encode_account,
    K.length-encode_sr25519 s,
  )

  -- Where each piece begins.
  offsets :
      IsInRange v
      → (size (take 5 (pieces K v)) ≡ 32)
        × (size (take 6 (pieces K v)) ≡ 64)
        × (size (take 7 (pieces K v)) ≡ 96)
        × (size (pieces K v) ≡ 128)
  offsets r = omega (arith, r.nonce, length-to_le_bytes, K.length-encode_account)

  -- Parsing the 192 bytes that the documented layout gives for a voucher in range, with any bytes
  -- behind them, gives the voucher back.
  pub parse-encode :
      IsInRange v → parse C (encode K v s rest) ≡ ok (record v { signature = C.from_sr25519 s })
  unfolding parse
  parse-encode r =
      let before = λ (n : ℕ). take n (pieces K v) in
      let (at32, at64, at96, at128) = offsets r in
      let sender = K.encode_account v.sender_pk in
      let recipient = K.encode_account v.recipient_pk in
      rw (le→ltb _ _ (length-encode r)) (
        parse_fields-ok C (encode K v s rest) (K.encode_sr25519 s) sender recipient v s
          (read_uint-chunks 4 _ (before 0) _ 0 4 refl refl r.oracle_block)
          (read_uint-chunks 4 _ (before 1) _ 4 8 (omega (arith, length-to_le_bytes)) refl
            r.difficulty)
          (read_uint-chunks 4 _ (before 2) _ 8 12 (omega (arith, length-to_le_bytes)) refl
            r.no_redeem_before_block)
          (read_uint-chunks 4 _ (before 3) _ 12 16 (omega (arith, length-to_le_bytes)) refl
            r.value_if_paid)
          (read_uint-chunks 16 _ (before 4) _ 16 32 (omega (arith, length-to_le_bytes)) refl
            r.price_list_commit)
          (slice-chunks (before 5) sender _ 32 64 at32 (K.length-encode_account _) (omega arith))
          (K.decode_account-encode_account _)
          (slice-chunks (before 6) recipient _ 64 96 at64 (K.length-encode_account _) (omega arith))
          (K.decode_account-encode_account _)
          (slice-chunks (before 7) v.nonce _ 96 128 at96 r.nonce (omega arith)) r.nonce
          (slice-chunks (pieces K v) (K.encode_sr25519 s) rest 128 192 at128
            (K.length-encode_sr25519 s) (omega arith))
          (K.decode_sr25519-encode_sr25519 s))
