-- ===== src/Pallet/Voucher/Reading.antt =====
-- What `Voucher::parse` gives for every length of input.
use guillotine.Base.{
  ℕ, ◌-◌, ◌≤◌, ◌<◌, ◌≡◌, ◌≢◌, ◌↔◌, sym, ◌∙◌, Option, none, some, ◌++◌, inl, inr, Bytes, Result, ok,
  err, err_inj, err_inj, panic, ◌>>=◌, ok_or, length, take, drop, length-append, slice-ok,
  slice-append, length-slice, to_array-ok, from_le_bytes, arith, ltb, le→ltb, lt→ltb, ltb→lt,
  ltb→le, Bool-cases,
}
use guillotine.Pallet.Config.{Config}
use guillotine.Pallet.Voucher.{Voucher, read_uint, parse_fields, parse}

-- The bytes of `w` from `a` up to `b`.
abbrev pub section_of : Bytes → ℕ → ℕ → Bytes
section_of w a b = take (b - a) (drop a w)

read_uint-ok :
    {E : Type 0} (n : ℕ) (w : Bytes) (a b : ℕ)
    → a ≤ b
    → b ≤ length w
    → b - a ≡ n
    → read_uint {E = E} n w a b ≡ ok (from_le_bytes (section_of w a b))
unfolding read_uint
read_uint-ok n w a b h k e = rw (slice-ok w a b k, ← e, to_array-ok _ _ (length-slice w a b h k))

read_uint-append :
    {E : Type 0} (n : ℕ) (w rest : Bytes) (a b : ℕ)
    → a ≤ b
    → b ≤ length w
    → read_uint {E = E} n (w ++ rest) a b ≡ read_uint n w a b
unfolding read_uint
read_uint-append n w rest a b h k = rw (slice-append w rest a b h k)

-- Three decoders in a row fail with their own codes, and never panic.
decoders_fail :
    {A B S V : Type 0} (f : A → B → S → V) (a : Option A) (b : Option B) (s : Option S)
    → let r : Result ℕ V = (do x ← ok_or a 1; y ← ok_or b 2; z ← ok_or s 3; ok (f x y z)) in
      (r ≢ panic) × (r ≢ err 0)
decoders_fail f none b s = (λ e. cc, λ e. absurd (omega (arith, err_inj e)))
decoders_fail f (some x) none s = (λ e. cc, λ e. absurd (omega (arith, err_inj e)))
decoders_fail f (some x) (some y) none = (λ e. cc, λ e. absurd (omega (arith, err_inj e)))
decoders_fail f (some x) (some y) (some z) = (λ e. cc, λ e. cc)

module _ (C : Config) (w : Bytes) where
  -- The voucher that stands in `w`, once its keys and its signature are decoded.
  abbrev pub voucher_in : C.AccountId → C.AccountId → C.Sr25519Signature → Voucher C
  voucher_in sender recipient s = record {
    oracle_block = from_le_bytes (section_of w 0 4);
    difficulty = from_le_bytes (section_of w 4 8);
    no_redeem_before_block = from_le_bytes (section_of w 8 12);
    value_if_paid = from_le_bytes (section_of w 12 16);
    price_list_commit = from_le_bytes (section_of w 16 32);
    sender_pk = sender;
    recipient_pk = recipient;
    nonce = section_of w 96 128;
    signature = C.from_sr25519 s;
  }

  -- The decoders, in their order, are all that can fail.
  abbrev pub decode_in : Result ℕ (Voucher C)
  decode_in = do
    sender ← ok_or (C.decode_account (section_of w 32 64)) 1
    recipient ← ok_or (C.decode_account (section_of w 64 96)) 2
    s ← ok_or (C.decode_sr25519 (section_of w 128 192)) 3
    ok (voucher_in sender recipient s)

  parse_fields-decode_in : 192 ≤ length w → parse_fields C w ≡ decode_in
  unfolding parse_fields
  parse_fields-decode_in h = rw (
    read_uint-ok 4 w 0 4 (omega arith) (omega arith) (omega arith),
    read_uint-ok 4 w 4 8 (omega arith) (omega arith) (omega arith),
    read_uint-ok 4 w 8 12 (omega arith) (omega arith) (omega arith),
    read_uint-ok 4 w 12 16 (omega arith) (omega arith) (omega arith),
    read_uint-ok 16 w 16 32 (omega arith) (omega arith) (omega arith),
    slice-ok w 32 64 (omega arith),
    slice-ok w 64 96 (omega arith),
    slice-ok w 96 128 (omega arith),
    to_array-ok 32 _ (length-slice w 96 128 (omega arith) (omega arith)),
    slice-ok w 128 192 (omega arith),
  )

  -- A short input is error 0; any other is what the decoders make of it.
  pub parse_lem :
      ((length w < 192) → parse C w ≡ err 0) × ((192 ≤ length w) → parse C w ≡ decode_in)
  unfolding parse
  parse_lem = (λ h. rw (lt→ltb _ _ h), λ h. rw (le→ltb _ _ h) (parse_fields-decode_in h))

  decode_in_fails : (decode_in ≢ panic) × (decode_in ≢ err 0)
  decode_in_fails =
      decoders_fail voucher_in (C.decode_account (section_of w 32 64))
        (C.decode_account (section_of w 64 96)) (C.decode_sr25519 (section_of w 128 192))

  -- The parser panics on no input, of whatever length.
  pub parse-ne-panic : parse C w ≢ panic
  parse-ne-panic = elim (Bool-cases (ltb (length w) 192)) [
    | inl short ↦ rw (parse_lem.0 (ltb→lt _ _ short)) (λ e. cc)
    | inr long ↦ rw (parse_lem.1 (ltb→le _ _ long)) decode_in_fails.0
  ]

  -- The parser returns error 0 exactly for inputs shorter than 192 bytes.
  pub parse-err_zero_iff : (parse C w ≡ err 0) ↔ (length w < 192)
  parse-err_zero_iff = elim (Bool-cases (ltb (length w) 192)) [
    | inl short ↦ (λ _. ltb→lt _ _ short, parse_lem.0)
    | inr long ↦ (
      λ e. absurd (decode_in_fails.1 (sym (parse_lem.1 (ltb→le _ _ long)) ∙ e)),
      λ h. absurd (omega (arith, ltb→le _ _ long)),
    )
  ]

  -- Bytes past the 192nd are ignored.
  pub parse-append : (rest : Bytes) → 192 ≤ length w → parse C (w ++ rest) ≡ parse C w
  unfolding parse parse_fields
  parse-append rest h =
      let long : 192 ≤ length (w ++ rest) = omega (arith, length-append {0} w rest) in
      rw (
        le→ltb _ _ long,
        le→ltb _ _ h,
        read_uint-append 4 w rest 0 4 (omega arith) (omega arith),
        read_uint-append 4 w rest 4 8 (omega arith) (omega arith),
        read_uint-append 4 w rest 8 12 (omega arith) (omega arith),
        read_uint-append 4 w rest 12 16 (omega arith) (omega arith),
        read_uint-append 16 w rest 16 32 (omega arith) (omega arith),
        slice-append w rest 32 64 (omega arith) (omega arith),
        slice-append w rest 64 96 (omega arith) (omega arith),
        slice-append w rest 96 128 (omega arith) (omega arith),
        slice-append w rest 128 192 (omega arith) (omega arith),
      )
