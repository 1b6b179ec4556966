-- ===== src/Pallet/Voucher/Canonical.antt =====
-- What each result of `Voucher::parse` says of the bytes it was given, and the bytes that a voucher
-- was read from.
use guillotine.Base.{
  ℕ, ◌≤◌, ◌<◌, ◌≡◌, ◌↔◌, sym, ◌∙◌, none, some, inl, inr, Bytes, Result, ok, err, length, ltb,
  ltb→lt, ltb→le, Bool-cases, Option-cases,
}
use guillotine.Pallet.Config.{Config}
use guillotine.Pallet.Voucher.{Voucher, parse}
use guillotine.Pallet.Voucher.Reading.{section_of, voucher_in, parse_lem}

module _ (C : Config) (w : Bytes) where
  -- The results of the parser, each with all that it says of the input.
  pub data Reads : Result ℕ (Voucher C) → Type 0 where
    short : {r : Result ℕ (Voucher C)} → r ≡ err 0 → length w < 192 → Reads r
    bad_sender :
        {r : Result ℕ (Voucher C)}
        → r ≡ err 1
        → 192 ≤ length w
        → C.decode_account (section_of w 32 64) ≡ none
        → Reads r
    bad_recipient :
        {r : Result ℕ (Voucher C)} {sender : C.AccountId}
        → r ≡ err 2
        → 192 ≤ length w
        → C.decode_account (section_of w 32 64) ≡ some sender
        → C.decode_account (section_of w 64 96) ≡ none
        → Reads r
    bad_signature :
        {r : Result ℕ (Voucher C)} {sender recipient : C.AccountId}
        → r ≡ err 3
        → 192 ≤ length w
        → C.decode_account (section_of w 32 64) ≡ some sender
        → C.decode_account (section_of w 64 96) ≡ some recipient
        → C.decode_sr25519 (section_of w 128 192) ≡ none
        → Reads r
    whole :
        {r : Result ℕ (Voucher C)} {sender recipient : C.AccountId} {s : C.Sr25519Signature}
        → r ≡ ok (voucher_in C w sender recipient s)
        → 192 ≤ length w
        → C.decode_account (section_of w 32 64) ≡ some sender
        → C.decode_account (section_of w 64 96) ≡ some recipient
        → C.decode_sr25519 (section_of w 128 192) ≡ some s
        → Reads r

module _ (C : Config) (w : Bytes) where
  parse_long : 192 ≤ length w → Reads C w (parse C w)
  parse_long h =
      let e = (parse_lem C w).1 h in
      elim (Option-cases (C.decode_account (section_of w 32 64))) [
        | inl a ↦ bad_sender (rw (e, a)) h a
        | inr (sender, a) ↦ elim (Option-cases (C.decode_account (section_of w 64 96))) [
          | inl b ↦ bad_recipient (rw (e, a, b)) h a b
          | inr (recipient, b) ↦ elim (Option-cases (C.decode_sr25519 (section_of w 128 192))) [
            | inl c ↦ bad_signature (rw (e, a, b, c)) h a b c
            | inr (s, c) ↦ whole (rw (e, a, b, c)) h a b c
          ]
        ]
      ]

  pub parse-Reads : Reads C w (parse C w)
  parse-Reads = elim (Bool-cases (ltb (length w) 192)) [
    | inl less ↦ let h = ltb→lt _ _ less in short ((parse_lem C w).0 h) h
    | inr more ↦ parse_long (ltb→le _ _ more)
  ]

  Reads-parse : {r : Result ℕ (Voucher C)} → Reads C w r → parse C w ≡ r
  Reads-parse (short e h) = (parse_lem C w).0 h ∙ sym e
  Reads-parse (bad_sender e h a) = rw ((parse_lem C w).1 h, a, e)
  Reads-parse (bad_recipient e h a b) = rw ((parse_lem C w).1 h, a, b, e)
  Reads-parse (bad_signature e h a b c) = rw ((parse_lem C w).1 h, a, b, c, e)
  Reads-parse (whole e h a b c) = rw ((parse_lem C w).1 h, a, b, c, e)

  -- The parser gives exactly what stands in its input: error 0 for fewer than 192 bytes, else
  -- error 1, 2 or 3 for the first of sender, recipient and signature that does not decode, and
  -- else the voucher whose fields stand at the documented offsets, in little-endian order. It
  -- never panics.
  pub parse-Reads_iff : (r : Result ℕ (Voucher C)) → (parse C w ≡ r) ↔ Reads C w r
  parse-Reads_iff r = (λ e. rw (← e) parse-Reads, Reads-parse)
