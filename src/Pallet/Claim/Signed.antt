-- ===== src/Pallet/Claim/Signed.antt =====
-- What the signed bytes of a voucher determine.
use guillotine.Base.{
  ℕ, ◌≤◌, ◌≡◌, sym, ap, ◌∙◌, some, Bytes, ok, length, take, drop, drop-append_le, take-append_le,
  take-append-drop, length-take, length-drop, arith, some_inj, ◌-◌,
}
use guillotine.Pallet.Config.{Config, IsLawful, State, voucher_claimed}
use guillotine.Pallet.Voucher.{Voucher, parse}
use guillotine.Pallet.Voucher.Reading.{section_of, voucher_in}
use guillotine.Pallet.Voucher.Source.{parse-IsRead}
use guillotine.Pallet.Claim.{claim}
use guillotine.Pallet.Claim.Rules.{IsSized}
use guillotine.Pallet.Claim.Outcome.{redeemed, claim-eq_ok}

abbrev resigned : {C : Config} → Voucher C → C.Signature → Voucher C
resigned v signature = record v { signature = signature }

-- A section that ends within the first bytes reads only these.
section_of-take :
    (w : Bytes) (n a b : ℕ)
    → a ≤ b
    → b ≤ n
    → n ≤ length w
    → section_of (take n w) a b ≡ section_of w a b
section_of-take w n a b h k l =
    let start : a ≤ length (take n w) = omega (arith, length-take {0} n w) in
    let room : b - a ≤ length (drop a (take n w)) =
      omega (arith, length-drop {0} a (take n w), length-take {0} n w) in
    sym (take-append_le (b - a) (drop a (take n w)) (drop n w) room)
    ∙ ap (take (b - a)) (sym (drop-append_le a (take n w) (drop n w) start))
    ∙ ap (λ u. section_of u a b) (take-append-drop n w)

module _ (C : Config) (w x : Bytes) (same : take 128 w ≡ take 128 x) where
  same_section :
      192 ≤ length w
      → 192 ≤ length x
      → (a b : ℕ) → a ≤ b
      → b ≤ 128
      → section_of w a b ≡ section_of x a b
  same_section p q a b h k =
      sym (section_of-take w 128 a b h k (omega arith))
      ∙ ap (λ u. section_of u a b) same
      ∙ section_of-take x 128 a b h k (omega arith)

  same_voucher :
      192 ≤ length w
      → 192 ≤ length x
      → {a b c d : C.AccountId} (g h : C.Sr25519Signature) → a ≡ c
      → b ≡ d
      → resigned (voucher_in C w a b g) (C.from_sr25519 h) ≡ voucher_in C x c d h
  same_voucher p q g h e f =
      let at = same_section p q in
      rw (
        at 0 4 (omega arith) (omega arith),
        at 4 8 (omega arith) (omega arith),
        at 8 12 (omega arith) (omega arith),
        at 12 16 (omega arith) (omega arith),
        at 16 32 (omega arith) (omega arith),
        at 96 128 (omega arith) (omega arith),
        e,
        f,
      )

  -- Inputs with the same 128 bytes are read as the same voucher, but for the signature.
  parse-signed :
      {u v : Voucher C} → parse C w ≡ ok u → parse C x ≡ ok v → resigned u v.signature ≡ v
  parse-signed {u} {v} e f =
      let r = parse-IsRead C w e in
      let q = parse-IsRead C x f in
      let at = same_section r.long q.long in
      let senders : r.sender ≡ q.sender = some_inj (
        sym r.sender_decoded
        ∙ ap C.decode_account (at 32 64 (omega arith) (omega arith))
        ∙ q.sender_decoded) in
      let recipients : r.recipient ≡ q.recipient = some_inj (
        sym r.recipient_decoded
        ∙ ap C.decode_account (at 64 96 (omega arith) (omega arith))
        ∙ q.recipient_decoded) in
      ap (λ t. resigned t v.signature) r.voucher
      ∙ ap (λ t. resigned (voucher_in C w r.sender r.recipient r.s) t.signature) q.voucher
      ∙ same_voucher r.long q.long r.s q.s senders recipients
      ∙ sym q.voucher

module _ (C : Config) (L : IsLawful C) (origin_w origin_x : C.Origin) (w x : Bytes)
    (s t : State C) where
  -- The signed 128 bytes determine what is paid: two claims that succeed, of inputs with the same
  -- first 128 bytes, by any callers and in any two states whose histories hold 32-byte hashes,
  -- are by the same account and deposit the same event.
  pub claim-signed :
      IsSized C s
      → IsSized C t
      → take 128 w ≡ take 128 x
      → (claim C origin_w w s).0 ≡ ok tt
      → (claim C origin_x x t).0 ≡ ok tt
      → (who : C.AccountId) × (v : Voucher C) × (C.ensure_signed origin_w ≡ some who)
        × (C.ensure_signed origin_x ≡ some who)
        × (claim C origin_w w s ≡ (ok tt, redeemed C origin_w w s who v))
        × (claim C origin_x x t ≡ (ok tt, redeemed C origin_x x t who v))
  claim-signed sized_s sized_t same e f =
      let (who, u, _, a, _, _, paid_w) = claim-eq_ok C origin_w w s L sized_s e in
      let (whom, v, _, b, _, _, paid_x) = claim-eq_ok C origin_x x t L sized_t f in
      let read = parse-signed C w x same a.parsed b.parsed in
      let payee : whom ≡ who =
        sym b.addressed ∙ sym (ap (λ y. y.recipient_pk) read) ∙ a.addressed in
      let worth : v.value_if_paid ≡ u.value_if_paid = sym (ap (λ y. y.value_if_paid) read) in
      (
        who,
        u,
        a.signed,
        b.signed ∙ ap some payee,
        paid_w,
        paid_x
            ∙ ap (λ y. (ok tt, redeemed C origin_x x t y v)) payee
            ∙ ap
                (λ n.
                  (ok tt, record t { system = C.deposit_event t.system (voucher_claimed n who) }))
                worth,
      )
