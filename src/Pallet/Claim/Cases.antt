-- ===== src/Pallet/Claim/Cases.antt =====
-- Every claim is admitted, or refused by the first test that fails.
use guillotine.Base.{
  ℕ, ◌/◌, ◌≤◌, ◌<◌, ◌≡◌, ◌≢◌, sym, ◌∙◌, inl, inr, ◌⊎◌, true, false, some, ◌++◌, Bytes, ok, err,
  panic, ok_ne_err, ◌>>=◌, ◌>>◌, ensure, length, take, length-take, from_le_bytes, to_array-ok,
  slice, slice-ok, arith, ltb, leb, ltb→lt, ltb→le, le→leb, leb→le, leb→lt, Bool-cases,
  Option-cases, Result-cases,
}
use guillotine.Pallet.Config.{
  Config, IsLawful, State, DispatchError, module_error, voucher_did_not_win, u256_max,
}
use guillotine.Pallet.Voucher.{Voucher, parse}
use guillotine.Pallet.Voucher.Reading.{parse_lem, parse-ne-panic}
use guillotine.Pallet.Claim.{hash_input, wins, check_claim}
use guillotine.Pallet.Claim.Rules.{
  IsSized, IsAdmissible, Admitted, IsRejected, unsigned, unreadable, misaddressed, early, forged,
  undrawn,
}

true_ne_false : true ≢ false
true_ne_false h = cc

hash_input-ok :
    {E : Type 0} (voucher rand : Bytes)
    → 192 ≤ length voucher
    → length rand ≡ 32
    → hash_input {E = E} (take 128 voucher) rand ≡ ok (take 128 voucher ++ rand)
unfolding hash_input
hash_input-ok voucher rand h k =
    let head : length (take 128 voucher) ≡ 128 = omega (arith, length-take {0} 128 voucher) in
    rw (to_array-ok 128 _ head, to_array-ok 32 rand k)

pub parse-ok_length :
    (C : Config) (voucher : Bytes) {v : Voucher C} → parse C voucher ≡ ok v → 192 ≤ length voucher
parse-ok_length C voucher e = elim (Bool-cases (ltb (length voucher) 192)) [
  | inl short ↦ absurd (ok_ne_err (sym e ∙ (parse_lem C voucher).0 (ltb→lt _ _ short)))
  | inr long ↦ ltb→le _ _ long
]

module _ (C : Config) (L : IsLawful C) {E : Type 0} where
  pub wins-lawful :
      (input : Bytes) (d : ℕ)
      → 0 < d
      → wins C {E = E} input d ≡ ok (ltb (from_le_bytes (C.blake2_256 input)) (u256_max / d))
  unfolding wins
  wins-lawful input d h =
      let short : length (C.blake2_256 input) ≤ 32 = omega (arith, L.length-blake2_256 input) in
      rw (L.u256_from_little_endian_lem _ short, L.u256_div_lem u256_max d h)

  pub wins-zero : (input : Bytes) → wins C {E = E} input 0 ≡ panic
  unfolding wins
  wins-zero input =
      let short : length (C.blake2_256 input) ≤ 32 = omega (arith, L.length-blake2_256 input) in
      rw (L.u256_from_little_endian_lem _ short, L.u256_div-zero u256_max)

module _ (C : Config) (L : IsLawful C) (origin : C.Origin) (voucher : Bytes) (s : State C) where
  -- An admissible claim is settled by its ticket.
  pub check_claim-IsAdmissible :
      {who : C.AccountId} {v : Voucher C} {rand : Bytes}
      → IsSized C s
      → IsAdmissible C origin voucher s who v rand
      → check_claim C origin voucher s ≡ (do
        won ← wins C (take 128 voucher ++ rand) v.difficulty
        ensure won (module_error voucher_did_not_win)
        ok (who, v))
  unfolding check_claim
  check_claim-IsAdmissible {who} {v} {rand} sized a =
      let long = parse-ok_length C voucher a.parsed in
      rw (
        a.signed,
        a.parsed,
        (L.account_eq_iff v.recipient_pk who).1 a.addressed,
        le→leb _ _ a.due,
        slice-ok voucher 0 128 (omega arith),
        a.genuine,
        a.drawn,
        hash_input-ok voucher rand long (sized _ _ a.drawn),
      )

  differ : (a b : C.AccountId) → C.account_eq a b ≡ false → a ≢ b
  differ a b e h = absurd (true_ne_false (sym ((L.account_eq_iff a b).1 h) ∙ e))

  module _ {who : C.AccountId} {v : Voucher C} (signed : C.ensure_signed origin ≡ some who)
      (parsed : parse C voucher ≡ ok v) (addressed : v.recipient_pk ≡ who) where
    same : C.account_eq v.recipient_pk who ≡ true
    same = (L.account_eq_iff _ _).1 addressed

    -- The tests behind the first three.
    settle :
        Admitted C origin voucher s
        ⊎ ((e : DispatchError) × IsRejected C origin voucher s e
            × (check_claim C origin voucher s ≡ err e))
    unfolding check_claim
    settle =
        let long = parse-ok_length C voucher parsed in
        let cut : slice {E = DispatchError} voucher 0 128 ≡ ok (take 128 voucher) =
          slice-ok voucher 0 128 (omega arith) in
        elim (Bool-cases (leb v.no_redeem_before_block (C.block_number s.system))) [
          | inr e ↦
              inr (_, early signed parsed addressed (leb→lt _ _ e), rw (signed, parsed, same, e))
          | inl at ↦
              let due = leb→le _ _ at in
              elim (Bool-cases (C.verify v.signature (take 128 voucher) v.sender_pk)) [
                | inr e ↦
                    inr (
                      _,
                      forged signed parsed addressed due e,
                      rw (signed, parsed, same, at, cut, e),
                    )
                | inl genuine ↦ elim (Option-cases (C.history.get s.history v.oracle_block)) [
                  | inl e ↦ inr (
                    _,
                    undrawn signed parsed addressed due genuine e,
                    rw (signed, parsed, same, at, cut, genuine, e),
                  )
                  | inr (rand, drawn) ↦ inl (
                    who,
                    v,
                    rand,
                    record {
                      signed = signed;
                      parsed = parsed;
                      addressed = addressed;
                      due = due;
                      genuine = genuine;
                      drawn = drawn;
                    },
                  )
                ]
              ]
        ]

  -- A claim that is not admissible is an error of the first test that fails, never a panic.
  pub admit-cases :
      IsSized C s
      → Admitted C origin voucher s
        ⊎ ((e : DispatchError) × IsRejected C origin voucher s e
            × (check_claim C origin voucher s ≡ err e))
  unfolding check_claim
  admit-cases sized = elim (Option-cases (C.ensure_signed origin)) [
    | inl e ↦ inr (_, unsigned e, rw e)
    | inr (who, signed) ↦ elim (Result-cases (parse C voucher)) [
      | inr (inr e) ↦ absurd (parse-ne-panic C voucher e)
      | inr (inl (c, e)) ↦ inr (_, unreadable signed e, rw (signed, e))
      | inl (v, parsed) ↦ elim (Bool-cases (C.account_eq v.recipient_pk who)) [
        | inr e ↦
            inr
              (_, misaddressed signed parsed (differ v.recipient_pk who e), rw (signed, parsed, e))
        | inl same ↦ settle signed parsed ((L.account_eq_iff _ _).0 same)
      ]
    ]
  ]
