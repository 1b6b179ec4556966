-- ===== src/Pallet/Claim/Complete.antt =====
-- What `claim` returns and what it leaves behind, as an equivalence.
use guillotine.Base.{
  ◌/◌, ◌≤◌, ◌<◌, ap, some, some_inj, ok, ok_inj, ◌≡◌, ◌↔◌, ◌⊎◌, sym, ◌∙◌, inl, inr, Bytes, Result,
  err, ◌++◌, take, slice-ok, arith, le→leb, lt→leb, le→ltb, Bool-cases,
}
use guillotine.Pallet.Config.{
  Config, IsLawful, State, DispatchError, module_error, voucher_did_not_win, u256_max,
}
use guillotine.Pallet.Claim.{claim, check_claim}
use guillotine.Pallet.Voucher.{Voucher, parse}
use guillotine.Pallet.Claim.Rules.{
  IsSized, IsAdmissible, ticket, IsRejected, unsigned, unreadable, misaddressed, early, forged,
  undrawn, lost,
}
use guillotine.Pallet.Claim.Cases.{parse-ok_length, wins-lawful, check_claim-IsAdmissible}
use guillotine.Pallet.Claim.Outcome.{
  Redeems, Refuses, Panics, claim-ok, claim-panic, claim-cases, refused, claim-eq_err, claim-eq_ok,
  claim-settled,
}

lost_how :
    (C : Config) (origin : C.Origin) (voucher : Bytes) (s : State C) {e : DispatchError}
    → IsRejected C origin voucher s e
    → e ≡ module_error voucher_did_not_win
    → (who : C.AccountId) × (v : Voucher C) × (rand : Bytes) × IsAdmissible C origin voucher s who v
        rand
      × (u256_max / v.difficulty ≤ ticket C voucher rand)
lost_how C origin voucher s (unsigned _) q = cc
lost_how C origin voucher s (unreadable _ _) q = cc
lost_how C origin voucher s (misaddressed _ _ _) q = cc
lost_how C origin voucher s (early _ _ _ _) q = cc
lost_how C origin voucher s (forged _ _ _ _ _) q = cc
lost_how C origin voucher s (undrawn _ _ _ _ _ _) q = cc
lost_how C origin voucher s (lost {who} {v} {rand} a staked short) q = (who, v, rand, a, short)

module _ (C : Config) (L : IsLawful C) (origin : C.Origin) (voucher : Bytes) (s : State C)
    (sized : IsSized C s) where
  -- Whichever reason there is to refuse a claim, its error is returned.
  check_claim-IsRejected :
      {e : DispatchError} → IsRejected C origin voucher s e → check_claim C origin voucher s ≡ err e
  unfolding check_claim
  check_claim-IsRejected (unsigned h) = rw h
  check_claim-IsRejected (unreadable h p) = rw (h, p)
  check_claim-IsRejected (misaddressed {who} {v} h p other) =
      elim (Bool-cases (C.account_eq v.recipient_pk who)) [
        | inl same ↦ absurd (other ((L.account_eq_iff v.recipient_pk who).0 same))
        | inr differ ↦ rw (h, p, differ)
      ]
  check_claim-IsRejected (early {who} {v} h p a soon) =
      rw (h, p, (L.account_eq_iff v.recipient_pk who).1 a, lt→leb _ _ soon)
  check_claim-IsRejected (forged {who} {v} h p a due f) =
      let long = parse-ok_length C voucher p in
      rw (
        h,
        p,
        (L.account_eq_iff v.recipient_pk who).1 a,
        le→leb _ _ due,
        slice-ok voucher 0 128 (omega arith),
        f,
      )
  check_claim-IsRejected (undrawn {who} {v} h p a due g none_kept) =
      let long = parse-ok_length C voucher p in
      rw (
        h,
        p,
        (L.account_eq_iff v.recipient_pk who).1 a,
        le→leb _ _ due,
        slice-ok voucher 0 128 (omega arith),
        g,
        none_kept,
      )
  check_claim-IsRejected (lost {who} {v} {rand} a staked short) = rw (
    check_claim-IsAdmissible C L origin voucher s sized a,
    wins-lawful C L (take 128 voucher ++ rand) v.difficulty staked,
    le→ltb _ _ short,
  )

  abbrev Ends : Result DispatchError (Unit {0}) × State C → Type 0
  Ends r =
      Redeems C origin voucher s r ⊎ (Refuses C origin voucher s r ⊎ Panics C origin voucher s r)

  Ends-claim :
      (r : Result DispatchError (Unit {0}) × State C) → Ends r → claim C origin voucher s ≡ r
  Ends-claim r (inl (_, _, _, a, staked, won, e)) =
      claim-ok C origin voucher s L sized a staked won ∙ sym e
  Ends-claim r (inr (inl (_, why, e))) =
      refused C origin voucher s L sized _ (check_claim-IsRejected why) ∙ sym e
  Ends-claim r (inr (inr (_, _, _, a, zero, e))) =
      claim-panic C origin voucher s L sized a zero ∙ sym e

  -- In a state whose history holds 32-byte hashes, a claim ends in a result exactly if that
  -- result is one of these: an admissible voucher of positive difficulty whose ticket is below
  -- the bound is redeemed, with its event; or the claim is refused with the error of a test that
  -- fails while those before it pass, and nothing changes; or an admissible voucher has
  -- difficulty 0, and the call panics.
  pub claim_iff :
      (r : Result DispatchError (Unit {0}) × State C)
      → (claim C origin voucher s ≡ r) ↔ (
          Redeems C origin voucher s r
          ⊎ (Refuses C origin voucher s r ⊎ Panics C origin voucher s r))
  claim_iff r = (λ e. rw (← e) (claim-cases C origin voucher s L sized), Ends-claim r)

  -- A claim that is refused for not winning was admissible.
  pub claim-eq_lost :
      (claim C origin voucher s).0 ≡ err (module_error voucher_did_not_win)
      → (who : C.AccountId) × (v : Voucher C) × (rand : Bytes) × IsAdmissible C origin voucher s who
          v rand
        × (u256_max / v.difficulty ≤ ticket C voucher rand)
  claim-eq_lost h =
      let (e, why, q) = claim-eq_err C origin voucher s L sized h in
      lost_how C origin voucher s why q

  -- A claim that passes every test comes to the draw, and wins or loses it.
  abbrev pub ReachesDraw : Type 0
  ReachesDraw =
      ((claim C origin voucher s).0 ≡ ok tt)
      ⊎ ((claim C origin voucher s).0 ≡ err (module_error voucher_did_not_win))

  pub ReachesDraw-IsAdmissible :
      {who : C.AccountId} {v : Voucher C}
      → C.ensure_signed origin ≡ some who
      → parse C voucher ≡ ok v
      → ReachesDraw
      → (rand : Bytes) × IsAdmissible C origin voucher s who v rand
  ReachesDraw-IsAdmissible signed parsed (inl h) =
      let (_, _, rand, a, _, _, _) = claim-eq_ok C origin voucher s L sized h in
      let caller = some_inj (sym signed ∙ a.signed) in
      let read = ok_inj (sym parsed ∙ a.parsed) in (rand, rw (caller, read) a)
  ReachesDraw-IsAdmissible signed parsed (inr h) =
      let (_, _, rand, a, _) = claim-eq_lost h in
      let caller = some_inj (sym signed ∙ a.signed) in
      let read = ok_inj (sym parsed ∙ a.parsed) in (rand, rw (caller, read) a)

  pub IsAdmissible-ReachesDraw :
      {who : C.AccountId} {v : Voucher C} {rand : Bytes}
      → IsAdmissible C origin voucher s who v rand
      → 0 < v.difficulty
      → ReachesDraw
  IsAdmissible-ReachesDraw a staked = elim (claim-settled C origin voucher s L sized a staked) [
    | inl (_, e) ↦ inl (ap (λ r. r.0) e)
    | inr (_, e) ↦ inr (ap (λ r. r.0) e)
  ]
