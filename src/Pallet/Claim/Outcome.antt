-- ===== src/Pallet/Claim/Outcome.antt =====
-- What `claim` returns and what it leaves behind, on every branch.
use native.Mathlib.Decide.{dec_lt}
use guillotine.Base.{
  ◌/◌, ◌≤◌, ◌<◌, ◌≡◌, sym, ap, ◌∙◌, ◌⊎◌, inl, inr, ◌++◌, Bytes, Result, ok, err, panic, ok_ne_err,
  ok_ne_panic, err_ne_panic, err_inj, take, arith, ltb, lt→ltb, ltb→lt, ltb→le, le→ltb, Bool-cases,
}
use guillotine.Pallet.Config.{
  Config, IsLawful, State, DispatchError, module_error, voucher_did_not_win, voucher_claimed,
  u256_max,
}
use guillotine.Pallet.Voucher.{Voucher}
use guillotine.Pallet.Claim.{claim, check_claim}
use guillotine.Pallet.Claim.Rules.{IsSized, IsAdmissible, IsRejected, lost, ticket}
use guillotine.Pallet.Claim.Cases.{wins-lawful, wins-zero, check_claim-IsAdmissible, admit-cases}

module _ (C : Config) (origin : C.Origin) (voucher : Bytes) (s : State C) where
  -- The state with the event of a redeemed voucher.
  abbrev pub redeemed : C.AccountId → Voucher C → State C
  redeemed who v = record s {
    system = C.deposit_event s.system (voucher_claimed v.value_if_paid who);
  }

  -- The claim redeems a voucher that is admissible and whose ticket wins.
  abbrev pub Redeems : Result DispatchError (Unit {0}) × State C → Type 0
  Redeems r =
      (who : C.AccountId) × (v : Voucher C) × (rand : Bytes) × IsAdmissible C origin voucher s who v
        rand
      × (0 < v.difficulty)
      × (ticket C voucher rand < u256_max / v.difficulty)
      × (r ≡ (ok tt, redeemed who v))

  -- The claim is refused, for a reason that holds, and changes nothing.
  abbrev pub Refuses : Result DispatchError (Unit {0}) × State C → Type 0
  Refuses r = (e : DispatchError) × IsRejected C origin voucher s e × (r ≡ (err e, s))

  -- The claim divides by zero.
  abbrev pub Panics : Result DispatchError (Unit {0}) × State C → Type 0
  Panics r =
      (who : C.AccountId) × (v : Voucher C) × (rand : Bytes) × IsAdmissible C origin voucher s who v
        rand
      × (v.difficulty ≡ 0)
      × (r ≡ (panic, s))

  module _ (L : IsLawful C) (sized : IsSized C s) where
    module _ {who : C.AccountId} {v : Voucher C} {rand : Bytes}
        (a : IsAdmissible C origin voucher s who v rand) where
      -- An admissible voucher of positive difficulty whose ticket is below U256::MAX divided by
      -- the difficulty is redeemed, and its value is announced to the caller by the event.
      pub claim-ok :
          0 < v.difficulty
          → ticket C voucher rand < u256_max / v.difficulty
          → claim C origin voucher s ≡ (ok tt, redeemed who v)
      unfolding claim
      claim-ok staked won = rw (
        check_claim-IsAdmissible C L origin voucher s sized a,
        wins-lawful C L (take 128 voucher ++ rand) v.difficulty staked,
        lt→ltb _ _ won,
      )

      pub claim-lost :
          0 < v.difficulty
          → u256_max / v.difficulty ≤ ticket C voucher rand
          → claim C origin voucher s ≡ (err (module_error voucher_did_not_win), s)
      unfolding claim
      claim-lost staked short = rw (
        check_claim-IsAdmissible C L origin voucher s sized a,
        wins-lawful C L (take 128 voucher ++ rand) v.difficulty staked,
        le→ltb _ _ short,
      )

      -- At a positive difficulty an admissible voucher is redeemed or refused, by its ticket.
      pub claim-settled :
          0 < v.difficulty
          → ((ticket C voucher rand < u256_max / v.difficulty)
              × (claim C origin voucher s ≡ (ok tt, redeemed who v)))
            ⊎ ((u256_max / v.difficulty ≤ ticket C voucher rand)
                × (claim C origin voucher s ≡ (err (module_error voucher_did_not_win), s)))
      claim-settled staked = elim (dec_lt (ticket C voucher rand) (u256_max / v.difficulty)) [
        | yes below ↦ inl (below, claim-ok staked below)
        | no above ↦ inr (omega arith, claim-lost staked (omega arith))
      ]

      -- An admissible voucher of difficulty 0 makes the call panic, on the division by its
      -- difficulty.
      pub claim-panic : v.difficulty ≡ 0 → claim C origin voucher s ≡ (panic, s)
      unfolding claim
      claim-panic zero =
          rw (check_claim-IsAdmissible C L origin voucher s sized a, zero, wins-zero C L)

    admitted-cases :
        (who : C.AccountId) (v : Voucher C) (rand : Bytes)
        → IsAdmissible C origin voucher s who v rand
        → Redeems (claim C origin voucher s)
          ⊎ (Refuses (claim C origin voucher s) ⊎ Panics (claim C origin voucher s))
    admitted-cases who v rand a = elim (Bool-cases (ltb 0 v.difficulty)) [
      | inr e ↦
          let zero : v.difficulty ≡ 0 = omega (arith, ltb→le _ _ e) in
          inr (inr (who, v, rand, a, zero, claim-panic a zero))
      | inl e ↦
          let staked = ltb→lt _ _ e in
          elim (claim-settled a staked) [
            | inl (won, r) ↦ inl (who, v, rand, a, staked, won, r)
            | inr (short, r) ↦ inr (inl (_, lost a staked short, r))
          ]
    ]

    pub refused :
        (e : DispatchError)
        → check_claim C origin voucher s ≡ err e
        → claim C origin voucher s ≡ (err e, s)
    unfolding claim
    refused e h = rw h

    -- Every claim, in a state whose history holds 32-byte hashes, either redeems an admissible
    -- voucher whose ticket is below the bound (depositing its event), or is refused with the
    -- error of the first test that fails and changes nothing, or panics because an admissible
    -- voucher has difficulty 0.
    pub claim-cases :
        Redeems (claim C origin voucher s)
        ⊎ (Refuses (claim C origin voucher s) ⊎ Panics (claim C origin voucher s))
    claim-cases = elim (admit-cases C L origin voucher s sized) [
      | inl (who, v, rand, a) ↦ admitted-cases who v rand a
      | inr (e, why, h) ↦ inr (inl (e, why, refused e h))
    ]

    -- A claim that returns `ok` was admissible, and its ticket won.
    pub claim-eq_ok : (claim C origin voucher s).0 ≡ ok tt → Redeems (claim C origin voucher s)
    claim-eq_ok h = elim claim-cases [
      | inl r ↦ r
      | inr (inl (e, why, r)) ↦ absurd (ok_ne_err (sym h ∙ ap (λ x. x.0) r))
      | inr (inr (_, _, _, _, _, r)) ↦ absurd (ok_ne_panic (sym h ∙ ap (λ x. x.0) r))
    ]

    -- A claim that returns an error was refused for it.
    pub claim-eq_err :
        {e : DispatchError}
        → (claim C origin voucher s).0 ≡ err e
        → (why : DispatchError) × IsRejected C origin voucher s why × (why ≡ e)
    claim-eq_err h = elim claim-cases [
      | inl (_, _, _, _, _, _, r) ↦ absurd (ok_ne_err (sym (ap (λ x. x.0) r) ∙ h))
      | inr (inl (why, holds, r)) ↦ (why, holds, err_inj (sym (ap (λ x. x.0) r) ∙ h))
      | inr (inr (_, _, _, _, _, r)) ↦ absurd (err_ne_panic (sym h ∙ ap (λ x. x.0) r))
    ]
