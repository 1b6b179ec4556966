-- ===== src/Pallet/Claim/Batch.antt =====
-- The claims of a block, one after the other: none of them depends on those before it.
use mathlib.Core.List.{Perm, filter_map, filter_map-cons-none, filter_map-cons-some, append-nil}
use mathlib.Core.List.Perm
use guillotine.Base.{
  ◌≡◌, refl, sym, ap, ◌∙◌, inl, inr, Option, none, some, List, [], ◌∷◌, ◌++◌, map, append_assoc,
  Bytes, Result, ok, err, panic, Result-cases,
}
use guillotine.Pallet.Config.{Config, IsLawful, State, Event, DispatchError, voucher_claimed}
use guillotine.Pallet.Voucher.{Voucher}
use guillotine.Pallet.Claim.{claim, check_claim}
use guillotine.Pallet.Claim.Frame.{claim-keeps}

-- The events of a block, in the order in which they are deposited.
pub record EventLog (C : Config) : Type 0 where
  pub events : C.SystemState → List (Event C.AccountId)
  pub events-deposit_event :
      (s : C.SystemState) (e : Event C.AccountId)
      → events (C.deposit_event s e) ≡ events s ++ e ∷ []

module _ (C : Config) where
  -- A claim: its origin and its voucher.
  abbrev pub Call : Type 0
  Call = C.Origin × Bytes

  -- The results of the claims, and the state after the last.
  pub run_claims : List Call → State C → List (Result DispatchError (Unit {0})) × State C
  run_claims [] s = ([], s)
  run_claims ((origin, voucher) ∷ cs) s =
      let (r, t) = claim C origin voucher s in let (rs, u) = run_claims cs t in (r ∷ rs, u)

  -- What a claim that stands alone returns, and the event that it deposits.
  abbrev pub alone : State C → Call → Result DispatchError (Unit {0})
  alone s (origin, voucher) = (claim C origin voucher s).0

  abbrev pub event_of : Result DispatchError (C.AccountId × Voucher C) → Option (Event C.AccountId)
  event_of (ok (who, v)) = some (voucher_claimed v.value_if_paid who)
  event_of (err _) = none
  event_of panic = none

  abbrev pub announced : State C → Call → Option (Event C.AccountId)
  announced s (origin, voucher) = event_of (check_claim C origin voucher s)

  -- All that a claim reads of the state.
  abbrev Alike : State C → State C → Type 0
  Alike s t = (t.history ≡ s.history) × (C.block_number t.system ≡ C.block_number s.system)

  check_claim-Alike :
      (origin : C.Origin) (voucher : Bytes) (s t : State C)
      → Alike s t
      → check_claim C origin voucher t ≡ check_claim C origin voucher s
  unfolding check_claim
  check_claim-Alike origin voucher s t (h, n) = rw (h, n)

  claim-result :
      (origin : C.Origin) (voucher : Bytes) (s t : State C)
      → Alike s t
      → (claim C origin voucher t).0 ≡ (claim C origin voucher s).0
  unfolding claim
  claim-result origin voucher s t a = elim (Result-cases (check_claim C origin voucher s)) [
    | inl (_, e) ↦ rw (check_claim-Alike origin voucher s t a, e)
    | inr (inl (_, e)) ↦ rw (check_claim-Alike origin voucher s t a, e)
    | inr (inr e) ↦ rw (check_claim-Alike origin voucher s t a, e)
  ]

module _ (C : Config) (L : IsLawful C) where
  claim-Alike :
      (origin : C.Origin) (voucher : Bytes) (s t : State C)
      → Alike C s t
      → Alike C s (claim C origin voucher t).1
  claim-Alike origin voucher s t (h, n) =
      let (kept, number) = claim-keeps C L origin voucher t in (kept ∙ h, number ∙ n)

  run_claims-Alike :
      (cs : List (Call C)) (s t : State C) → Alike C s t → Alike C s (run_claims C cs t).1
  unfolding run_claims
  run_claims-Alike [] s t a = a
  run_claims-Alike ((origin, voucher) ∷ cs) s t a =
      run_claims-Alike cs s (claim C origin voucher t).1 (claim-Alike origin voucher s t a)

  run_claims-results :
      (cs : List (Call C)) (s t : State C)
      → Alike C s t
      → (run_claims C cs t).0 ≡ map (alone C s) cs
  unfolding run_claims
  run_claims-results [] s t a = refl
  run_claims-results ((origin, voucher) ∷ cs) s t a =
      ap (λ r. r ∷ (run_claims C cs (claim C origin voucher t).1).0)
        (claim-result C origin voucher s t a)
      ∙ ap (λ rs. alone C s (origin, voucher) ∷ rs)
          (run_claims-results cs s (claim C origin voucher t).1 (claim-Alike origin voucher s t a))

  module _ (E : EventLog C) where
    -- One claim adds its event to the log, before those of the claims that follow.
    claim-events :
        (origin : C.Origin) (voucher : Bytes) (cs : List (Call C)) (s t : State C)
        → Alike C s t
        → E.events (claim C origin voucher t).1.system ++ filter_map (announced C s) cs
          ≡ E.events t.system ++ filter_map (announced C s) ((origin, voucher) ∷ cs)
    unfolding claim
    claim-events origin voucher cs s t a = elim (Result-cases (check_claim C origin voucher s)) [
      | inl ((who, v), e) ↦ rw (
        check_claim-Alike C origin voucher s t a,
        e,
        E.events-deposit_event,
        append_assoc,
        filter_map-cons-some (announced C s) (origin, voucher) cs (ap (event_of C) e),
      )
      | inr (inl (x, e)) ↦ rw (
        check_claim-Alike C origin voucher s t a,
        e,
        filter_map-cons-none (announced C s) (origin, voucher) cs (ap (event_of C) e),
      )
      | inr (inr e) ↦ rw (
        check_claim-Alike C origin voucher s t a,
        e,
        filter_map-cons-none (announced C s) (origin, voucher) cs (ap (event_of C) e),
      )
    ]

    run_claims-events :
        (cs : List (Call C)) (s t : State C)
        → Alike C s t
        → E.events (run_claims C cs t).1.system ≡ E.events t.system ++ filter_map (announced C s) cs
    unfolding run_claims filter_map
    run_claims-events [] s t a = sym (append-nil (E.events t.system))
    run_claims-events ((origin, voucher) ∷ cs) s t a =
        run_claims-events cs s (claim C origin voucher t).1 (claim-Alike origin voucher s t a)
        ∙ claim-events origin voucher cs s t a

    -- However the claims of a block are ordered, each returns what it would return alone, their
    -- events are the same up to their order, and the history is the same.
    pub run_claims-perm :
        (s : State C) (cs ds : List (Call C))
        → Perm cs ds
        → ((run_claims C cs s).0 ≡ map (alone C s) cs)
          × ((run_claims C ds s).0 ≡ map (alone C s) ds)
          × Perm (E.events (run_claims C cs s).1.system) (E.events (run_claims C ds s).1.system)
          × ((run_claims C cs s).1.history ≡ (run_claims C ds s).1.history)
    run_claims-perm s cs ds p =
        let same : Alike C s s = (refl, refl) in
        (
          run_claims-results cs s s same,
          run_claims-results ds s s same,
          rw (run_claims-events cs s s same, run_claims-events ds s s same)
              (Perm.append_left (E.events s.system) (Perm.filter_map (announced C s) p)),
          (run_claims-Alike cs s s same).0 ∙ sym (run_claims-Alike ds s s same).0,
        )
