-- ===== src/Pallet/Claim/Replay.antt =====
-- A voucher that is claimed again and again.
use guillotine.Base.{◌<◌, ◌/◌, ℕ, zero, suc, ◌≡◌, refl, ap, ◌∙◌, Bytes, ok}
use guillotine.Pallet.Config.{u256_max, Config, IsLawful, State, Event, voucher_claimed}
use guillotine.Pallet.Voucher.{Voucher, parse}
use guillotine.Pallet.Claim.{claim}
use guillotine.Pallet.Claim.Rules.{IsSized, IsAdmissible, ticket}
use guillotine.Pallet.Claim.Outcome.{claim-ok, claim-eq_ok}

module _ (C : Config) where
  -- The state after a number of claims of the same voucher, one after the other.
  abbrev pub replay : C.Origin → Bytes → State C → ℕ → State C
  replay origin voucher s zero = s
  replay origin voucher s (suc k) = (claim C origin voucher (replay origin voucher s k)).1

  -- The same event deposited a number of times.
  abbrev pub deposits : Event C.AccountId → C.SystemState → ℕ → C.SystemState
  deposits event system zero = system
  deposits event system (suc k) = C.deposit_event (deposits event system k) event

module _ (C : Config) (L : IsLawful C) (origin : C.Origin) (voucher : Bytes) (s : State C) where
  block_number-deposits :
      (event : Event C.AccountId) (k : ℕ)
      → C.block_number (deposits C event s.system k) ≡ C.block_number s.system
  block_number-deposits event zero = refl
  block_number-deposits event (suc k) =
      L.block_number-deposit_event _ _ ∙ block_number-deposits event k

  -- The state with the voucher's event deposited a number of times.
  abbrev pub paid : C.AccountId → Voucher C → ℕ → State C
  paid who v k = record s { system = deposits C (voucher_claimed v.value_if_paid who) s.system k }

  module _ {who : C.AccountId} {v : Voucher C} {rand : Bytes} (sized : IsSized C s)
      (a : IsAdmissible C origin voucher s who v rand) (staked : 0 < v.difficulty)
      (won : ticket C voucher rand < u256_max / v.difficulty) where
    paid-IsAdmissible : (k : ℕ) → IsAdmissible C origin voucher (paid who v k) who v rand
    paid-IsAdmissible k = record {
      signed = a.signed;
      parsed = a.parsed;
      addressed = a.addressed;
      due = rw (block_number-deposits (voucher_claimed v.value_if_paid who) k) a.due;
      genuine = a.genuine;
      drawn = a.drawn;
    }

    claim-paid : (k : ℕ) → claim C origin voucher (paid who v k) ≡ (ok tt, paid who v (suc k))
    claim-paid k = claim-ok C origin voucher (paid who v k) L sized (paid-IsAdmissible k) staked won

    replay-paid : (k : ℕ) → replay C origin voucher s k ≡ paid who v k
    replay-paid zero = refl
    replay-paid (suc k) =
        ap (λ t. (claim C origin voucher t).1) (replay-paid k) ∙ ap (λ r. r.1) (claim-paid k)

  -- A claim that succeeds, in a state whose history holds 32-byte hashes, succeeds again after
  -- any number of claims of the same voucher, which did nothing but deposit its event as many
  -- times: no voucher is marked as spent.
  pub claim-replay :
      IsSized C s
      → (claim C origin voucher s).0 ≡ ok tt
      → (k : ℕ)
      → (who : C.AccountId) × (v : Voucher C) × (parse C voucher ≡ ok v)
        × (replay C origin voucher s k ≡ paid who v k)
        × ((claim C origin voucher (replay C origin voucher s k)).0 ≡ ok tt)
  claim-replay sized h k =
      let (who, v, rand, a, staked, won, e) = claim-eq_ok C origin voucher s L sized h in
      (
        who,
        v,
        a.parsed,
        replay-paid sized a staked won k,
        ap (λ t. (claim C origin voucher t).0) (replay-paid sized a staked won k)
            ∙ ap (λ r. r.0) (claim-paid sized a staked won k),
      )
