-- ===== src/Tests/Claim.antt =====
-- Runs of the claim call, and its theorems at concrete data.
use guillotine.Base.{
  sym, ◌∙◌, take-append_le, Bool, ap, ◌⊎◌, ◌↔◌, ◌-◌, ◌/◌, List, Result, ◌^◌, ℕ, ◌≤◌, ◌<◌, ◌≡◌, refl,
  true, false, some, [], ◌∷◌, ◌++◌, Bytes, ok, err, panic, slice, to_array, from_le_bytes,
  to_le_bytes, arith,
}
use guillotine.Pallet.Config.{
  State, u256_max, Event, DispatchError, voucher_claimed, module_error, voucher_did_not_win,
}
use guillotine.Pallet.Voucher.{Voucher, read_uint, parse_fields, parse}
use guillotine.Pallet.Claim.{claim, check_claim, hash_input, wins}
use guillotine.Pallet.Claim.Signed.{claim-signed}
use guillotine.Pallet.Claim.Complete.{claim_iff}
use guillotine.Pallet.Claim.Rules.{ticket}
use guillotine.Pallet.Claim.Outcome.{redeemed, Redeems, Refuses, Panics, claim-ok}
use guillotine.Pallet.Claim.Frame.{claim-append}
use guillotine.Pallet.Claim.Replay.{replay, paid, claim-replay}
use guillotine.Pallet.Claim.Odds.{count_below, is_winning, wins_odds, wins_one_iff}
use guillotine.Pallet.Benchmarking.{benchmark_claim}
use guillotine.Pallet.Config.{invalid_voucher}
use guillotine.Pallet.Mock.{mock, mock-IsLawful}
use guillotine.Tests.{
  next_block, after_three, bytes_for, voucher_of-IsAdmissible, after_three-IsSized, alice,
  long_enough,
}

run_claim : ℕ → Result DispatchError (Unit {0}) × List (Event Bool)
unfolding claim check_claim hash_input wins parse parse_fields read_uint slice to_array
    from_le_bytes to_le_bytes next_block
run_claim difficulty =
    let (r, s) = claim mock (some true) (bytes_for difficulty) after_three in (r, s.system.events)

claim_works : run_claim 2 ≡ (ok tt, voucher_claimed 4 true ∷ [])
unfolding run_claim
claim_works = refl

claim_loses : run_claim 4 ≡ (err (module_error voucher_did_not_win), [])
unfolding run_claim
claim_loses = refl

claim_panics : run_claim 0 ≡ (panic, [])
unfolding run_claim
claim_panics = refl

claim_iff_example :
    let r : Result DispatchError (Unit {0}) × State mock =
      (err (module_error voucher_did_not_win), after_three) in
    (claim mock alice (bytes_for 4) after_three ≡ r) ↔ (
      Redeems mock alice (bytes_for 4) after_three r
      ⊎ (Refuses mock alice (bytes_for 4) after_three r
          ⊎ Panics mock alice (bytes_for 4) after_three r))
claim_iff_example =
    claim_iff mock mock-IsLawful alice (bytes_for 4) after_three after_three-IsSized
      (err (module_error voucher_did_not_win), after_three)

-- The ticket of the voucher of difficulty 2 is below the bound.
ticket_two : ticket mock (bytes_for 2) (to_le_bytes 32 1) < u256_max / 2
unfolding from_le_bytes to_le_bytes
ticket_two = omega arith

redeemed_two : (claim mock (some true) (bytes_for 2) after_three).0 ≡ ok tt
redeemed_two =
    ap (λ r. r.0)
      (claim-ok mock (some true) (bytes_for 2) after_three mock-IsLawful after_three-IsSized
        (voucher_of-IsAdmissible 2 (omega arith)) (omega arith) ticket_two)

claim-replay_example :
    (who : Bool) × (v : Voucher mock) × (parse mock (bytes_for 2) ≡ ok v)
    × (replay mock (some true) (bytes_for 2) after_three 3
        ≡ paid mock mock-IsLawful (some true) (bytes_for 2) after_three who v 3)
    × ((claim mock
          (some true)
          (bytes_for 2)
          (replay mock (some true) (bytes_for 2) after_three 3)).0
        ≡ ok tt)
claim-replay_example =
    claim-replay mock mock-IsLawful (some true) (bytes_for 2) after_three after_three-IsSized
      redeemed_two 3

claim-append_example :
    claim mock (some true) (bytes_for 2 ++ 9 ∷ []) after_three
    ≡ claim mock (some true) (bytes_for 2) after_three
claim-append_example = claim-append mock (some true) (bytes_for 2) (9 ∷ []) after_three long_enough

wins_odds_example :
    ((E : Type 0) (input : Bytes)
      → wins mock {E = E} input 5000 ≡ ok (is_winning 5000 (from_le_bytes (mock.blake2_256 input))))
    × (count_below (2 ^ 256) (is_winning 5000) ≡ (2 ^ 256 - 1) / 5000)
wins_odds_example = wins_odds mock mock-IsLawful 5000 (omega arith)

wins_one_iff_example :
    (wins mock {E = ℕ} (1 ∷ []) 1 ≡ ok false)
    ↔ (u256_max ≤ from_le_bytes (mock.blake2_256 (1 ∷ [])))
wins_one_iff_example = wins_one_iff mock mock-IsLawful (1 ∷ [])

-- The benchmark presents an empty voucher.
benchmark_refused :
    benchmark_claim mock (some false) after_three
    ≡ (err (module_error (invalid_voucher 0)), after_three)
unfolding benchmark_claim claim check_claim parse
benchmark_refused = refl

-- The voucher of difficulty 2 with a byte behind it.
abbrev longer : Bytes
longer = bytes_for 2 ++ 9 ∷ []

redeemed_longer : (claim mock alice longer after_three).0 ≡ ok tt
redeemed_longer =
    ap (λ r. r.0) (claim-append mock alice (bytes_for 2) (9 ∷ []) after_three long_enough)
    ∙ redeemed_two

claim-signed_example :
    (who : Bool) × (v : Voucher mock) × (alice ≡ some who)
    × (alice ≡ some who)
    × (claim mock alice (bytes_for 2) after_three
        ≡ (ok tt, redeemed mock alice (bytes_for 2) after_three who v))
    × (claim mock alice longer after_three ≡ (ok tt, redeemed mock alice longer after_three who v))
claim-signed_example =
    claim-signed mock mock-IsLawful alice alice (bytes_for 2) longer after_three after_three
      after_three-IsSized after_three-IsSized
      (sym (take-append_le 128 (bytes_for 2) (9 ∷ []) (omega (arith, long_enough)))) redeemed_two
      redeemed_longer
