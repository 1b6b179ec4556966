-- ===== src/Tests/Blocks.antt =====
-- The theorems on chains of blocks at concrete data.
use guillotine.Base.{
  false, take, ap, from_le_bytes, ◌/◌, err, ◌⊎◌, to_le_bytes, ℕ, zero, suc, ◌+◌, ◌-◌, ◌%◌, ◌≤◌, ◌<◌,
  Bool, ◌↔◌, ◌&&◌, ◌==◌, if◌then◌else◌, ltb, ◌≡◌, ◌≢◌, refl, true, none, some, [], Bytes, ok,
  length-to_le_bytes, arith,
}
use guillotine.Pallet.Config.{State, epoch_length, u256_max, module_error, voucher_did_not_win}
use guillotine.Pallet.Voucher.{Voucher}
use guillotine.Pallet.Voucher.Layout.{encode, parse-encode}
use guillotine.Pallet.History.{topic, on_initialize}
use guillotine.Pallet.Claim.{claim}
use guillotine.Pallet.History.Window.{get-on_initialize}
use guillotine.Pallet.Claim.Rules.{ticket}
use guillotine.Pallet.Claim.Outcome.{redeemed, claim-lost}
use guillotine.Pallet.Chain.Decided.{Later, now, then_block, claim_decided, lost_for_good}
use guillotine.Pallet.Chain.{Chain, genesis, block, call}
use guillotine.Pallet.Chain.Reach.{IsValid, Chain-IsValid}
use guillotine.Pallet.Chain.Redeem.{InWindow, claim-InWindow_iff, documented_window}
use guillotine.Pallet.Ledger.{Ledger, IsPayable}
use guillotine.Pallet.Ledger.Refinement.{Implements, Chain-Implements, claim-IsPayable_iff}
use guillotine.Pallet.Mock.{mock, mock-IsLawful, mock_codec}
use guillotine.Tests.{
  after_three-IsSized, voucher_of-IsAdmissible, begin, next_block, alice, after_three, voucher_of,
  bytes_for, parsed_at, reach_three,
}

get-on_initialize_example : mock.history.get (on_initialize mock 1025 after_three).1.history 1 ≡ (
    if ltb 0 1 && (1 + epoch_length) == 1025
    then none
    else if 1 == 1025
    then some (mock.random after_three.system (topic 1025))
    else mock.history.get after_three.history 1)
get-on_initialize_example = get-on_initialize mock 1025 after_three 1

Chain-IsValid_example : IsValid mock 3 after_three
Chain-IsValid_example = Chain-IsValid mock mock-IsLawful reach_three

claim-InWindow_iff_example :
    (((claim mock alice (bytes_for 2) after_three).0 ≡ ok tt)
      ⊎ ((claim mock alice (bytes_for 2) after_three).0 ≡ err (module_error voucher_did_not_win)))
    ↔ (((voucher_of 2).recipient_pk ≡ true)
        × (mock.verify true (take 128 (bytes_for 2)) false ≡ true)
        × InWindow (voucher_of 2) 3)
claim-InWindow_iff_example =
    claim-InWindow_iff mock mock-IsLawful alice (bytes_for 2) reach_three
      (parsed_at 2 (omega arith)) refl (omega arith)

-- The chain goes on with a claim.
reach_claim : Chain mock 3 (claim mock (some true) (bytes_for 2) after_three).1
reach_claim = call (some true) (bytes_for 2) reach_three refl

Chain-Implements_example : Implements mock mock-IsLawful reach_claim
Chain-Implements_example = Chain-Implements mock mock-IsLawful reach_claim

abbrev ledger_three : Ledger mock
ledger_three = (Chain-Implements mock mock-IsLawful reach_three).0

claim-IsPayable_iff_example : ((claim mock (some true) (bytes_for 2) after_three).0 ≡ ok tt) ↔ (
    (who : Bool) × (v : Voucher mock) × (rand : Bytes) × IsPayable mock
      (some true)
      (bytes_for 2)
      ledger_three
      who
      v
      rand)
claim-IsPayable_iff_example =
    claim-IsPayable_iff mock mock-IsLawful (some true) (bytes_for 2) reach_three
      (Chain-Implements mock mock-IsLawful reach_three).2

-- The voucher of a node whose current block is 2, with the oracle block in the next era.
abbrev next_era : Voucher mock
next_era = record (voucher_of 2) { oracle_block = 1034; no_redeem_before_block = 2050 }

-- The state after any number of blocks.
state_at : ℕ → State mock
state_at zero = begin
state_at (suc n) = next_block (suc n) (state_at n)

reach_at : (n : ℕ) → Chain mock n (state_at n)
unfolding state_at next_block
reach_at zero = genesis refl refl (λ b. refl)
reach_at (suc n) =
    block (record { number = suc n; events = (state_at n).system.events }) (reach_at n) refl refl
      refl

-- Two blocks later.
abbrev after_five : State mock
after_five = next_block 5 (next_block 4 after_three)

reach_five : Later mock 3 after_three 5 after_five
unfolding next_block
reach_five =
    then_block (record { number = 5; events = [] })
      (then_block (record { number = 4; events = [] }) (now refl refl) refl refl refl) refl refl
      refl

claim_decided_example :
    ((ticket mock (bytes_for 2) (to_le_bytes 32 1) < u256_max / 2)
      × (claim mock alice (bytes_for 2) after_five
          ≡ (ok tt, redeemed mock alice (bytes_for 2) after_five true (voucher_of 2))))
    ⊎ ((u256_max / 2 ≤ ticket mock (bytes_for 2) (to_le_bytes 32 1))
        × (claim mock alice (bytes_for 2) after_five
            ≡ (err (module_error voucher_did_not_win), after_five)))
unfolding next_block
claim_decided_example =
    claim_decided mock mock-IsLawful alice (bytes_for 2) reach_three refl reach_five (omega arith)
      (omega arith) (parsed_at 2 (omega arith)) refl refl refl (omega arith)

ticket_four : u256_max / 4 ≤ ticket mock (bytes_for 4) (to_le_bytes 32 1)
unfolding from_le_bytes to_le_bytes
ticket_four = omega arith

lost_four : (claim mock alice (bytes_for 4) after_three).0 ≡ err (module_error voucher_did_not_win)
lost_four =
    ap (λ r. r.0)
      (claim-lost mock alice (bytes_for 4) after_three mock-IsLawful after_three-IsSized
        (voucher_of-IsAdmissible 4 (omega arith)) (omega arith) ticket_four)

lost_for_good_example : (claim mock alice (bytes_for 4) after_five).0 ≢ ok tt
lost_for_good_example =
    lost_for_good mock mock-IsLawful alice alice (bytes_for 4) reach_three lost_four reach_five

documented_window_example :
    (((claim mock alice (encode mock_codec next_era true []) (state_at 2051)).0 ≡ ok tt)
      ⊎ ((claim mock alice (encode mock_codec next_era true []) (state_at 2051)).0
          ≡ err (module_error voucher_did_not_win)))
    ↔ ((next_era.recipient_pk ≡ true)
        × (mock.verify true (take 128 (encode mock_codec next_era true [])) false ≡ true)
        × (2 + 2048 ≤ 2051)
        × (2051 < 2 + 2048 + (1034 % 1024 - 2 % 1024)))
documented_window_example =
    documented_window mock mock-IsLawful alice (encode mock_codec next_era true []) (reach_at 2051)
      (parse-encode mock_codec next_era true [] (omega (arith, length-to_le_bytes 32 0))) refl
      (omega arith) 2 refl refl
