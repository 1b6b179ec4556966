-- ===== src/Tests.antt =====
-- The data of the tests: a chain of three blocks over the mock configuration, and a voucher.
mod Node
mod Client
mod Runtime
mod Redemption
mod Weights
mod Batch
mod Parsing
mod Claim
mod Blocks
mod Signing
mod Rpc
use guillotine.Base.{
  Bool, Option, ap, ◌⊎◌, ◌↔◌, ◌-◌, ◌/◌, ◌&&◌, ◌==◌, if◌then◌else◌, leb, ltb, length, List, Result,
  ◌^◌, ℕ, ◌+◌, ◌≤◌, ◌<◌, ◌≡◌, ◌≢◌, refl, true, false, none, some, [], ◌∷◌, ◌++◌, Bytes, ok, err,
  panic, slice, to_array, from_le_bytes, to_le_bytes, length-to_le_bytes, arith,
}
use guillotine.Pallet.Config.{
  State, u256_max, epoch_length, Event, DispatchError, voucher_claimed, module_error,
  voucher_did_not_win,
}
use guillotine.Pallet.Voucher.{Voucher, read_uint, parse_fields, parse}
use guillotine.Pallet.Voucher.Layout.{IsInRange, encode, parse-encode}
use guillotine.Pallet.History.{topic, on_initialize}
use guillotine.Pallet.Claim.{claim, check_claim, hash_input, wins}
use guillotine.Pallet.Voucher.Reading.{parse-ne-panic, parse-err_zero_iff}
use guillotine.Pallet.History.Window.{get-on_initialize}
use guillotine.Pallet.Claim.Rules.{IsAdmissible, IsSized, ticket}
use guillotine.Pallet.Claim.Cases.{parse-ok_length}
use guillotine.Pallet.Claim.Outcome.{
  redeemed, Redeems, Refuses, Panics, claim-cases, claim-ok, claim-panic,
}
use guillotine.Pallet.Claim.Frame.{claim-append}
use guillotine.Pallet.Claim.Replay.{replay, paid, claim-replay}
use guillotine.Pallet.Claim.Odds.{count_below, is_winning, wins_odds, wins_antitone, wins_one_iff}
use guillotine.Pallet.Chain.{Chain, genesis, block, call}
use guillotine.Pallet.Chain.Reach.{IsValid, Chain-IsValid, Chain-IsSized}
use guillotine.Pallet.Chain.Redeem.{InWindow, IsAdmissible-InWindow_iff}
use guillotine.Pallet.Ledger.{Ledger, IsPayable}
use guillotine.Pallet.Ledger.Refinement.{Implements, Chain-Implements, claim-IsPayable_iff}
use guillotine.Pallet.Dispatch.{Bounded, claim_bytes}
use guillotine.Pallet.Dispatch.Bound.{claim_bytes-encode}
use guillotine.Pallet.Benchmarking.{benchmark_claim, benchmark_claim-err}
use guillotine.Pallet.Config.{invalid_voucher}
use guillotine.Pallet.Mock.{mock, mock-IsLawful, mock_codec}

abbrev pub begin : State mock
begin = record { system = record { number = 0; events = [] }; history = λ _. none }

-- The block number rises, and the hook runs.
unfoldable pub next_block : ℕ → State mock → State mock
unfolding on_initialize topic to_le_bytes
next_block n s =
    (on_initialize mock n (record s { system = record { number = n; events = s.system.events } })).1

abbrev pub after_three : State mock
after_three = next_block 3 (next_block 2 (next_block 1 begin))

-- The voucher of the test `claim_works_for_given_values`, for a difficulty.
abbrev pub voucher_of : ℕ → Voucher mock
voucher_of difficulty = record {
  oracle_block = 1;
  difficulty = difficulty;
  no_redeem_before_block = 3;
  value_if_paid = 4;
  price_list_commit = 0xefcdab8967452301;
  sender_pk = false;
  recipient_pk = true;
  nonce = to_le_bytes 32 0;
  signature = true;
}

abbrev pub bytes_for : ℕ → Bytes
bytes_for difficulty = encode mock_codec (voucher_of difficulty) true []

pub voucher_of-IsInRange :
    (difficulty : ℕ) → difficulty < 2 ^ 32 → IsInRange (voucher_of difficulty)
voucher_of-IsInRange difficulty h = omega (arith, length-to_le_bytes 32 0)

pub parsed_at :
    (difficulty : ℕ)
    → difficulty < 2 ^ 32
    → parse mock (bytes_for difficulty) ≡ ok (voucher_of difficulty)
parsed_at difficulty h =
    parse-encode mock_codec (voucher_of difficulty) true [] (voucher_of-IsInRange difficulty h)

pub reach_three : Chain mock 3 after_three
unfolding next_block
reach_three =
    block (record { number = 3; events = [] })
      (block (record { number = 2; events = [] })
        (block (record { number = 1; events = [] }) (genesis {s = begin} refl refl (λ b. refl)) refl
          refl refl)
        refl refl refl)
      refl refl refl

pub voucher_of-IsAdmissible :
    (difficulty : ℕ)
    → difficulty < 2 ^ 32
    → IsAdmissible mock
        (some true)
        (bytes_for difficulty)
        after_three
        true
        (voucher_of difficulty)
        (to_le_bytes 32 1)
unfolding next_block
voucher_of-IsAdmissible difficulty h = record {
  signed = refl;
  parsed = parsed_at difficulty h;
  addressed = refl;
  due = omega arith;
  genuine = refl;
  drawn = refl;
}

pub after_three-IsSized : IsSized mock after_three
after_three-IsSized = Chain-IsSized mock mock-IsLawful reach_three

abbrev pub alice : Option Bool
alice = some true

pub long_enough : 192 ≤ length (bytes_for 2)
long_enough = parse-ok_length mock (bytes_for 2) (parsed_at 2 (omega arith))
