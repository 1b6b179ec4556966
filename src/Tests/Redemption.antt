-- ===== src/Tests/Redemption.antt =====
-- The life of one voucher by the clock, and the tests' runtime, at concrete data.
use guillotine.Base.{ℕ, ◌+◌, ◌*◌, ◌/◌, ◌≤◌, ◌<◌, ◌≡◌, refl, ◌⊎◌, true, some, Bytes, ok, err, arith}
use guillotine.Pallet.Config.{u256_max, module_error, voucher_did_not_win}
use guillotine.Pallet.History.{topic}
use guillotine.Pallet.Claim.{claim}
use guillotine.Pallet.Claim.Outcome.{redeemed}
use guillotine.Pallet.Mock.{mock, mock-IsLawful, mock_codec, System}
use guillotine.Pallet.TestRuntime.{
  TestPallet, system, insecure_randomness_collective_flip, prepare_block,
}
use guillotine.Pallet.TestRuntime.Order.{test_initialised, hooked, test_initialised-draw}
use guillotine.Runtime.Configs.{runtime_timestamp, runtime_aura}
use guillotine.Runtime.Configs.Clock.{IsClock}
use guillotine.Runtime.Configs.Redemption.{written, signed_voucher, ticket_of, redeemed_in_time}
use guillotine.Tests.{after_three, reach_three, voucher_of, voucher_of-IsInRange}

-- One block in each slot, at its beginning.
punctual : IsClock runtime_timestamp runtime_aura (λ n. n * 6000) (λ n. n)
unfolding runtime_timestamp
punctual = record {
  advances = λ n pos. omega arith;
  aligned = λ told n pos. omega arith;
  ordered = λ alone n pos. omega arith;
}

redeemed_in_time_example :
    (rand : Bytes) × (mock.history.get after_three.history 1 ≡ some rand)
    × (((ticket_of mock_codec (voucher_of 2) true rand < u256_max / 2)
          × (claim mock (some true) (written mock_codec (voucher_of 2) true) after_three ≡ (
            ok tt,
            redeemed mock
                (some true)
                (written mock_codec (voucher_of 2) true)
                after_three
                true
                (signed_voucher mock_codec (voucher_of 2) true),
          )))
        ⊎ ((u256_max / 2 ≤ ticket_of mock_codec (voucher_of 2) true rand)
            × (claim mock (some true) (written mock_codec (voucher_of 2) true) after_three
                ≡ (err (module_error voucher_did_not_win), after_three))))
redeemed_in_time_example =
    redeemed_in_time mock_codec (voucher_of 2) true mock-IsLawful punctual (some true) reach_three
      (voucher_of-IsInRange 2 (omega arith)) refl refl (omega arith) (omega arith) (omega arith)
      (omega arith) (omega arith)

-- Each hook adds to the number of the state.
abbrev renumber : TestPallet → ℕ → System → System
renumber p n y = record y { number = y.number + n }

test_initialised-draw_example :
    (mock.history.get (test_initialised mock renumber 4 after_three).history 4
      ≡ some (mock.random (hooked mock renumber 4 after_three system) (topic 4)))
    × ((test_initialised mock renumber 4 after_three).system
        ≡ renumber insecure_randomness_collective_flip 4
            (hooked mock renumber 4 after_three system))
    × (mock.history.get (prepare_block mock renumber 4 after_three).history 4
        ≡ some (
            mock.random
              (hooked mock renumber 4 after_three insecure_randomness_collective_flip)
              (topic 4)))
test_initialised-draw_example = test_initialised-draw mock renumber 4 after_three
