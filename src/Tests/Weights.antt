-- ===== src/Tests/Weights.antt =====
-- The writes of a block and of a claim, at concrete data.
use guillotine.Base.{◌+◌, ◌≤◌, ◌≡◌, true, none, some, [], ltb, if◌then◌else◌}
use guillotine.Pallet.Config.{State, epoch_length}
use guillotine.Pallet.History.{on_initialize}
use guillotine.Pallet.Claim.{claim}
use guillotine.Pallet.Mock.{mock, mock-IsLawful}
use guillotine.Pallet.Weights.Writes.{counting, declared_writes}

abbrev unwritten : State (counting mock)
unwritten = record { system = record { number = 2000; events = [] }; history = (0, λ b. none) }

declared_writes_example :
    let (weight, t) = on_initialize (counting mock) 2000 unwritten in
    (weight ≡ mock.reads_writes 1 2)
    × (t.history.0 ≡ 0 + (if ltb epoch_length 2000 then 2 else 1))
    × (t.history.0 ≤ 0 + 2)
    × ((claim (counting mock) (some true) [] unwritten).1.history.0 ≡ 0)
declared_writes_example = declared_writes mock mock-IsLawful 2000 unwritten (some true) []
