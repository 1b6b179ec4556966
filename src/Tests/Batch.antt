-- ===== src/Tests/Batch.antt =====
-- Two claims in either order, at concrete data.
use mathlib.Core.List.{Perm}
use mathlib.Core.List.Perm
use guillotine.Base.{◌≡◌, refl, Bool, List, [], ◌∷◌, ◌++◌, map}
use guillotine.Pallet.Config.{Event}
use guillotine.Pallet.Mock.{mock, mock-IsLawful}
use guillotine.Pallet.Claim.Batch.{EventLog, Call, run_claims, alone, run_claims-perm}
use guillotine.Tests.{after_three, bytes_for, alice}

-- The mock configuration has its last event first.
abbrev oldest_first : List (Event Bool) → List (Event Bool)
oldest_first [] = []
oldest_first (e ∷ es) = oldest_first es ++ e ∷ []

abbrev log : EventLog mock
log = record { events = λ s. oldest_first s.events; events-deposit_event = λ s e. refl }

abbrev one_way : List (Call mock)
one_way = (alice, bytes_for 2) ∷ (alice, bytes_for 4) ∷ []

abbrev other_way : List (Call mock)
other_way = (alice, bytes_for 4) ∷ (alice, bytes_for 2) ∷ []

run_claims-perm_example :
    ((run_claims mock one_way after_three).0 ≡ map (alone mock after_three) one_way)
    × ((run_claims mock other_way after_three).0 ≡ map (alone mock after_three) other_way)
    × Perm
        (log.events (run_claims mock one_way after_three).1.system)
        (log.events (run_claims mock other_way after_three).1.system)
    × ((run_claims mock one_way after_three).1.history
        ≡ (run_claims mock other_way after_three).1.history)
run_claims-perm_example =
    run_claims-perm mock mock-IsLawful log after_three one_way other_way
      (Perm.swap (alice, bytes_for 4) (alice, bytes_for 2) [])
