-- ===== src/Tests/Runtime.antt =====
-- The theorems on the runtime's pallets at concrete data.
use guillotine.Base.{◌≡◌, refl, none, some, []}
use guillotine.Pallet.Config.{State}
use guillotine.Pallet.History.{topic}
use guillotine.Pallet.Mock.{mock, System}
use guillotine.Pallet.Chain.{Chain, genesis}
use guillotine.Runtime.Pallets.{Hooks}
use guillotine.Runtime.Pallets.Order.{initialised, run_hooks, frame_pallets, initialised-Chain}

abbrev idle_hooks : Hooks mock
idle_hooks p n y = y

abbrev begin : State mock
begin = record { system = record { number = 0; events = [] }; history = λ b. none }

abbrev first_block : System
first_block = record { number = 1; events = [] }

initialised-Chain_example :
    let t = initialised mock idle_hooks 1 (record begin { system = first_block }) in
    Chain mock 1 t
    × (t.system ≡ run_hooks mock idle_hooks frame_pallets 1 first_block)
    × (mock.history.get t.history 1 ≡ some (mock.random t.system (topic 1)))
initialised-Chain_example =
    initialised-Chain mock idle_hooks {s = begin} first_block (λ p y. refl)
      (genesis refl refl (λ b. refl)) refl refl
