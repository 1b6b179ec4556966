-- ===== src/Pallet/TestRuntime/Order.antt =====
-- What the order of the pallets means in the tests' runtime.
use guillotine.Base.{ℕ, ◌≡◌, refl, ap, ◌∙◌, some, arith}
use guillotine.Pallet.Config.{Config, State}
use guillotine.Pallet.History.{topic, on_initialize}
use guillotine.Pallet.History.Window.{get-on_initialize}
use guillotine.Runtime.Pallets.{in_order}
use guillotine.Pallet.TestRuntime.{
  TestPallet, system, insecure_randomness_collective_flip, test_pallets, test_on_initialize,
  prepare_block,
}

module _ (C : Config) (hooks : TestPallet → ℕ → C.SystemState → C.SystemState) (n : ℕ)
    (s : State C) where
  -- The state after the hooks of a block.
  abbrev pub test_initialised : State C
  test_initialised = in_order C (test_on_initialize C hooks) test_pallets n s

  -- The state of the other pallets after one hook.
  abbrev pub hooked : TestPallet → C.SystemState
  hooked p = hooks p n s.system

  -- The payments' hook draws for its block from the state that it finds.
  drawn_from :
      (y : C.SystemState)
      → C.history.get (on_initialize C n (record s { system = y })).1.history n
        ≡ some (C.random y (topic n))
  drawn_from y = get-on_initialize C n (record s { system = y }) n ∙ ground arith

  -- When the hooks of a block have run in the order of the tests' runtime, its entry is drawn
  -- from the state before the collective flip's hook, which runs after it; when a test calls the
  -- two hooks itself, the entry is drawn from the state that the flip's hook left.
  pub test_initialised-draw :
      (C.history.get test_initialised.history n ≡ some (C.random (hooked system) (topic n)))
      × (test_initialised.system ≡ hooks insecure_randomness_collective_flip n (hooked system))
      × (C.history.get (prepare_block C hooks n s).history n
          ≡ some (C.random (hooked insecure_randomness_collective_flip) (topic n)))
  unfolding test_pallets test_on_initialize prepare_block
  test_initialised-draw = (
    drawn_from (hooked system),
    ap (λ y. hooks insecure_randomness_collective_flip n y) kept,
    drawn_from (hooked insecure_randomness_collective_flip),
  )
    where
      kept : (on_initialize C n (record s { system = hooked system })).1.system ≡ hooked system
      kept = unfold on_initialize in refl
