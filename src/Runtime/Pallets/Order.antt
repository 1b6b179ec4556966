-- ===== src/Runtime/Pallets/Order.antt =====
-- What the order of the pallets means for the randomness of a block.
use guillotine.Base.{ℕ, suc, ◌≡◌, refl, sym, ap, ◌∙◌, some, List, [], ◌∷◌, arith}
use guillotine.Pallet.Config.{Config, State}
use guillotine.Pallet.History.{topic, on_initialize}
use guillotine.Pallet.History.Window.{get-on_initialize}
use guillotine.Pallet.Chain.{Chain, block}
use guillotine.Runtime.Pallets.{
  Pallet, system, timestamp, aura, grandpa, balances, transaction_payment, sudo, nfts,
  insecure_randomness_collective_flip, all_pallets_with_system, Hooks, pallet_on_initialize,
  in_order,
}

-- The pallets of FRAME, in the runtime's order.
abbrev pub frame_pallets : List Pallet
frame_pallets =
    system ∷ timestamp ∷ aura ∷ grandpa ∷ balances ∷ transaction_payment ∷ sudo ∷ nfts
    ∷ insecure_randomness_collective_flip ∷ []

module _ (C : Config) where
  -- The hooks of some of FRAME's pallets, one after the other.
  abbrev pub run_hooks : Hooks C → List Pallet → ℕ → C.SystemState → C.SystemState
  run_hooks hooks [] n y = y
  run_hooks hooks (p ∷ ps) n y = run_hooks hooks ps n (hooks p n y)

  run_hooks-number :
      (hooks : Hooks C) (n : ℕ)
      → ((p : Pallet) (y : C.SystemState) → C.block_number (hooks p n y) ≡ C.block_number y)
      → (ps : List Pallet) (y : C.SystemState)
      → C.block_number (run_hooks hooks ps n y) ≡ C.block_number y
  run_hooks-number hooks n keep [] y = refl
  run_hooks-number hooks n keep (p ∷ ps) y =
      run_hooks-number hooks n keep ps (hooks p n y) ∙ keep p y

  module _ (hooks : Hooks C) (n : ℕ) (s : State C) where
    -- The state after the hooks of a block.
    abbrev pub initialised : State C
    initialised = in_order C (pallet_on_initialize C hooks) all_pallets_with_system n s

    -- The state of the other pallets after their hooks.
    abbrev pub others : C.SystemState
    others = run_hooks hooks frame_pallets n s.system

    initialised-on_initialize : initialised ≡ (on_initialize C n (record s { system = others })).1
    unfolding all_pallets_with_system pallet_on_initialize
    initialised-on_initialize = refl

    initialised-system : initialised.system ≡ others
    unfolding on_initialize
    initialised-system = ap (λ x. x.system) initialised-on_initialize

    drawn_last : C.history.get initialised.history n ≡ some (C.random others (topic n))
    drawn_last =
        ap (λ x. C.history.get x.history n) initialised-on_initialize
        ∙ get-on_initialize C n (record s { system = others }) n
        ∙ ground arith

-- When the hooks of the next block have run in the runtime's order, the state is one of the
-- pallet's chain, all of FRAME's pallets have run their hooks, the collective flip's last, and
-- the block's entry is the randomness drawn from the state that they left.
pub initialised-Chain :
    (C : Config) (hooks : Hooks C) {n m : ℕ} {s : State C} (begun : C.SystemState)
    → ((p : Pallet) (y : C.SystemState) → C.block_number (hooks p m y) ≡ C.block_number y)
    → Chain C n s
    → m ≡ suc n
    → C.block_number begun ≡ m
    → let t = initialised C hooks m (record s { system = begun }) in
      Chain C m t
      × (t.system ≡ run_hooks C hooks frame_pallets m begun)
      × (C.history.get t.history m ≡ some (C.random t.system (topic m)))
initialised-Chain C hooks {n} {m} {s} begun keep r e c =
    let start = record s { system = begun } in
    let y = others C hooks m start in
    (
      block y r e (run_hooks-number C hooks m keep frame_pallets begun ∙ c)
          (initialised-on_initialize C hooks m start),
      initialised-system C hooks m start,
      drawn_last C hooks m start
          ∙ ap (λ x. some (C.random x (topic m))) (sym (initialised-system C hooks m start)),
    )
