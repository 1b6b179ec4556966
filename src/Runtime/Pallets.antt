-- ===== src/Runtime/Pallets.antt =====
-- The pallets of the runtime and their order (`construct_runtime!`, blockchain/runtime/src/lib.rs),
-- and the hooks that run when a block is initialised.
pub mod Order
use guillotine.Base.{ℕ, List, [], ◌∷◌}
use guillotine.Pallet.Config.{Config, State}
use guillotine.Pallet.History.{on_initialize}

pub data Pallet : Type 0 where
  system : Pallet
  timestamp : Pallet
  aura : Pallet
  grandpa : Pallet
  balances : Pallet
  transaction_payment : Pallet
  sudo : Pallet
  nfts : Pallet
  insecure_randomness_collective_flip : Pallet
  probabilistic_payments : Pallet

-- `AllPalletsWithSystem`
unfoldable pub all_pallets_with_system : List Pallet
all_pallets_with_system =
    system ∷ timestamp ∷ aura ∷ grandpa ∷ balances ∷ transaction_payment ∷ sudo ∷ nfts
    ∷ insecure_randomness_collective_flip ∷ probabilistic_payments ∷ []

-- The hooks `on_initialize` of the other pallets, over the state that they share.
abbrev pub Hooks : Config → Type 0
Hooks C = Pallet → ℕ → C.SystemState → C.SystemState

module _ (C : Config) where
  -- The hook of one pallet: this repository's own, or one of FRAME's.
  unfoldable pub pallet_on_initialize : Hooks C → Pallet → ℕ → State C → State C
  pallet_on_initialize hooks probabilistic_payments n s = (on_initialize C n s).1
  pallet_on_initialize hooks p n s = record s { system = hooks p n s.system }

  -- The hooks of a tuple of pallets, run in their order.
  abbrev pub in_order : {P : Type 0} → (P → ℕ → State C → State C) → List P → ℕ → State C → State C
  in_order hook [] n s = s
  in_order hook (p ∷ ps) n s = in_order hook ps n (hook p n s)
