-- ===== src/Pallet/History.antt =====
-- `RandomnessHistory` and the hook `on_initialize`
-- (blockchain/pallets/probabilistic-payments/src/lib.rs).
pub mod Window
use guillotine.Base.{ℕ, ◌-◌, none, some, [], ◌∷◌, ◌++◌, Bytes, to_le_bytes, ltb, if◌then◌else◌}
use guillotine.Pallet.Config.{Config, State, epoch_length}

-- `"🎲👛".as_bytes()`
abbrev dice_and_purse : Bytes
dice_and_purse = 0xf0 ∷ 0x9f ∷ 0x8e ∷ 0xb2 ∷ 0xf0 ∷ 0x9f ∷ 0x91 ∷ 0x9b ∷ []

-- The subject of the random draw at block `n`.
unfoldable pub topic : ℕ → Bytes
topic n = to_le_bytes 4 n ++ dice_and_purse

module _ (C : Config) where
  -- `on_initialize(n)` stores the randomness of block `n`, and removes an entry that expires.
  unfoldable pub on_initialize : ℕ → State C → C.Weight × State C
  on_initialize n s =
      let rand = C.random s.system (topic n) in
      let stored = C.history.set s.history n (some rand) in
      let expired = n - epoch_length in
      let history = if ltb 0 expired then C.history.set stored expired none else stored in
      (C.reads_writes 1 2, record s { history = history })
