-- ===== src/Pallet/Chain.antt =====
-- The pallet over the life of a chain: blocks are initialised one after the other, and between
-- two of them come claims and steps of other pallets.
pub mod Reach
pub mod Redeem
pub mod Decided
use guillotine.Base.{ℕ, suc, ◌≡◌, none, Bytes}
use guillotine.Pallet.Config.{Config, State}
use guillotine.Pallet.History.{on_initialize}
use guillotine.Pallet.Claim.{claim}

module _ (C : Config) where
  -- `Chain n s`: `s` is a state of the pallet in block `n`.
  pub data Chain : ℕ → State C → Type 0 where
    genesis :
        {n : ℕ} {s : State C}
        → n ≡ 0
        → C.block_number s.system ≡ 0
        → ((b : ℕ) → C.history.get s.history b ≡ none)
        → Chain n s
    block :
        {n m : ℕ} {s t : State C} (system : C.SystemState)
        → Chain n s
        → m ≡ suc n
        → C.block_number system ≡ m
        → t ≡ (on_initialize C m (record s { system = system })).1
        → Chain m t
    call :
        {n : ℕ} {s t : State C} (origin : C.Origin) (voucher : Bytes)
        → Chain n s
        → t ≡ (claim C origin voucher s).1
        → Chain n t
    elsewhere :
        {n : ℕ} {s t : State C} (system : C.SystemState)
        → Chain n s
        → C.block_number system ≡ n
        → t ≡ record s { system = system }
        → Chain n t
