-- ===== src/Pallet/Dispatch.antt =====
-- The bound on the argument of `claim` (`MaxVoucherLength`,
-- blockchain/pallets/probabilistic-payments/src/lib.rs), which is met before the call is made.
pub mod Bound
use guillotine.Base.{ℕ, ◌≡◌, Option, none, some, Bytes, Result, length, leb, if◌then◌else◌}
use guillotine.Pallet.Config.{Config, State, DispatchError}
use guillotine.Pallet.Claim.{claim}

-- `MaxVoucherLength`
abbrev pub max_voucher_length : ℕ
max_voucher_length = 256

-- How a `BoundedVec<u8, S>` is made of bytes: not at all, if there are too many.
pub record Bounded : Type 0 where
  pub try_from : ℕ → Bytes → Option Bytes
  pub try_from_lem :
      (bound : ℕ) (v : Bytes) → try_from bound v ≡ (if leb (length v) bound then some v else none)

-- `claim` with the bytes of its argument; `none` if the argument is refused.
unfoldable pub claim_bytes :
    (C : Config)
    → Bounded
    → C.Origin
    → Bytes
    → State C
    → Option (Result DispatchError (Unit {0}) × State C)
claim_bytes C B origin bytes s = elim (B.try_from max_voucher_length bytes) [
  | none ↦ none
  | some voucher ↦ some (claim C origin voucher s)
]
