-- ===== src/Runtime/TryRuntime.antt =====
-- The API of the feature `try-runtime` (blockchain/runtime/src/lib.rs), whose failures panic.
use Prim.Native.String.{String}
use guillotine.Base.{Bool, Result, ok, err, panic, ◌>>=◌}

-- What the API takes from `Executive` and from the limits of a block.
pub record TryFrame : Type 1 where
  pub State : Type 0
  pub Block : Type 0
  pub Weight : Type 0
  pub UpgradeCheckSelect : Type 0
  pub TryStateSelect : Type 0
  pub try_runtime_upgrade : UpgradeCheckSelect → State → Result String (Weight × State)
  pub try_execute_block :
      Block → Bool → Bool → TryStateSelect → State → Result String (Weight × State)
  pub max_block : Weight

-- `unwrap()` and `expect(…)`
abbrev pub unwrap : {A : Type 0} → Result String A → Result String A
unwrap (ok a) = ok a
unwrap (err _) = panic
unwrap panic = panic

module _ (F : TryFrame) where
  unfoldable pub on_runtime_upgrade :
      F.UpgradeCheckSelect → F.State → Result String ((F.Weight × F.Weight) × F.State)
  on_runtime_upgrade checks s = do
    (weight, t) ← unwrap (F.try_runtime_upgrade checks s)
    ok ((weight, F.max_block), t)

  unfoldable pub execute_block :
      F.Block → Bool → Bool → F.TryStateSelect → F.State → Result String (F.Weight × F.State)
  execute_block block state_root_check signature_check select s =
      unwrap (F.try_execute_block block state_root_check signature_check select s)
