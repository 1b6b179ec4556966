-- ===== src/Runtime/Version.antt =====
-- The version of the runtime (`VERSION` and `native_version`, blockchain/runtime/src/lib.rs).
use Prim.Native.String.{String}
use guillotine.Base.{ℕ, List, [], Bytes}
use guillotine.Runtime.Constants.{spec_version, transaction_version}

-- `RuntimeVersion`; the versions of the APIs come from `impl_runtime_apis!`.
pub record RuntimeVersion : Type 0 where
  pub spec_name : String
  pub impl_name : String
  pub authoring_version : ℕ
  pub spec_version : ℕ
  pub impl_version : ℕ
  pub apis : List (Bytes × ℕ)
  pub transaction_version : ℕ
  pub state_version : ℕ

-- `NativeVersion`
pub record NativeVersion : Type 0 where
  pub runtime_version : RuntimeVersion
  pub can_author_with : List ℕ

-- `VERSION`
abbrev pub runtime_version : List (Bytes × ℕ) → RuntimeVersion
runtime_version apis = record {
  spec_name = "guillotine-chain";
  impl_name = "guillotine-chain";
  authoring_version = 1;
  spec_version = spec_version;
  impl_version = 1;
  apis = apis;
  transaction_version = transaction_version;
  state_version = 1;
}

unfoldable pub native_version : List (Bytes × ℕ) → NativeVersion
native_version apis = record { runtime_version = runtime_version apis; can_author_with = [] }
