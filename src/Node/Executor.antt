-- ===== src/Node/Executor.antt =====
-- The native executor (`ExecutorDispatch`, blockchain/node/src/service.rs), over the runtime's
-- dispatch function, and what the command line says of the node (`SubstrateCli`,
-- blockchain/node/src/command.rs), over what the build puts into the environment.
use Prim.Native.String.{String}
use guillotine.Base.{ℕ, true, false, Option, List, Bytes}
use guillotine.Runtime.Version.{NativeVersion}
use guillotine.Runtime.Version as Version
use guillotine.Node.Command.{Features}

-- What the executor takes from the runtime, and the versions of its APIs.
pub record NativeRuntime : Type 0 where
  pub dispatch : String → Bytes → Option Bytes
  pub apis : List (Bytes × ℕ)

-- The host functions besides Substrate's own.
pub data HostFunctions : Type 0 where
  benchmarking : HostFunctions
  no_more : HostFunctions

unfoldable pub extend_host_functions : Features → HostFunctions
extend_host_functions features = elim features.runtime_benchmarks [
  | true ↦ benchmarking
  | false ↦ no_more
]

unfoldable pub dispatch : NativeRuntime → String → Bytes → Option Bytes
dispatch R method input = R.dispatch method input

unfoldable pub native_version : NativeRuntime → NativeVersion
native_version R = Version.native_version R.apis

-- `SUBSTRATE_CLI_IMPL_VERSION`, `CARGO_PKG_DESCRIPTION` and `CARGO_PKG_AUTHORS`
pub record Environment : Type 0 where
  pub impl_version : String
  pub description : String
  pub authors : String

-- `SubstrateCli`
pub record About : Type 0 where
  pub impl_name : String
  pub impl_version : String
  pub description : String
  pub author : String
  pub support_url : String
  pub copyright_start_year : ℕ

unfoldable pub about : Environment → About
about env = record {
  impl_name = "Substrate Node";
  impl_version = env.impl_version;
  description = env.description;
  author = env.authors;
  support_url = "support.anonymous.an";
  copyright_start_year = 2017;
}
