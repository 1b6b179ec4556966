-- ===== src/Node/Command.antt =====
-- The command line (blockchain/node/src/cli.rs) and `run` (blockchain/node/src/command.rs), as the
-- sequence of calls that a command makes.
pub mod Spec
use Prim.Native.String.{String}
use guillotine.Runtime.Constants.{existential_deposit}
use guillotine.Base.{
  ℕ, Bool, true, false, Option, none, some, List, [], ◌∷◌, ◌||◌, Bytes, Result, if◌then◌else◌,
}
use text.Mathlib.Text.{◌==◌}
use guillotine.Node.ChainSpec.{Keyring, ChainSpec, development_config, local_testnet_config}
use guillotine.Node.Trace.{Run, Answer, ◌>>=◌, ◌>>◌, perform, fail}

-- `BenchmarkCmd`, with the arguments of each command left open.
pub data BenchmarkCmd (Args : Type 0) : Type 0 where
  benchmark_pallet : Args → BenchmarkCmd Args
  benchmark_block : Args → BenchmarkCmd Args
  benchmark_storage : Args → BenchmarkCmd Args
  benchmark_overhead : Args → BenchmarkCmd Args
  benchmark_extrinsic : Args → BenchmarkCmd Args
  benchmark_machine : Args → BenchmarkCmd Args

-- `Subcommand`
pub data Subcommand (Args : Type 0) : Type 0 where
  key : Args → Subcommand Args
  build_spec : Args → Subcommand Args
  check_block : Args → Subcommand Args
  export_blocks : Args → Subcommand Args
  export_state : Args → Subcommand Args
  import_blocks : Args → Subcommand Args
  purge_chain : Args → Subcommand Args
  revert : Args → Subcommand Args
  benchmark : BenchmarkCmd Args → Subcommand Args
  try_runtime : Subcommand Args
  chain_info : Args → Subcommand Args

-- `Cli`
pub record Cli (Args : Type 0) : Type 0 where
  pub subcommand : Option (Subcommand Args)
  pub run : Args

-- The features that the node is built with.
pub record Features : Type 0 where
  pub runtime_benchmarks : Bool
  pub try_runtime : Bool

-- What a command is given besides its arguments.
pub data Resource : Type 0 where
  cli chain_spec network database config : Resource
  client import_queue backend aux_revert : Resource
  raw_db raw_storage inherent_data remark_builder : Resource
  -- for the account of a seed, and the value
  transfer_keep_alive_builder : String → ℕ → Resource
  reference_hardware : Resource

-- The calls that leave `run`: making a runner for a command, `new_partial` of the service,
-- `inherent_benchmark_data`, `new_full`, what `run_node_until_exit` does with the node that it
-- made, and the command itself with what it is given.
pub data Step (Args : Type 0) : Type 0 where
  create_runner : Args → Step Args
  new_partial : Step Args
  make_inherent_data : Step Args
  new_full : Step Args
  run_until_exit : Step Args
  run_command : Args → List Resource → Step Args

-- `notice` is `try_runtime_cli::DEPRECATION_NOTICE`.
module _ {Args : Type 0} (answer : Step Args → Answer) (notice : String) where
  run_benchmark : Features → BenchmarkCmd Args → Run (Step Args) (Unit {0})
  run_benchmark features (benchmark_pallet cmd) = elim features.runtime_benchmarks [
    | true ↦ perform answer (run_command cmd (config ∷ []))
    | false ↦
        fail
          "Runtime benchmarking wasn't enabled when building the node. You can enable it with `--features runtime-benchmarks`."
  ]
  run_benchmark features (benchmark_block cmd) = do
    perform answer new_partial
    perform answer (run_command cmd (client ∷ []))
  run_benchmark features (benchmark_storage cmd) = elim features.runtime_benchmarks [
    | true ↦ do
      perform answer new_partial
      perform answer (run_command cmd (config ∷ client ∷ raw_db ∷ raw_storage ∷ []))
    | false ↦ fail "Storage benchmarking can be enabled with `--features runtime-benchmarks`."
  ]
  run_benchmark features (benchmark_overhead cmd) = do
    perform answer new_partial
    perform answer make_inherent_data
    perform answer (run_command cmd (config ∷ client ∷ inherent_data ∷ remark_builder ∷ []))
  run_benchmark features (benchmark_extrinsic cmd) = do
    perform answer new_partial
    perform answer make_inherent_data
    perform answer (
        run_command cmd (
          client
          ∷ inherent_data
          ∷ remark_builder
          ∷ transfer_keep_alive_builder "Alice" existential_deposit
          ∷ []))
  run_benchmark features (benchmark_machine cmd) =
      perform answer (run_command cmd (config ∷ reference_hardware ∷ []))

  -- The arguments that the runner of a benchmark is made from.
  benchmark_args : BenchmarkCmd Args → Args
  benchmark_args (benchmark_pallet cmd) = cmd
  benchmark_args (benchmark_block cmd) = cmd
  benchmark_args (benchmark_storage cmd) = cmd
  benchmark_args (benchmark_overhead cmd) = cmd
  benchmark_args (benchmark_extrinsic cmd) = cmd
  benchmark_args (benchmark_machine cmd) = cmd

  run_subcommand : Features → Args → Option (Subcommand Args) → Run (Step Args) (Unit {0})
  run_subcommand features run (some (key cmd)) = perform answer (run_command cmd (cli ∷ []))
  run_subcommand features run (some (build_spec cmd)) = do
    perform answer (create_runner cmd)
    perform answer (run_command cmd (chain_spec ∷ network ∷ []))
  run_subcommand features run (some (check_block cmd)) = do
    perform answer (create_runner cmd)
    perform answer new_partial
    perform answer (run_command cmd (client ∷ import_queue ∷ []))
  run_subcommand features run (some (export_blocks cmd)) = do
    perform answer (create_runner cmd)
    perform answer new_partial
    perform answer (run_command cmd (client ∷ database ∷ []))
  run_subcommand features run (some (export_state cmd)) = do
    perform answer (create_runner cmd)
    perform answer new_partial
    perform answer (run_command cmd (client ∷ chain_spec ∷ []))
  run_subcommand features run (some (import_blocks cmd)) = do
    perform answer (create_runner cmd)
    perform answer new_partial
    perform answer (run_command cmd (client ∷ import_queue ∷ []))
  run_subcommand features run (some (purge_chain cmd)) = do
    perform answer (create_runner cmd)
    perform answer (run_command cmd (database ∷ []))
  run_subcommand features run (some (revert cmd)) = do
    perform answer (create_runner cmd)
    perform answer new_partial
    perform answer (run_command cmd (client ∷ backend ∷ aux_revert ∷ []))
  run_subcommand features run (some (benchmark cmd)) = do
    perform answer (create_runner (benchmark_args cmd))
    run_benchmark features cmd
  run_subcommand features run (some try_runtime) = elim features.try_runtime [
    | true ↦ fail notice
    | false ↦
        fail
          "TryRuntime wasn't enabled when building the node. You can enable it with `--features try-runtime`."
  ]
  run_subcommand features run (some (chain_info cmd)) = do
    perform answer (create_runner cmd)
    perform answer (run_command cmd (config ∷ []))
  run_subcommand features run none = do
    perform answer (create_runner run)
    perform answer new_full
    perform answer run_until_exit

  -- `run()`, from the parsed command line: its result and the calls that it made.
  unfoldable pub run : Features → Cli Args → Result String (Unit {0}) × List (Step Args)
  unfolding run_subcommand run_benchmark benchmark_args
  run features c = run_subcommand features c.run c.subcommand []

-- `load_spec`, over the two configurations and `ChainSpec::from_json_file`.
unfoldable pub load_spec :
    (K : Keyring)
    → Option Bytes
    → (String → Result String (ChainSpec K))
    → String
    → Result String (ChainSpec K)
load_spec K wasm from_json_file id =
    if id == "dev"
    then development_config K wasm
    else if id == "" || id == "local"
    then local_testnet_config K wasm
    else from_json_file id
