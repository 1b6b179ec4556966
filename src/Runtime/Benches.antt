-- ===== src/Runtime/Benches.antt =====
-- The benchmarks of the runtime and their API (`mod benches` and `frame_benchmarking::Benchmark`,
-- blockchain/runtime/src/lib.rs).
use Prim.Native.String.{String}
use guillotine.Base.{Bool, List, [], ◌∷◌, ◌++◌, Result, ok, ◌>>=◌}

-- A row of `define_benchmarks!`: a crate, and the pallet that it is measured on.
pub data BenchPallet : Type 0 where
  baseline_bench : BenchPallet
  system_bench : BenchPallet
  balances : BenchPallet
  timestamp : BenchPallet
  validator_subset_selection : BenchPallet

abbrev pub Bench : Type 0
Bench = String × BenchPallet

unfoldable pub benches : List Bench
benches =
    ("frame_benchmarking", baseline_bench)
    ∷ ("frame_system", system_bench)
    ∷ ("pallet_balances", balances)
    ∷ ("pallet_timestamp", timestamp)
    ∷ ("pallet_validator_subset_selection", validator_subset_selection)
    ∷ []

-- What the API takes from `frame_benchmarking`: what `list_benchmark!` lists for a row, and what
-- `add_benchmark!` does with the batches so far.
pub record Benchmarking : Type 1 where
  pub BenchmarkList : Type 0
  pub StorageInfo : Type 0
  pub BenchmarkConfig : Type 0
  pub TrackedStorageKey : Type 0
  pub BenchmarkBatch : Type 0
  pub list_benchmark : Bool → Bench → BenchmarkList
  pub add_benchmark :
      BenchmarkConfig × List TrackedStorageKey
      → Bench
      → List BenchmarkBatch
      → Result String (List BenchmarkBatch)
  pub storage_info : List StorageInfo
  pub whitelisted_storage_keys : List TrackedStorageKey

module _ (B : Benchmarking) where
  -- `list_benchmarks!` pushes a list for each row.
  pub list_benchmarks : Bool → List Bench → List B.BenchmarkList → List B.BenchmarkList
  list_benchmarks extra [] list = list
  list_benchmarks extra (b ∷ bs) list =
      list_benchmarks extra bs (list ++ B.list_benchmark extra b ∷ [])

  -- `add_benchmarks!` goes through the rows, and stops at an error.
  pub add_benchmarks :
      B.BenchmarkConfig × List B.TrackedStorageKey
      → List Bench
      → List B.BenchmarkBatch
      → Result String (List B.BenchmarkBatch)
  add_benchmarks params [] batches = ok batches
  add_benchmarks params (b ∷ bs) batches =
      B.add_benchmark params b batches >>= add_benchmarks params bs

  unfoldable pub benchmark_metadata : Bool → List B.BenchmarkList × List B.StorageInfo
  unfolding list_benchmarks benches
  benchmark_metadata extra = (list_benchmarks extra benches [], B.storage_info)

  unfoldable pub dispatch_benchmark : B.BenchmarkConfig → Result String (List B.BenchmarkBatch)
  unfolding add_benchmarks benches
  dispatch_benchmark config =
      let whitelist = B.whitelisted_storage_keys in add_benchmarks (config, whitelist) benches []
