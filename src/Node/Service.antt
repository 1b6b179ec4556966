-- ===== src/Node/Service.antt =====
-- `new_partial` and `new_full` (blockchain/node/src/service.rs), as the sequence of calls that
-- starting a node makes.
pub mod Laws
pub mod Inherents
use guillotine.Base.{ℕ, Bool, true, false, not, List, [], Result}
use guillotine.Node.Trace.{Run, Answer, ◌>>=◌, ◌>>◌, perform, did, expect, when}
use Prim.Native.String.{String}

-- The parts of `Configuration` that decide what is started.
pub record Configuration : Type 0 where
  -- `telemetry_endpoints` is there and not empty
  pub has_telemetry : Bool
  pub is_authority : Bool
  pub force_authoring : Bool
  pub disable_grandpa : Bool
  pub offchain_worker_enabled : Bool

-- `GRANDPA_JUSTIFICATION_PERIOD`, in blocks
abbrev pub grandpa_justification_period : ℕ
grandpa_justification_period = 512

-- The calls that can fail, spawn a task or start the network, in the words of the source.
pub data Step : Type 0 where
  new_telemetry_worker : Step
  new_full_parts : Step
  spawn_telemetry : Step
  new_transaction_pool : Bool → Step
  -- with the justification period
  grandpa_block_import : ℕ → Step
  aura_slot_duration : Step
  aura_import_queue : Step
  genesis_block_hash : Step
  build_network : Step
  spawn_offchain_worker : Bool → Step
  spawn_tasks : Step
  -- asked again by an authority
  authoring_slot_duration : Step
  start_aura : Bool → Step
  spawn_aura : Step
  -- with the keystore or not, and the justification period
  run_grandpa_voter : Bool → ℕ → Step
  spawn_grandpa_voter : Step
  start_network : Step

-- Spawning a task, making the pool and starting the network cannot fail.
abbrev pub can_fail : Step → Bool
can_fail spawn_telemetry = false
can_fail (new_transaction_pool _) = false
can_fail (spawn_offchain_worker _) = false
can_fail spawn_aura = false
can_fail spawn_grandpa_voter = false
can_fail start_network = false
can_fail _ = true

-- A missing genesis block makes the node panic.
module _ (answer : Step → Answer) where
  unfoldable pub new_partial : Configuration → Run Step (Unit {0})
  new_partial config = do
    when config.has_telemetry (perform answer new_telemetry_worker)
    perform answer new_full_parts
    when config.has_telemetry (did spawn_telemetry)
    did (new_transaction_pool config.is_authority)
    perform answer (grandpa_block_import grandpa_justification_period)
    perform answer aura_slot_duration
    perform answer aura_import_queue

  -- From the partial components to the spawned tasks of the service.
  unfoldable pub build_service : Configuration → Run Step (Unit {0})
  build_service config = do
    expect answer genesis_block_hash
    perform answer build_network
    when config.offchain_worker_enabled (did (spawn_offchain_worker config.is_authority))
    perform answer spawn_tasks

  unfoldable pub author_blocks : Configuration → Run Step (Unit {0})
  author_blocks config = do
    perform answer authoring_slot_duration
    perform answer (start_aura config.force_authoring)
    did spawn_aura

  -- The voter has the keystore only if the node is an authority.
  unfoldable pub vote : Configuration → Run Step (Unit {0})
  vote config = do
    perform answer (run_grandpa_voter config.is_authority grandpa_justification_period)
    did spawn_grandpa_voter

  unfoldable pub prepare : Configuration → Run Step (Unit {0})
  prepare config = do
    new_partial config
    build_service config
    when config.is_authority (author_blocks config)
    when (not config.disable_grandpa) (vote config)

  unfoldable pub new_full : Configuration → Run Step (Unit {0})
  new_full config = do prepare config; did start_network
