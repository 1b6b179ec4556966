-- ===== src/Node/Service/Laws.antt =====
-- Which calls the start of a node makes.
use Prim.Native.String.{String}
use guillotine.Base.{
  err, panic, ◌⊎◌, inl, inr, ◌≡◌, ◌≢◌, refl, Bool, true, false, not, List, [], ◌∷◌, ◌++◌, Result,
  ok,
}
use guillotine.Node.Trace.{Answer, go_on, perform, Every, did}
use guillotine.Node.Trace.Emits.{
  Emits, Emits-perform, Emits-when_true, Emits-then, Emits-did, Emits-expect,
}
use guillotine.Node.Service.{
  Configuration, Step, new_telemetry_worker, new_full_parts, spawn_telemetry, new_transaction_pool,
  grandpa_block_import, aura_slot_duration, aura_import_queue, genesis_block_hash, build_network,
  spawn_offchain_worker, spawn_tasks, authoring_slot_duration, start_aura, spawn_aura,
  run_grandpa_voter, spawn_grandpa_voter, start_network, new_partial, build_service, author_blocks,
  vote, prepare, new_full,
}

-- What a configuration lets a node call, and with which flags.
abbrev pub Allows : Configuration → Step → Type 0
Allows config new_telemetry_worker = config.has_telemetry ≡ true
Allows config spawn_telemetry = config.has_telemetry ≡ true
Allows config (new_transaction_pool is_authority) = is_authority ≡ config.is_authority
Allows config (spawn_offchain_worker is_authority) =
    (config.offchain_worker_enabled ≡ true) × (is_authority ≡ config.is_authority)
Allows config authoring_slot_duration = config.is_authority ≡ true
Allows config (start_aura force) = (config.is_authority ≡ true) × (force ≡ config.force_authoring)
Allows config spawn_aura = config.is_authority ≡ true
Allows config (run_grandpa_voter keystore period) =
    (config.disable_grandpa ≡ false) × (keystore ≡ config.is_authority) × (period ≡ 512)
Allows config (grandpa_block_import period) = period ≡ 512
Allows config spawn_grandpa_voter = config.disable_grandpa ≡ false
Allows config _ = Unit

-- Before the network is started, only other calls are made, all of them allowed.
abbrev Prepares : Configuration → Step → Type 0
Prepares config s = Allows config s × (s ≢ start_network)

not-true : (b : Bool) → not b ≡ true → b ≡ false
not-true true e = cc
not-true false e = refl

module _ (answer : Step → Answer) (config : Configuration) where
  abbrev P : Step → Type 0
  P = Prepares config

  call : (s : Step) → Allows config s → s ≢ start_network → Emits P (perform answer s)
  call s a n = Emits-perform P answer s (a, n)

  make : (s : Step) → Allows config s → s ≢ start_network → Emits P (did s)
  make s a n = Emits-did P s (a, n)

  new_partial-emits : Emits P (new_partial answer config)
  unfolding new_partial
  new_partial-emits =
      Emits-then P _ _ (Emits-when_true P _ _ (λ h. call new_telemetry_worker h (λ e. cc))) (
        Emits-then P _ _ (call new_full_parts tt (λ e. cc)) (
          Emits-then P _ _ (Emits-when_true P _ _ (λ h. make spawn_telemetry h (λ e. cc))) (
            Emits-then P _ _ (make (new_transaction_pool config.is_authority) refl (λ e. cc)) (
              Emits-then P _ _ (call (grandpa_block_import 512) refl (λ e. cc)) (
                Emits-then P _ _ (call aura_slot_duration tt (λ e. cc))
                  (call aura_import_queue tt (λ e. cc)))))))

  build_service-emits : Emits P (build_service answer config)
  unfolding build_service
  build_service-emits = Emits-then P _ _ (Emits-expect P answer genesis_block_hash (tt, λ e. cc)) (
      Emits-then P _ _ (call build_network tt (λ e. cc)) (
        Emits-then P _ _
          (Emits-when_true P _ _
            (λ h. make (spawn_offchain_worker config.is_authority) (h, refl) (λ e. cc)))
          (call spawn_tasks tt (λ e. cc))))

  author_blocks-emits : config.is_authority ≡ true → Emits P (author_blocks answer config)
  unfolding author_blocks
  author_blocks-emits h = Emits-then P _ _ (call authoring_slot_duration h (λ e. cc)) (
      Emits-then P _ _ (call (start_aura config.force_authoring) (h, refl) (λ e. cc))
        (make spawn_aura h (λ e. cc)))

  vote-emits : config.disable_grandpa ≡ false → Emits P (vote answer config)
  unfolding vote
  vote-emits h =
      Emits-then P _ _ (call (run_grandpa_voter config.is_authority 512) (h, refl, refl) (λ e. cc))
        (make spawn_grandpa_voter h (λ e. cc))

  prepare-emits : Emits P (prepare answer config)
  unfolding prepare
  prepare-emits = Emits-then P _ _ new_partial-emits (
      Emits-then P _ _ build_service-emits (
        Emits-then P _ _ (Emits-when_true P _ _ author_blocks-emits)
          (Emits-when_true P _ _ (λ h. vote-emits (not-true _ h)))))

  -- The calls of the preparation, and its result.
  abbrev pub prepared : Result String (Unit {0}) × List Step
  prepared = prepare answer config []

  abbrev pub started : Result String (Unit {0}) × List Step
  started = new_full answer config []

  start_outcome :
      (r : Result String (Unit {0}) × List Step)
      → let s = go_on r.0 (λ _. did start_network) r.1 in
        ((r.0 ≡ ok tt) × (s ≡ (ok tt, r.1 ++ start_network ∷ []))) ⊎ ((r.0 ≢ ok tt) × (s ≡ r))
  start_outcome (ok tt, made) = inl (refl, refl)
  start_outcome (err e, made) = inr (λ h. cc, refl)
  start_outcome (panic, made) = inr (λ h. cc, refl)

  -- Before the network is started, a node makes only calls that its configuration allows, with
  -- the flags that it gives: it authors blocks only as an authority, and votes only if GRANDPA is
  -- enabled, with its keystore only as an authority, and with the justification period of 512
  -- blocks that its block import has. The network is started last, and exactly if all that
  -- succeeded.
  pub new_full-start :
      Every (λ s. Allows config s × (s ≢ start_network)) prepared.1
      × (((prepared.0 ≡ ok tt) × (started ≡ (ok tt, prepared.1 ++ start_network ∷ [])))
          ⊎ ((prepared.0 ≢ ok tt) × (started ≡ prepared)))
  unfolding new_full
  new_full-start = (prepare-emits.apply [] tt, start_outcome prepared)
