-- ===== src/Runtime/Api.antt =====
-- The runtime's APIs (`impl_runtime_apis!`, blockchain/runtime/src/lib.rs): what a node can ask of
-- the runtime, and how each request is answered.
use Prim.Native.String.{String}
use guillotine.Base.{ℕ, Option, none, List, Bytes, Result, ok, ◌>>=◌}
use guillotine.Pallet.Config.{Config, State}
use guillotine.Runtime.Version.{RuntimeVersion, runtime_version}
use guillotine.Runtime.Configs.{runtime_timestamp}
use guillotine.Runtime.Pallets.{Hooks, all_pallets_with_system, pallet_on_initialize, in_order}

-- What the APIs take from FRAME: `Executive`, the metadata, the inherents, the session keys, and
-- the pallets that are asked. `initialize_block` is given the hooks of the runtime's pallets, and
-- `execute_block` may panic.
pub record Frame (C : Config) : Type 1 where
  pub Header : Type 0
  pub Block : Type 0
  pub Extrinsic : Type 0
  pub Hash : Type 0
  pub Call : Type 0
  pub InherentData : Type 0
  pub ApplyExtrinsicResult : Type 0
  pub CheckInherentsResult : Type 0
  pub TransactionSource : Type 0
  pub TransactionValidity : Type 0
  pub AuraId : Type 0
  pub GrandpaId : Type 0
  pub EquivocationProof : Type 0
  pub KeyOwnershipProof : Type 0
  pub DispatchInfo : Type 0
  pub FeeDetails : Type 0
  pub apis : List (Bytes × ℕ)
  pub hooks : Hooks C
  pub execute_block : (ℕ → State C → State C) → Block → State C → Result String (State C)
  pub initialize_block : (ℕ → State C → State C) → Header → State C → State C
  pub apply_extrinsic : Extrinsic → State C → ApplyExtrinsicResult × State C
  pub finalize_block : State C → Header × State C
  pub validate_transaction :
      TransactionSource → Extrinsic → Hash → State C → TransactionValidity × State C
  pub offchain_worker : Header → State C → State C
  pub metadata : Bytes
  pub metadata_at_version : ℕ → Option Bytes
  pub metadata_versions : List ℕ
  pub create_extrinsics : InherentData → State C → List Extrinsic
  pub check_extrinsics : InherentData → Block → State C → CheckInherentsResult
  pub aura_slot_duration : ℕ → ℕ
  pub aura_authorities : State C → List AuraId
  pub generate_keys : Option Bytes → State C → Bytes × State C
  pub decode_keys : Bytes → Option (List (Bytes × ℕ))
  pub grandpa_authorities : State C → List (GrandpaId × ℕ)
  pub grandpa_set_id : State C → ℕ
  pub system_account_nonce : C.AccountId → State C → ℕ
  pub extrinsic_info : Extrinsic → ℕ → State C → DispatchInfo
  pub extrinsic_fee_details : Extrinsic → ℕ → State C → FeeDetails
  pub call_info : Call → ℕ → State C → DispatchInfo
  pub call_fee_details : Call → ℕ → State C → FeeDetails
  pub weight_to_fee : C.Weight → State C → ℕ
  pub length_to_fee : ℕ → State C → ℕ

module _ {C : Config} (F : Frame C) where
  -- The last two stand in two APIs, with the same answers.
  pub data Request : Type 0 where
    version : Request
    execute_block : F.Block → Request
    initialize_block : F.Header → Request
    metadata : Request
    metadata_at_version : ℕ → Request
    metadata_versions : Request
    apply_extrinsic : F.Extrinsic → Request
    finalize_block : Request
    inherent_extrinsics : F.InherentData → Request
    check_inherents : F.Block → F.InherentData → Request
    validate_transaction : F.TransactionSource → F.Extrinsic → F.Hash → Request
    offchain_worker : F.Header → Request
    slot_duration : Request
    authorities : Request
    generate_session_keys : Option Bytes → Request
    decode_session_keys : Bytes → Request
    grandpa_authorities : Request
    current_set_id : Request
    submit_report_equivocation_unsigned_extrinsic :
        F.EquivocationProof → F.KeyOwnershipProof → Request
    generate_key_ownership_proof : ℕ → F.GrandpaId → Request
    account_nonce : C.AccountId → Request
    query_info : F.Extrinsic → ℕ → Request
    query_fee_details : F.Extrinsic → ℕ → Request
    query_call_info : F.Call → ℕ → Request
    query_call_fee_details : F.Call → ℕ → Request
    query_weight_to_fee : C.Weight → Request
    query_length_to_fee : ℕ → Request

  -- What answers a request.
  abbrev pub Response : Request → Type 0
  Response version = RuntimeVersion
  Response (execute_block _) = Unit
  Response (initialize_block _) = Unit
  Response metadata = Bytes
  Response (metadata_at_version _) = Option Bytes
  Response metadata_versions = List ℕ
  Response (apply_extrinsic _) = F.ApplyExtrinsicResult
  Response finalize_block = F.Header
  Response (inherent_extrinsics _) = List F.Extrinsic
  Response (check_inherents _ _) = F.CheckInherentsResult
  Response (validate_transaction _ _ _) = F.TransactionValidity
  Response (offchain_worker _) = Unit
  Response slot_duration = ℕ
  Response authorities = List F.AuraId
  Response (generate_session_keys _) = Bytes
  Response (decode_session_keys _) = Option (List (Bytes × ℕ))
  Response grandpa_authorities = List (F.GrandpaId × ℕ)
  Response current_set_id = ℕ
  Response (submit_report_equivocation_unsigned_extrinsic _ _) = Option (Unit {0})
  Response (generate_key_ownership_proof _ _) = Option F.KeyOwnershipProof
  Response (account_nonce _) = ℕ
  Response (query_info _ _) = F.DispatchInfo
  Response (query_fee_details _ _) = F.FeeDetails
  Response (query_call_info _ _) = F.DispatchInfo
  Response (query_call_fee_details _ _) = F.FeeDetails
  Response (query_weight_to_fee _) = ℕ
  Response (query_length_to_fee _) = ℕ

  -- The hooks that `Executive` runs.
  abbrev pub runtime_hooks : ℕ → State C → State C
  runtime_hooks n s = in_order C (pallet_on_initialize C F.hooks) all_pallets_with_system n s

  -- One request, from a state: its answer and the state after it.
  unfoldable pub answer : (r : Request) → State C → Result String (Response r × State C)
  unfolding runtime_timestamp
  answer version s = ok (runtime_version F.apis, s)
  answer (execute_block b) s = do t ← F.execute_block runtime_hooks b s; ok (tt, t)
  answer (initialize_block h) s = ok (tt, F.initialize_block runtime_hooks h s)
  answer metadata s = ok (F.metadata, s)
  answer (metadata_at_version n) s = ok (F.metadata_at_version n, s)
  answer metadata_versions s = ok (F.metadata_versions, s)
  answer (apply_extrinsic x) s = ok (F.apply_extrinsic x s)
  answer finalize_block s = ok (F.finalize_block s)
  answer (inherent_extrinsics d) s = ok (F.create_extrinsics d s, s)
  answer (check_inherents b d) s = ok (F.check_extrinsics d b s, s)
  answer (validate_transaction source x hash) s = ok (F.validate_transaction source x hash s)
  answer (offchain_worker h) s = ok (tt, F.offchain_worker h s)
  answer slot_duration s = ok (F.aura_slot_duration runtime_timestamp.minimum_period, s)
  answer authorities s = ok (F.aura_authorities s, s)
  answer (generate_session_keys seed) s = ok (F.generate_keys seed s)
  answer (decode_session_keys encoded) s = ok (F.decode_keys encoded, s)
  answer grandpa_authorities s = ok (F.grandpa_authorities s, s)
  answer current_set_id s = ok (F.grandpa_set_id s, s)
  answer (submit_report_equivocation_unsigned_extrinsic _ _) s = ok (none, s)
  answer (generate_key_ownership_proof _ _) s = ok (none, s)
  answer (account_nonce account) s = ok (F.system_account_nonce account s, s)
  answer (query_info x len) s = ok (F.extrinsic_info x len s, s)
  answer (query_fee_details x len) s = ok (F.extrinsic_fee_details x len s, s)
  answer (query_call_info call len) s = ok (F.call_info call len s, s)
  answer (query_call_fee_details call len) s = ok (F.call_fee_details call len s, s)
  answer (query_weight_to_fee weight) s = ok (F.weight_to_fee weight s, s)
  answer (query_length_to_fee len) s = ok (F.length_to_fee len s, s)
