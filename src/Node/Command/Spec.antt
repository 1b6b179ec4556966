-- ===== src/Node/Command/Spec.antt =====
-- The chains that the command line finds by their ids.
use Prim.Native.String.{String}
use guillotine.Base.{
  ◌≡◌, sym, ap, ◌∙◌, ◌⊎◌, inl, inr, Option, none, some, Bytes, Result, ok, ok_inj, ok_ne_err,
}
use guillotine.Node.ChainSpec.{Keyring, ChainSpec, development_config, local_testnet_config}
use guillotine.Node.Command.{load_spec}

module _ (K : Keyring) (wasm : Option Bytes) (json : String → Result String (ChainSpec K)) where
  -- The ids that the command line knows.
  abbrev pub IsKnown : String → Type 0
  IsKnown id = (id ≡ "dev") ⊎ ((id ≡ "local") ⊎ (id ≡ ""))

  development-id :
      (o : Option Bytes) {spec : ChainSpec K} → development_config K o ≡ ok spec → spec.id ≡ "dev"
  unfolding development_config
  development-id none h = absurd (ok_ne_err (sym h))
  development-id (some w) h = sym (ap (λ s. s.id) (ok_inj h))

  local_testnet-id :
      (o : Option Bytes) {spec : ChainSpec K}
      → local_testnet_config K o ≡ ok spec
      → spec.id ≡ "local_testnet"
  unfolding local_testnet_config
  local_testnet-id none h = absurd (ok_ne_err (sym h))
  local_testnet-id (some w) h = sym (ap (λ s. s.id) (ok_inj h))

  -- A chain that the command line finds by an id that it knows has an id of its own: that of the
  -- development chain finds the same chain again, that of the local chain is taken for the path
  -- of a file.
  pub load_spec-id :
      (id : String) {spec : ChainSpec K}
      → IsKnown id
      → load_spec K wasm json id ≡ ok spec
      → ((spec.id ≡ "dev") × (load_spec K wasm json spec.id ≡ ok spec))
        ⊎ ((spec.id ≡ "local_testnet") × (load_spec K wasm json spec.id ≡ json spec.id))
  unfolding load_spec
  load_spec-id id {spec} (inl e) h =
      let found : development_config K wasm ≡ ok spec = rw (e, load_spec) at h in
      let named = development-id wasm found in inl (named, ap (load_spec K wasm json) named ∙ found)
  load_spec-id id {spec} (inr (inl e)) h =
      let found : local_testnet_config K wasm ≡ ok spec = rw (e, load_spec) at h in
      let named = local_testnet-id wasm found in
      inr (named, ap (load_spec K wasm json) named ∙ ap json (sym named))
  load_spec-id id {spec} (inr (inr e)) h =
      let found : local_testnet_config K wasm ≡ ok spec = rw (e, load_spec) at h in
      let named = local_testnet-id wasm found in
      inr (named, ap (load_spec K wasm json) named ∙ ap json (sym named))
