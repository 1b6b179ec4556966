-- ===== src/Tests/Node.antt =====
-- The theorems on the node at concrete data.
use Prim.Native.String.{String}
use guillotine.Base.{
  ◌≡◌, ◌≢◌, refl, ◌⊎◌, true, false, some, List, [], ◌∷◌, ◌++◌, Result, ok, err, inl,
}
use guillotine.Node.ChainSpec.{Scheme, Keyring, ChainSpec}
use guillotine.Node.ChainSpec.Genesis.{Derives, names, stashes, AreDerived, known_chains}
use guillotine.Node.Trace.{Answer, success, failure, Every}
use guillotine.Node.Command.Spec.{load_spec-id}
use guillotine.Node.Command.{load_spec}
use guillotine.Node.Service as Service
use guillotine.Node.Service.Laws.{Allows, prepared, started, new_full-start}

-- A kind of key whose pairs are their secrets.
abbrev plain : Scheme
plain = record { Pair = String; Public = String; from_string = some; public = λ pair. pair }

abbrev keyring : Keyring
keyring = record {
  aura = plain;
  grandpa = plain;
  sr25519 = plain;
  AccountId = String;
  into_account = λ public. public;
}

all_derived : (seeds : List String) → Every (Derives plain) seeds
all_derived [] = tt
all_derived (s ∷ seeds) = ((_, refl), all_derived seeds)

keyring-AreDerived : AreDerived keyring
keyring-AreDerived = record {
  aura = all_derived names;
  grandpa = all_derived names;
  sr25519 = all_derived (names ++ stashes);
}

-- An authority with GRANDPA, telemetry and no offchain worker.
abbrev authority : Service.Configuration
authority = record {
  has_telemetry = true;
  is_authority = true;
  force_authoring = false;
  disable_grandpa = false;
  offchain_worker_enabled = false;
}

-- The voter cannot be made.
abbrev no_voter : Service.Step → Answer
no_voter (Service.run_grandpa_voter _ _) = failure "no voter"
no_voter s = success

new_full-start_example :
    Every (λ s. Allows authority s × (s ≢ Service.start_network)) (prepared no_voter authority).1
    × ((((prepared no_voter authority).0 ≡ ok tt)
          × (started no_voter authority
              ≡ (ok tt, (prepared no_voter authority).1 ++ Service.start_network ∷ [])))
        ⊎ (((prepared no_voter authority).0 ≢ ok tt)
            × (started no_voter authority ≡ prepared no_voter authority)))
new_full-start_example = new_full-start no_voter authority

-- The development chain, found by its id.
abbrev dev_spec : ChainSpec keyring
dev_spec = (known_chains keyring keyring-AreDerived (1 ∷ [])).0.0

abbrev no_file : String → Result String (ChainSpec keyring)
no_file path = err "no such file"

load_spec-id_example :
    ((dev_spec.id ≡ "dev") × (load_spec keyring (some (1 ∷ [])) no_file dev_spec.id ≡ ok dev_spec))
    ⊎ ((dev_spec.id ≡ "local_testnet")
        × (load_spec keyring (some (1 ∷ [])) no_file dev_spec.id ≡ no_file dev_spec.id))
unfolding load_spec
load_spec-id_example =
    load_spec-id keyring (some (1 ∷ [])) no_file "dev" (inl refl)
      (known_chains keyring keyring-AreDerived (1 ∷ [])).0.1
