-- ===== src/Node/ChainSpec.antt =====
-- The chains that the node knows (blockchain/node/src/chain_spec.rs).
pub mod Genesis
use Prim.Native.String.{String, ◌++◌ as ◌<>◌}
use guillotine.Base.{
  ℕ, ◌^◌, Option, none, some, List, [], ◌∷◌, map, Bytes, Result, ok, panic, ◌>>=◌, ok_or,
}

-- A kind of key: `from_string` makes a pair from a secret, `public` gives its public key.
pub record Scheme : Type 1 where
  pub Pair : Type 0
  pub Public : Type 0
  pub from_string : String → Option Pair
  pub public : Pair → Public

-- The three kinds of key, and the account of a public key.
pub record Keyring : Type 1 where
  pub aura : Scheme
  pub grandpa : Scheme
  pub sr25519 : Scheme
  pub AccountId : Type 0
  pub into_account : sr25519.Public → AccountId

-- `get_from_seed`, whose `expect` panics on a seed that is no secret.
unfoldable pub get_from_seed : {E : Type 0} (S : Scheme) → String → Result E S.Public
get_from_seed S seed = elim (S.from_string ("//" <> seed)) [
  | none ↦ panic
  | some pair ↦ ok (S.public pair)
]

-- The entries of a `vec!`, made in order.
unfoldable pub traverse : {E A B : Type 0} → (A → Result E B) → List A → Result E (List B)
traverse f [] = ok []
traverse f (a ∷ as') = do b ← f a; bs ← traverse f as'; ok (b ∷ bs)

pub data JsonValue : Type 0 where
  text : String → JsonValue
  number : ℕ → JsonValue

-- `properties()`, in the order of insertion.
abbrev pub properties : List (String × JsonValue)
properties =
    ("tokenSymbol", text "COM")
    ∷ ("tokenDecimals", number 10)
    ∷ ("ss58Format", number 42)
    ∷ ("color", text "#D2BDB2")
    ∷ []

pub data ChainType : Type 0 where
  development : ChainType
  local_chain : ChainType

module _ (K : Keyring) where
  -- The members of `RuntimeGenesisConfig` that are not left at their defaults.
  pub record RuntimeGenesisConfig : Type 0 where
    pub code : Bytes
    pub balances : List (K.AccountId × ℕ)
    pub aura_authorities : List K.aura.Public
    pub grandpa_authorities : List (K.grandpa.Public × ℕ)
    pub sudo_key : Option K.AccountId

  -- A `ChainSpec`; its genesis is computed when it is called for. Its boot nodes, telemetry,
  -- protocol and fork ids and extensions are left empty by both chains.
  pub record ChainSpec : Type 0 where
    pub name : String
    pub id : String
    pub chain_type : ChainType
    pub genesis : Result String RuntimeGenesisConfig
    pub chain_properties : List (String × JsonValue)

  unfoldable pub get_account_id_from_seed : {E : Type 0} → String → Result E K.AccountId
  get_account_id_from_seed seed = do
    public ← get_from_seed K.sr25519 seed
    ok (K.into_account public)

  abbrev pub Authority : Type 0
  Authority = K.aura.Public × K.grandpa.Public × K.AccountId

  unfoldable pub authority_keys_from_seed : {E : Type 0} → String → Result E Authority
  authority_keys_from_seed s = do
    aura ← get_from_seed K.aura s
    grandpa ← get_from_seed K.grandpa s
    account ← get_account_id_from_seed s
    ok (aura, grandpa, account)

  unfoldable pub testnet_genesis :
      Bytes → List Authority → K.AccountId → List K.AccountId → RuntimeGenesisConfig
  testnet_genesis wasm_binary initial_authorities root_key endowed_accounts = record {
    code = wasm_binary;
    balances = map (λ k. (k, 2 ^ 60)) endowed_accounts;
    aura_authorities = map (λ x. x.0) initial_authorities;
    grandpa_authorities = map (λ x. (x.1, 1)) initial_authorities;
    sudo_key = some root_key;
  }

  -- The closure of both chains: the authorities, the root key, then the endowed accounts.
  unfoldable pub genesis_from_seeds :
      Bytes → List String → String → List String → Result String RuntimeGenesisConfig
  genesis_from_seeds wasm_binary authorities root endowed = do
    initial_authorities ← traverse authority_keys_from_seed authorities
    root_key ← get_account_id_from_seed root
    endowed_accounts ← traverse get_account_id_from_seed endowed
    ok (testnet_genesis wasm_binary initial_authorities root_key endowed_accounts)

  unfoldable pub development_config : Option Bytes → Result String ChainSpec
  development_config wasm = do
    wasm_binary ← ok_or wasm "Development wasm not available"
    ok (record {
      name = "Guillotine Chain Development";
      id = "dev";
      chain_type = development;
      genesis =
          genesis_from_seeds wasm_binary
            ("Alice" ∷ "Bob" ∷ "Charlie" ∷ "Dave" ∷ "Eve" ∷ "Ferdie" ∷ []) "Alice"
            ("Alice" ∷ "Bob" ∷ "Charlie" ∷ "Alice//stash" ∷ "Bob//stash" ∷ "Charlie//stash" ∷ []);
      chain_properties = properties;
    })

  unfoldable pub local_testnet_config : Option Bytes → Result String ChainSpec
  local_testnet_config wasm = do
    wasm_binary ← ok_or wasm "Development wasm not available"
    ok (record {
      name = "Guillotine Chain Local Testnet";
      id = "local_testnet";
      chain_type = local_chain;
      genesis = genesis_from_seeds wasm_binary ("Alice" ∷ "Bob" ∷ []) "Alice" (
          "Alice" ∷ "Bob" ∷ "Charlie" ∷ "Dave" ∷ "Eve" ∷ "Ferdie" ∷ "Alice//stash" ∷ "Bob//stash"
          ∷ "Charlie//stash" ∷ "Dave//stash" ∷ "Eve//stash" ∷ "Ferdie//stash" ∷ []);
      chain_properties = properties;
    })
