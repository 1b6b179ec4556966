-- ===== src/Node/ChainSpec/Genesis.antt =====
-- The genesis state of the two chains.
use Prim.Native.String.{String, ◌++◌ as ◌<>◌}
use guillotine.Base.{
  ℕ, suc, ◌+◌, ◌*◌, ◌^◌, ◌≤◌, ◌≡◌, refl, ap, ◌∙◌, some, List, [], ◌∷◌, ◌++◌, map, length, Bytes,
  Result, ok, arith,
}
use guillotine.Runtime.Constants.{existential_deposit, max_authorities}
use guillotine.Node.Trace.{Every}
use guillotine.Node.ChainSpec.{
  Scheme, Keyring, ChainSpec, RuntimeGenesisConfig, Authority, get_from_seed,
  get_account_id_from_seed, authority_keys_from_seed, traverse, testnet_genesis, genesis_from_seeds,
  development_config, local_testnet_config,
}

-- The derivation of a seed from the development phrase gives a pair.
abbrev pub Derives : Scheme → String → Type 0
Derives S seed = (pair : S.Pair) × (S.from_string ("//" <> seed) ≡ some pair)

-- The names of the six authorities, and of the stash accounts.
abbrev pub names : List String
names = "Alice" ∷ "Bob" ∷ "Charlie" ∷ "Dave" ∷ "Eve" ∷ "Ferdie" ∷ []

abbrev pub stashes : List String
stashes =
    "Alice//stash" ∷ "Bob//stash" ∷ "Charlie//stash" ∷ "Dave//stash" ∷ "Eve//stash"
    ∷ "Ferdie//stash" ∷ []

-- The keys that the two chains derive are there: all of them are hard derivations, which every
-- scheme has.
pub record AreDerived (K : Keyring) : Type 0 where
  pub aura : Every (Derives K.aura) names
  pub grandpa : Every (Derives K.grandpa) names
  pub sr25519 : Every (Derives K.sr25519) (names ++ stashes)

-- The sum of the balances.
abbrev pub total : {A : Type 0} → List (A × ℕ) → ℕ
total [] = 0
total ((_, b) ∷ bs) = b + total bs

-- A balance is at least the existential deposit.
abbrev pub IsFunded : {A : Type 0} → A × ℕ → Type 0
IsFunded (_, b) = existential_deposit ≤ b

total-endowed : {A : Type 0} (ks : List A) → total (map (λ k. (k, 2 ^ 60)) ks) ≡ length ks * 2 ^ 60
total-endowed [] = refl
total-endowed (k ∷ ks) = omega (arith, total-endowed ks)

length-map : {A B : Type 0} (f : A → B) (xs : List A) → length (map f xs) ≡ length xs
length-map f [] = refl
length-map f (x ∷ xs) = ap suc (length-map f xs)

traverse-ok :
    {E A B : Type 0} (f : A → Result E B) (xs : List A)
    → Every (λ a. (b : B) × (f a ≡ ok b)) xs
    → (bs : List B) × (traverse f xs ≡ ok bs) × (length bs ≡ length xs)
unfolding traverse
traverse-ok f [] h = ([], refl, refl)
traverse-ok f (x ∷ xs) h =
    let (b, e) = h.0 in let (bs, es, n) = traverse-ok f xs h.1 in (b ∷ bs, rw (e, es), ap suc n)

-- What holds of every member holds of what it implies.
Every-map :
    {A : Type 0} {P Q : A → Type 0}
    → ((a : A) → P a → Q a)
    → (xs : List A) → Every P xs
    → Every Q xs
Every-map f [] h = tt
Every-map f (x ∷ xs) h = (f x h.0, Every-map f xs h.1)

-- Every endowed account can exist.
endowed-IsEvery : {A : Type 0} (ks : List A) → Every IsFunded (map (λ k. (k, 2 ^ 60)) ks)
endowed-IsEvery [] = tt
endowed-IsEvery (k ∷ ks) = (omega arith, endowed-IsEvery ks)

module _ (K : Keyring) where
  get_from_seed-ok :
      (S : Scheme) (seed : String)
      → Derives S seed
      → (p : S.Public) × (get_from_seed {E = String} S seed ≡ ok p)
  unfolding get_from_seed
  get_from_seed-ok S seed (pair, e) = (S.public pair, rw (e, get_from_seed))

  account-ok :
      (seed : String)
      → Derives K.sr25519 seed
      → (a : K.AccountId) × (get_account_id_from_seed K {E = String} seed ≡ ok a)
  unfolding get_account_id_from_seed
  account-ok seed h = let (p, e) = get_from_seed-ok K.sr25519 seed h in (K.into_account p, rw e)

  -- All the keys of an authority.
  abbrev HasKeys : String → Type 0
  HasKeys seed = Derives K.aura seed × Derives K.grandpa seed × Derives K.sr25519 seed

  authority-ok :
      (seed : String)
      → HasKeys seed
      → (a : Authority K) × (authority_keys_from_seed K {E = String} seed ≡ ok a)
  unfolding authority_keys_from_seed
  authority-ok seed h =
      let (a, e) = get_from_seed-ok K.aura seed h.0 in
      let (g, f) = get_from_seed-ok K.grandpa seed h.1 in
      let (k, l) = account-ok seed h.2 in ((a, g, k), rw (e, f, l))

  -- What the closure gives for lists of seeds whose first endowed seed is the root's.
  genesis-ok :
      (wasm : Bytes) (authorities : List String) (root : String) (others : List String)
      → Every HasKeys authorities
      → Every (Derives K.sr25519) (root ∷ others)
      → length authorities ≤ max_authorities
      → (g : RuntimeGenesisConfig K) × (genesis_from_seeds K wasm authorities root (root ∷ others)
          ≡ ok g)
        × (g.code ≡ wasm)
        × (length g.aura_authorities ≡ length authorities)
        × (length g.grandpa_authorities ≡ length authorities)
        × (length g.aura_authorities ≤ max_authorities)
        × Every IsFunded g.balances
        × (total g.balances ≡ length (root ∷ others) * 2 ^ 60)
        × ((k : K.AccountId) × (rest : List (K.AccountId × ℕ)) × (g.sudo_key ≡ some k)
            × (g.balances ≡ (k, 2 ^ 60) ∷ rest))
  unfolding genesis_from_seeds traverse testnet_genesis
  genesis-ok wasm authorities root others keyed endowed bound =
      let (keys, e, n) =
        traverse-ok (authority_keys_from_seed K) authorities
          (Every-map authority-ok authorities keyed) in
      let (k, f) = account-ok root endowed.0 in
      let (ks, h, m) =
        traverse-ok (get_account_id_from_seed K) others (Every-map account-ok others endowed.1) in
      (
        testnet_genesis K wasm keys k (k ∷ ks),
        rw (e, f, h),
        refl,
        length-map (λ x. x.0) keys ∙ n,
        length-map (λ x. (x.1, 1)) keys ∙ n,
        omega (arith, length-map (λ x. x.0) keys ∙ n, bound),
        endowed-IsEvery (k ∷ ks),
        omega (arith, total-endowed ks, ap (λ t. t * 2 ^ 60) m),
        (k, map (λ k. (k, 2 ^ 60)) ks, refl, refl),
      )

  -- A chain starts with its code, so many authorities of both kinds, so many endowed accounts of
  -- 2 ^ 60 each, and a sudo key that is the first of them.
  abbrev pub Starts : ChainSpec K → Bytes → ℕ → ℕ → Type 0
  Starts spec wasm authorities accounts =
      (g : RuntimeGenesisConfig K) × (spec.genesis ≡ ok g)
      × (g.code ≡ wasm)
      × (length g.aura_authorities ≡ authorities)
      × (length g.grandpa_authorities ≡ authorities)
      × (length g.aura_authorities ≤ max_authorities)
      × Every IsFunded g.balances
      × (total g.balances ≡ accounts * 2 ^ 60)
      × ((k : K.AccountId) × (rest : List (K.AccountId × ℕ)) × (g.sudo_key ≡ some k)
          × (g.balances ≡ (k, 2 ^ 60) ∷ rest))

  pub known_chains :
      AreDerived K
      → (wasm : Bytes)
      → ((spec : ChainSpec K) × (development_config K (some wasm) ≡ ok spec)
          × (spec.id ≡ "dev")
          × Starts spec wasm 6 6)
        × ((spec : ChainSpec K) × (local_testnet_config K (some wasm) ≡ ok spec)
            × (spec.id ≡ "local_testnet")
            × Starts spec wasm 2 12)
  unfolding development_config local_testnet_config
  known_chains d wasm =
      let (alice, (bob, (charlie, (dave, (eve, (ferdie, (a, (b, (c, _))))))))) = d.sr25519 in
      let (alice_aura, (bob_aura, (charlie_aura, (dave_aura, (eve_aura, (ferdie_aura, _)))))) =
        d.aura in
      let (alice_gran, (bob_gran, (charlie_gran, (dave_gran, (eve_gran, (ferdie_gran, _)))))) =
        d.grandpa in
      (
        (
          _,
          refl,
          refl,
          genesis-ok wasm names "Alice" _
              (
                (alice_aura, alice_gran, alice),
                (
                  (bob_aura, bob_gran, bob),
                  (
                    (charlie_aura, charlie_gran, charlie),
                    (
                      (dave_aura, dave_gran, dave),
                      ((eve_aura, eve_gran, eve), ((ferdie_aura, ferdie_gran, ferdie), tt)),
                    ),
                  ),
                ),
              )
              (alice, (bob, (charlie, (a, (b, (c, tt)))))) (omega arith),
        ),
        (
          _,
          refl,
          refl,
          genesis-ok wasm _ "Alice" _
              ((alice_aura, alice_gran, alice), ((bob_aura, bob_gran, bob), tt)) d.sr25519
              (omega arith),
        ),
      )
