-- ===== src/Node/Benchmarking/Laws.antt =====
-- What the benchmarks' builders make.
use guillotine.Base.{
  ℕ, ◌-◌, ◌≡◌, sym, refl, ap, ◌∙◌, ◌⊎◌, inl, inr, none, some, Option-cases, ok, panic, ok_inj,
  ok_ne_panic,
}
use guillotine.Runtime.Constants.{
  block_hash_count, mortal_period, spec_version, transaction_version,
}
use guillotine.Runtime.Transaction.{
  Signing, IsLawful, SignaturePayload, signed_extra, create_transaction,
}
use guillotine.Runtime.Transaction.Laws.{create_transaction-cases}
use guillotine.Node.Benchmarking.{
  Bench, Builder, client_of, call_of, build, benchmark_period, benchmark_extra,
  create_benchmark_extrinsic, UncheckedExtrinsic,
}

some_pair : {A B : Type 0} {x y : A × B} → some x ≡ some y → x.1 ≡ y.1
some_pair e = cc

none_ne_some : {A : Type 0} {a : A} → none ≡ some a → ⊥
none_ne_some e = cc

module _ {G : Signing} (B : Bench G) (b : Builder B) (nonce : ℕ) where
  -- The extrinsic for a genesis hash: its extra takes the client's best block, and its signature
  -- is Bob's, of the call, the extra, the versions and the two hashes.
  abbrev pub extrinsic_for : B.Hash → UncheckedExtrinsic G
  extrinsic_for genesis_hash =
      let client = client_of B b in
      let extra =
        benchmark_extra B (benchmark_period B block_hash_count) (B.best_number client) nonce in
      record {
        call = call_of B b;
        address = B.account_of B.bob;
        signature = B.pair_sign B.bob (
            G.encoded (
              B.from_raw (call_of B b) extra (record {
                spec = spec_version;
                transaction = transaction_version;
                genesis_hash = genesis_hash;
                best_hash = B.best_hash client;
              })));
        extra = extra;
      }

  -- A builder gives the extrinsic of its call, from Bob, signed by Bob over the call, the extra,
  -- the versions and the hashes of the genesis and the best block, if the client has a genesis
  -- block; it panics if not.
  pub build-cases :
      ((h : B.Hash) × (B.block_hash (client_of B b) 0 ≡ some (some h))
        × (build B b nonce ≡ ok (extrinsic_for h)))
      ⊎ (((B.block_hash (client_of B b) 0 ≡ none) ⊎ (B.block_hash (client_of B b) 0 ≡ some none))
          × (build B b nonce ≡ panic))
  unfolding build create_benchmark_extrinsic
  build-cases = elim (Option-cases (B.block_hash (client_of B b) 0)) [
    | inl e ↦ inr (inl e, rw e)
    | inr (o, e) ↦ elim (Option-cases o) [
      | inl f ↦ inr (inr (e ∙ ap some f), rw (e, f))
      | inr (h, f) ↦ inl (h, e ∙ ap some f, rw (e, f))
    ]
  ]

  -- The two places that write the period and the extensions write the same.
  same_extra :
      (n : ℕ)
      → benchmark_extra B (benchmark_period B block_hash_count) n nonce
        ≡ signed_extra G.mortal (mortal_period block_hash_count) n nonce
  unfolding benchmark_extra benchmark_period signed_extra mortal_period
  same_extra n = refl

  -- At the block after the client's best one, an extrinsic that a benchmark builds carries the
  -- extra of the runtime's own transactions of the same nonce, though the node writes the period
  -- and the list of extensions again.
  pub build-create_transaction :
      IsLawful G
      → (block_number : ℕ) (call : G.Call) (public : G.Public) (account : G.AccountId)
        {tx : G.Call × SignaturePayload G} {ext : UncheckedExtrinsic G}
      → B.best_number (client_of B b) ≡ block_number - 1
      → build B b nonce ≡ ok ext
      → create_transaction G block_number call public account nonce ≡ some tx
      → ext.extra ≡ tx.1.extra
  build-create_transaction L block_number call public account {tx} {ext} best built made =
      elim build-cases [
        | inr (_, e) ↦ absurd (ok_ne_panic (sym built ∙ e))
        | inl (h, _, e) ↦
            elim (create_transaction-cases G L block_number call public account nonce) [
              | inr (e', _) ↦ absurd (none_ne_some (sym e' ∙ made))
              | inl (_, _, _, _, e') ↦
                  ap (λ x. x.extra) (ok_inj (sym built ∙ e))
                  ∙ same_extra (B.best_number (client_of B b))
                  ∙ ap (λ n. signed_extra G.mortal (mortal_period block_hash_count) n nonce) best
                  ∙ ap (λ x. x.extra) (some_pair (sym e' ∙ made))
            ]
      ]
