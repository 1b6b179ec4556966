-- ===== src/Tests/Signing.antt =====
-- The theorems on transactions and their signatures at concrete data.
use guillotine.Base.{
  ℕ, ◌+◌, ◌-◌, ◌/◌, ◌%◌, ◌*◌, ◌≤◌, ◌<◌, ◌≡◌, refl, ◌⊎◌, Bool, true, Option, none, some, [], ◌∷◌,
  Bytes, ok, if◌then◌else◌, arith,
}
use guillotine.Runtime.Constants.{block_hash_count, mortal_period}
use guillotine.Runtime.Transaction.{
  Signing, IsLawful, SignedExtra, SignaturePayload, signed_extra, create_transaction,
}
use guillotine.Runtime.Transaction.Mortality.{Births, era_of, era_at, created-birth}
use guillotine.Node.Benchmarking.{
  Bench, transfer_keep_alive_builder, build, create_benchmark_extrinsic,
}
use guillotine.Node.Benchmarking.Laws.{extrinsic_for, build-create_transaction}

-- Signing whose payloads are pairs, and whose signer has one key.
abbrev signing : Signing
signing = record {
  Call = ℕ;
  AccountId = ℕ;
  Public = Bool;
  Signature = Bytes;
  Era = ℕ × ℕ;
  Payload = ℕ × SignedExtra (ℕ × ℕ);
  mortal = λ period current. (period, current);
  new_payload = λ call extra. some (call, extra);
  deconstruct = λ p. p;
  encoded = λ p. p.0 ∷ [];
  sign = λ bytes public. if public then some bytes else none;
}

some_inj : {A : Type 0} {a b : A} → some a ≡ some b → b ≡ a
some_inj e = cc

signing-IsLawful : IsLawful signing
signing-IsLawful = record { deconstruct-new_payload = λ call extra e. some_inj e }

-- A client is its best number; block 0 is known.
abbrev bench : Bench signing
bench = record {
  Hash = ℕ;
  Pair = ℕ;
  Client = ℕ;
  block_hash = λ client n. some (some n);
  best_hash = λ client. client;
  best_number = λ client. client;
  from_raw = λ call extra additional. (call, extra);
  pair_sign = λ pair bytes. pair ∷ bytes;
  account_of = λ pair. pair;
  bob = 1;
  remark = λ bytes. 0;
  transfer_keep_alive = λ dest value. value;
}

built_example :
    build bench (transfer_keep_alive_builder 11 5 500) 2
    ≡ ok (extrinsic_for bench (transfer_keep_alive_builder 11 5 500) 2 0)
unfolding build create_benchmark_extrinsic
built_example = refl

abbrev transaction_example : Option (ℕ × SignaturePayload signing)
transaction_example = create_transaction signing 12 7 true 3 2

created_example :
    transaction_example
    ≡ some (
      7,
      record {
        address = 3;
        signature = 7 ∷ [];
        extra = signed_extra signing.mortal (mortal_period block_hash_count) 11 2;
      },
    )
unfolding create_transaction
created_example = refl

abbrev births : Births signing
births = record {
  birth = λ (period, current) at. (at - current % period) / period * period + current % period;
  birth-mortal = λ j period current at e low high h. refl;
}

abbrev signed_payload : SignaturePayload signing
signed_payload = record {
  address = 3;
  signature = 7 ∷ [];
  extra = signed_extra signing.mortal (mortal_period block_hash_count) 11 2;
}

created-birth_example :
    (era_of signed_payload.extra ≡ some (era_at signing signing-IsLawful births 12 7 true 3 2))
    × (((500 < 12 - 1 + 2048)
          × (births.birth (era_at signing signing-IsLawful births 12 7 true 3 2) 500 ≡ 12 - 1)
          × (500 < 12 - 1 + block_hash_count))
        ⊎ ((12 - 1 + 2048 ≤ 500)
            × (12 - 1 < births.birth (era_at signing signing-IsLawful births 12 7 true 3 2) 500)))
created-birth_example =
    created-birth signing signing-IsLawful births 12 7 true 3 2 signed_payload 500 created_example
      (omega arith)

build-create_transaction_example :
    (extrinsic_for bench (transfer_keep_alive_builder 11 5 500) 2 0).extra
    ≡ signed_extra signing.mortal (mortal_period block_hash_count) 11 2
build-create_transaction_example =
    build-create_transaction bench (transfer_keep_alive_builder 11 5 500) 2 signing-IsLawful 12 7
      true 3 refl built_example created_example
