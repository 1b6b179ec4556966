-- ===== src/Runtime/Transaction/Laws.antt =====
-- What `create_transaction` gives, and when it gives nothing.
use guillotine.Base.{ℕ, ◌-◌, ◌≡◌, ◌⊎◌, inl, inr, Option, none, some, Option-cases}
use guillotine.Runtime.Constants.{block_hash_count, mortal_period}
use guillotine.Runtime.Transaction.{
  Signing, IsLawful, SignedExtra, SignaturePayload, signed_extra, create_transaction,
}

module _ (G : Signing) (L : IsLawful G) (block_number : ℕ) (call : G.Call) (public : G.Public)
    (account : G.AccountId) (nonce : ℕ) where
  -- The extra of the transaction.
  abbrev pub extra_at : SignedExtra G.Era
  extra_at = signed_extra G.mortal (mortal_period block_hash_count) (block_number - 1) nonce

  abbrev pub created : Option (G.Call × SignaturePayload G)
  created = create_transaction G block_number call public account nonce

  -- A transaction is the call itself, from the account, with the signature of the payload of that
  -- call and of the extra of the previous block. There is none exactly where the payload cannot
  -- be made or the signer refuses it.
  pub create_transaction-cases :
      ((p : G.Payload) × (signature : G.Signature) × (G.new_payload call extra_at ≡ some p)
        × (G.sign (G.encoded p) public ≡ some signature)
        × (created
            ≡ some (call, record { address = account; signature = signature; extra = extra_at })))
      ⊎ ((created ≡ none)
          × ((G.new_payload call extra_at ≡ none)
              ⊎ ((p : G.Payload) × (G.new_payload call extra_at ≡ some p)
                  × (G.sign (G.encoded p) public ≡ none))))
  unfolding create_transaction
  create_transaction-cases = elim (Option-cases (G.new_payload call extra_at)) [
    | inl e ↦ inr (rw (e, create_transaction), inl e)
    | inr (p, made) ↦ elim (Option-cases (G.sign (G.encoded p) public)) [
      | inl e ↦ inr (rw (made, e, create_transaction), inr (p, made, e))
      | inr (signature, signed) ↦ inl (
        p,
        signature,
        made,
        signed,
        rw (made, signed, L.deconstruct-new_payload _ _ made, create_transaction),
      )
    ]
  ]
