-- ===== src/Runtime/Transaction/Mortality.antt =====
-- How long a transaction of the runtime is alive, and what its signature is bound to.
use guillotine.Base.{
  ℕ, ◌+◌, ◌-◌, ◌*◌, ◌/◌, ◌%◌, ◌^◌, ◌≤◌, ◌<◌, ◌≡◌, refl, sym, ap, ◌∙◌, ◌⊎◌, inl, inr, Option, none,
  some, [], ◌∷◌, arith,
}
use native.Mathlib.Decide.{dec_lt}
use guillotine.Runtime.Constants.{block_hash_count, mortal_period}
use guillotine.Runtime.Constants.Period.{runtime_period}
use guillotine.Runtime.Transaction.{
  Signing, IsLawful, SignedExtra, SignaturePayload, check_era, signed_extra,
}
use guillotine.Runtime.Transaction.Laws.{extra_at, created, create_transaction-cases}

-- `Era::birth`, the block whose hash is signed with a transaction, as its documentation computes
-- it for a period that is a power of two from 4 to 4096: the eras begin at the phase, which is the
-- remainder of the block that the era was made for.
pub record Births (G : Signing) : Type 0 where
  pub birth : G.Era → ℕ → ℕ
  pub birth-mortal :
      (j period current at : ℕ)
      → period ≡ 2 ^ j
      → 2 ≤ j
      → j ≤ 12
      → current % period ≤ at
      → birth (G.mortal period current) at
        ≡ (at - current % period) / period * period + current % period

-- The era that a transaction carries.
abbrev pub era_of : {Era : Type 0} → SignedExtra Era → Option Era
era_of [] = none
era_of (check_era era ∷ _) = some era
era_of (x ∷ extra) = era_of extra

module _ (G : Signing) (L : IsLawful G) (B : Births G) (block_number : ℕ) (call : G.Call)
    (public : G.Public) (account : G.AccountId) (nonce : ℕ) where
  -- The era of the block before, for the runtime's period.
  abbrev pub era_at : G.Era
  era_at = G.mortal (mortal_period block_hash_count) (block_number - 1)

  era_of-extra_at : era_of (extra_at G L block_number call public account nonce) ≡ some era_at
  unfolding signed_extra
  era_of-extra_at = refl

  birth-era_at :
      (at : ℕ)
      → block_number - 1 ≤ at
      → B.birth era_at at
        ≡ (at - (block_number - 1) % 2048) / 2048 * 2048 + (block_number - 1) % 2048
  birth-era_at at h =
      ap (λ p. B.birth (G.mortal p (block_number - 1)) at) runtime_period
      ∙ B.birth-mortal 11 2048 (block_number - 1) at refl (omega arith) (omega arith) (omega arith)

  -- A transaction that the runtime makes carries the mortal era of the block before. Up to 2047
  -- blocks after that block its signature is bound to the hash of that block, which is kept for
  -- all of them; later it is bound to the hash of a later block.
  pub created-birth :
      (payload : SignaturePayload G) (at : ℕ)
      → created G L block_number call public account nonce ≡ some (call, payload)
      → block_number - 1 ≤ at
      → (era_of payload.extra ≡ some era_at)
        × (((at < block_number - 1 + 2048)
              × (B.birth era_at at ≡ block_number - 1)
              × (at < block_number - 1 + block_hash_count))
            ⊎ ((block_number - 1 + 2048 ≤ at) × (block_number - 1 < B.birth era_at at)))
  created-birth payload at made h = (
    carried,
    elim (dec_lt at (block_number - 1 + 2048)) [
      | yes alive ↦ inl (alive, birth-era_at at h ∙ omega arith, omega arith)
      | no dead ↦ inr (omega arith, omega (arith, birth-era_at at h))
    ],
  )
    where
      carried : era_of payload.extra ≡ some era_at
      carried = elim (create_transaction-cases G L block_number call public account nonce) [
        | inl (_, _, _, _, e) ↦ cc (sym made ∙ e, era_of-extra_at)
        | inr (e, _) ↦ cc (sym made ∙ e)
      ]
