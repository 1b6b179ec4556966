-- ===== src/Pallet/Dispatch/Bound.antt =====
-- Which vouchers reach the call.
use native.Mathlib.Decide.{dec_lt}
use mathlib.Core.List.{append-nil}
use guillotine.Base.{
  ℕ, ◌+◌, ◌≤◌, ◌<◌, ◌≡◌, sym, ap, ◌∙◌, ◌⊎◌, inl, inr, none, some, [], ◌++◌, Bytes, length,
  length-append, length-to_le_bytes, chunks, chunks-append, arith, le→leb, lt→leb,
}
use guillotine.Pallet.Config.{Config, State}
use guillotine.Pallet.Voucher.{Voucher}
use guillotine.Pallet.Voucher.Layout.{Codec, IsInRange, encode, pieces}
use guillotine.Pallet.Claim.{claim}
use guillotine.Pallet.Claim.Frame.{claim-append}
use guillotine.Pallet.Dispatch.{Bounded, claim_bytes}

module _ {C : Config} (K : Codec C) (v : Voucher C) (g : C.Sr25519Signature) where
  encode-append : (rest : Bytes) → encode K v g rest ≡ encode K v g [] ++ rest
  encode-append rest =
      chunks-append (pieces K v) (K.encode_sr25519 g) rest
      ∙ ap (λ t. chunks (pieces K v) t ++ rest) (sym (append-nil (K.encode_sr25519 g)))

  length-encode_nil : IsInRange v → length (encode K v g []) ≡ 192
  length-encode_nil r = omega (
    arith,
    r.nonce,
    length-append {0} {A = ℕ},
    length-to_le_bytes,
    K.length-encode_account,
    K.length-encode_sr25519 g,
  )

  module _ (B : Bounded) (origin : C.Origin) (s : State C) (bytes : Bytes) where
    claim_bytes-fits :
        length bytes ≤ 256 → claim_bytes C B origin bytes s ≡ some (claim C origin bytes s)
    unfolding claim_bytes
    claim_bytes-fits h =
        let made : B.try_from 256 bytes ≡ some bytes =
          B.try_from_lem 256 bytes ∙ rw (le→leb (length bytes) 256 h) in
        rw (made, claim_bytes)

    claim_bytes-long : 256 < length bytes → claim_bytes C B origin bytes s ≡ none
    unfolding claim_bytes
    claim_bytes-long h =
        let made : B.try_from 256 bytes ≡ none =
          B.try_from_lem 256 bytes ∙ rw (lt→leb (length bytes) 256 h) in
        rw (made, claim_bytes)

  -- A voucher of the documented layout with at most 64 bytes behind it reaches the call, which
  -- does what it does for the voucher alone; with more bytes behind it, its argument is refused.
  pub claim_bytes-encode :
      (B : Bounded) (origin : C.Origin) (s : State C) (rest : Bytes)
      → IsInRange v
      → ((length rest ≤ 64)
          × (claim_bytes C B origin (encode K v g rest) s
              ≡ some (claim C origin (encode K v g []) s)))
        ⊎ ((64 < length rest) × (claim_bytes C B origin (encode K v g rest) s ≡ none))
  claim_bytes-encode B origin s rest r =
      let size : length (encode K v g rest) ≡ 192 + length rest =
        ap length (encode-append rest)
        ∙ omega (arith, length-append {0} (encode K v g []) rest, length-encode_nil r) in
      let long : 192 ≤ length (encode K v g []) = omega (arith, length-encode_nil r) in
      elim (dec_lt 64 (length rest)) [
        | yes h ↦ inr (h, claim_bytes-long B origin s _ (omega arith))
        | no h ↦ inl (
          omega arith,
          claim_bytes-fits B origin s _ (omega arith)
              ∙ ap some (
                  ap (λ w. claim C origin w s) (encode-append rest)
                  ∙ claim-append C origin (encode K v g []) rest s long),
        )
      ]
