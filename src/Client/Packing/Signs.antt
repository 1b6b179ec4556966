-- ===== src/Client/Packing/Signs.antt =====
-- What is signed in whatever the local node packs, and why the pallet refuses it.
use Prim.Native.String.{String}
use guillotine.Base.{
  ℕ, ◌+◌, ◌≤◌, ◌≡◌, ◌≢◌, refl, sym, ap, ◌∙◌, Bool, true, false, some, inl, inr, ◌++◌, Bytes, Result,
  ok, ok_inj, ok_ne_err, err, panic, ◌>>=◌, ◌>>◌, ensure, length, take, drop, length-append,
  length-take, length-drop, take-append_length, drop-append_length, zeros, leb, leb→le, Bool-cases,
  arith,
}
use guillotine.Pallet.Config.{Config, IsLawful, State}
use guillotine.Pallet.Voucher.Reading.{section_of}
use guillotine.Pallet.Voucher.Source.{parse-IsRead}
use guillotine.Pallet.Claim.{claim}
use guillotine.Pallet.Claim.Rules.{IsSized}
use guillotine.Pallet.Claim.Outcome.{claim-eq_ok}
use guillotine.Client.Packing.{VoucherData, Toolkit, set_bytes, pack_and_sign_voucher}

-- Signatures of the key pair have 64 bytes, and one that is made for a message of 192 bytes
-- verifies for no message of 128 bytes, under whatever key.
pub record IsBinding (C : Config) (T : Toolkit) : Type 0 where
  pub length-sign : (m : Bytes) → length (T.sign m) ≡ 64
  pub binding :
      (m other : Bytes) (s : C.Sr25519Signature) (key : C.AccountId)
      → length m ≡ 192
      → length other ≡ 128
      → C.decode_sr25519 (T.sign m) ≡ some s
      → C.verify (C.from_sr25519 s) other key ≢ true

ensured :
    {E A : Type 0} (b : Bool) (e : E) (m : Result E A) {a : A} → (ensure b e >> m) ≡ ok a → m ≡ ok a
ensured true e m h = h
ensured false e m h = cc

-- A write that succeeds fits, and leaves the length as it was.
set_bytes-ok :
    (target source : Bytes) (offset : ℕ) {r : Bytes}
    → set_bytes target source offset ≡ ok r
    → (offset + length source ≤ length target)
      × (r ≡ take offset target ++ (source ++ drop (offset + length source) target))
unfolding set_bytes
set_bytes-ok target source offset h =
    elim (Bool-cases (leb (offset + length source) (length target))) [
      | inl e ↦ (leb→le _ _ e, ok_inj (rw e at (sym h)))
      | inr e ↦
          let bad : ◌≡◌ {A = Result String Bytes} (err "RangeError") (ok _) = rw e at h in
          absurd (ok_ne_err (sym bad))
    ]

set_bytes-length :
    (target source : Bytes) (offset : ℕ) {r : Bytes}
    → set_bytes target source offset ≡ ok r
    → length r ≡ length target
set_bytes-length target source offset h =
    let (fits, e) = set_bytes-ok target source offset h in
    let rest = drop (offset + length source) target in
    omega (
      arith,
      ap length e,
      length-append {0} (take offset target) (source ++ rest),
      length-append {0} source rest,
      length-take {0} offset target,
      length-drop {0} (offset + length source) target,
    )

then-ok :
    {E A B : Type 0} (m : Result E A) (f : A → Result E B) {b : B}
    → (m >>= f) ≡ ok b
    → (a : A) × (m ≡ ok a) × (f a ≡ ok b)
then-ok (ok a) f h = (a, refl, h)
then-ok (err e) f h = cc
then-ok panic f h = cc

module _ (T : Toolkit) where
  -- Whatever is packed, 192 bytes are signed, and the signature is written from byte 128 on.
  pack_and_sign_voucher-signs :
      (d : VoucherData) (scheme : String) {voucher : Bytes}
      → pack_and_sign_voucher T d scheme ≡ ok voucher
      → (m : Bytes) × (length m ≡ 192) × (set_bytes m (T.sign m) 128 ≡ ok voucher)
  unfolding pack_and_sign_voucher
  pack_and_sign_voucher-signs d scheme h =
      let h' = ensured _ _ _ h in
      let (a, p, ha) = then-ok _ _ h' in
      let (b, q, hb) = then-ok _ _ ha in
      let (c, r, hc) = then-ok _ _ hb in
      let (e, t, he) = then-ok _ _ hc in
      let (m, u, hm) = then-ok _ _ he in
      let size : length m ≡ 192 =
        set_bytes-length e _ _ u
        ∙ set_bytes-length c _ _ t
        ∙ set_bytes-length b _ _ r
        ∙ set_bytes-length a _ _ q
        ∙ set_bytes-length (zeros 192) _ _ p in
      (m, size, hm)

-- The place of the signature.
section_of-set_bytes :
    (m sig : Bytes) {r : Bytes}
    → length m ≡ 192
    → length sig ≡ 64
    → set_bytes m sig 128 ≡ ok r
    → section_of r 128 192 ≡ sig
section_of-set_bytes m sig size short h =
    let (fits, e) = set_bytes-ok m sig 128 h in
    let head = take 128 m in
    let rest = drop (128 + length sig) m in
    let head_size : length head ≡ 128 = omega (arith, length-take {0} 128 m) in
    ap (λ x. section_of x 128 192) e
    ∙ ap (λ n. take 64 (drop n (head ++ (sig ++ rest)))) (sym head_size)
    ∙ ap (take 64) (drop-append_length head (sig ++ rest))
    ∙ ap (λ n. take n (sig ++ rest)) (sym short)
    ∙ take-append_length sig rest

module _ (C : Config) (L : IsLawful C) (T : Toolkit) (B : IsBinding C T) where
  -- No claim of anything that was packed succeeds.
  pub claim-packed :
      (d : VoucherData) (scheme : String) (origin : C.Origin) (s : State C) {voucher : Bytes}
      → IsSized C s
      → pack_and_sign_voucher T d scheme ≡ ok voucher
      → (claim C origin voucher s).0 ≢ ok tt
  claim-packed d scheme origin s {voucher} sized packs h =
      let (m, size, wrote) = pack_and_sign_voucher-signs T d scheme packs in
      let (_, v, _, a, _, _, _) = claim-eq_ok C origin voucher s L sized h in
      let r = parse-IsRead C voucher a.parsed in
      let place = section_of-set_bytes m (T.sign m) size (B.length-sign m) wrote in
      let decoded : C.decode_sr25519 (T.sign m) ≡ some r.s =
        ap C.decode_sr25519 (sym place) ∙ r.signature_decoded in
      let verified : C.verify (C.from_sr25519 r.s) (take 128 voucher) v.sender_pk ≡ true =
        ap (λ g. C.verify g (take 128 voucher) v.sender_pk) (sym (ap (λ y. y.signature) r.voucher))
        ∙ a.genuine in
      let cut : length (take 128 voucher) ≡ 128 =
        omega (arith, length-take {0} 128 voucher, r.long) in
      B.binding m (take 128 voucher) r.s v.sender_pk size cut decoded verified
