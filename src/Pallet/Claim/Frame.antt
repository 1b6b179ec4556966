-- ===== src/Pallet/Claim/Frame.antt =====
-- What no claim changes, and what does not matter to it.
use guillotine.Base.{
  ◌≤◌, ◌≡◌, ◌++◌, length, slice-append, arith, refl, inl, inr, Bytes, Result-cases,
}
use guillotine.Pallet.Config.{Config, IsLawful, State}
use guillotine.Pallet.Voucher.Reading.{parse-append}
use guillotine.Pallet.Claim.{claim, check_claim}

module _ (C : Config) (L : IsLawful C) (origin : C.Origin) (voucher : Bytes) (s : State C) where
  -- A claim leaves the history and the block number as they were.
  pub claim-keeps :
      ((claim C origin voucher s).1.history ≡ s.history)
      × (C.block_number (claim C origin voucher s).1.system ≡ C.block_number s.system)
  unfolding claim
  claim-keeps = elim (Result-cases (check_claim C origin voucher s)) [
    | inl (_, e) ↦ rw e (refl, L.block_number-deposit_event _ _)
    | inr (inl (_, e)) ↦ rw e (refl, refl)
    | inr (inr e) ↦ rw e (refl, refl)
  ]

-- A claim of at least 192 bytes with further bytes behind them does what the claim without those
-- bytes does.
pub claim-append :
    (C : Config) (origin : C.Origin) (voucher rest : Bytes) (s : State C)
    → 192 ≤ length voucher
    → claim C origin (voucher ++ rest) s ≡ claim C origin voucher s
unfolding claim check_claim
claim-append C origin voucher rest s h =
    rw (parse-append C voucher rest h, slice-append voucher rest 0 128 (omega arith) (omega arith))
