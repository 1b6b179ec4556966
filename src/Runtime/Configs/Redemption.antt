-- ===== src/Runtime/Configs/Redemption.antt =====
-- What becomes of a voucher that is written and signed as README.md says, and presented in time.
use guillotine.Base.{
  ℕ, ◌+◌, ◌-◌, ◌*◌, ◌/◌, ◌≤◌, ◌<◌, ◌≡◌, refl, ap, ◌∙◌, ◌⊎◌, true, some, [], ◌++◌, Bytes, ok, err,
  take, from_le_bytes,
}
use guillotine.Pallet.Config.{
  Config, IsLawful, State, epoch_length, u256_max, module_error, voucher_did_not_win,
}
use guillotine.Pallet.Voucher.{Voucher}
use guillotine.Pallet.Voucher.Layout.{
  Codec, IsInRange, unsigned_bytes, encode, parse-encode, take-encode,
}
use guillotine.Pallet.Claim.{claim}
use guillotine.Pallet.Claim.Rules.{IsAdmissible, ticket}
use guillotine.Pallet.Claim.Outcome.{redeemed, claim-settled}
use guillotine.Pallet.Chain.{Chain}
use guillotine.Pallet.Chain.Reach.{Chain-IsSized}
use guillotine.Runtime.Constants.{slot_duration}
use guillotine.Runtime.Configs.{runtime_timestamp, runtime_aura}
use guillotine.Runtime.Configs.Clock.{IsClock, IsAdmissible-in_time}

module _ {C : Config} (K : Codec C) (v : Voucher C) (g : C.Sr25519Signature) where
  -- The bytes of the voucher, and the voucher that the pallet reads.
  abbrev pub written : Bytes
  written = encode K v g []

  abbrev pub signed_voucher : Voucher C
  signed_voucher = record v { signature = C.from_sr25519 g }

  take-written : IsInRange v → take 128 written ≡ unsigned_bytes K v
  take-written = take-encode K v g []

  -- The number that decides: the hash of the signed bytes and the randomness of a block.
  abbrev pub ticket_of : Bytes → ℕ
  ticket_of rand = from_le_bytes (C.blake2_256 (unsigned_bytes K v ++ rand))

  module _ (L : IsLawful C) {time slot : ℕ → ℕ}
      (clock : IsClock runtime_timestamp runtime_aura time slot) (origin : C.Origin) {n : ℕ}
      {s : State C} (r : Chain C n s) (in_range : IsInRange v)
      (signed : C.ensure_signed origin ≡ some v.recipient_pk)
      (genuine : C.verify (C.from_sr25519 g) (unsigned_bytes K v) v.sender_pk ≡ true) where
    written-IsAdmissible :
        0 < v.oracle_block
        → v.oracle_block ≤ n
        → v.no_redeem_before_block ≤ n
        → time n ≤ time v.oracle_block + slot_duration * (epoch_length - 1)
        → (rand : Bytes) × IsAdmissible C origin written s v.recipient_pk signed_voucher rand
    written-IsAdmissible pos past due soon =
        IsAdmissible-in_time clock C L origin written r signed (parse-encode K v g [] in_range) refl
          (ap (λ m. C.verify (C.from_sr25519 g) m v.sender_pk) (take-written in_range) ∙ genuine)
          pos past due soon

    same_ticket : (rand : Bytes) → ticket C written rand ≡ ticket_of rand
    same_ticket rand = ap (λ m. from_le_bytes (C.blake2_256 (m ++ rand))) (take-written in_range)

    -- A voucher in range of positive difficulty, written as README.md says, signed over its 128
    -- bytes, and presented by its recipient in a reachable state, with its oracle block past and
    -- positive, from its first redeeming block on and at most 1023 slots after its oracle block
    -- by the runtime's clock: if the hash of those bytes and of the randomness of its oracle
    -- block is below U256::MAX divided by the difficulty, it is redeemed with its event, and if
    -- not, it is refused for not winning and nothing changes.
    pub redeemed_in_time :
        0 < v.oracle_block
        → v.oracle_block ≤ n
        → v.no_redeem_before_block ≤ n
        → time n ≤ time v.oracle_block + slot_duration * (epoch_length - 1)
        → 0 < v.difficulty
        → (rand : Bytes) × (C.history.get s.history v.oracle_block ≡ some rand)
          × (((ticket_of rand < u256_max / v.difficulty)
                × (claim C origin written s
                    ≡ (ok tt, redeemed C origin written s v.recipient_pk signed_voucher)))
              ⊎ ((u256_max / v.difficulty ≤ ticket_of rand)
                  × (claim C origin written s ≡ (err (module_error voucher_did_not_win), s))))
    redeemed_in_time pos past due soon staked =
        let (rand, a) = written-IsAdmissible pos past due soon in
        let sized = Chain-IsSized C L r in
        (rand, a.drawn, rw (← same_ticket rand) (claim-settled C origin written s L sized a staked))
