-- ===== src/Runtime/Configs/Clock.antt =====
-- How long a voucher can be redeemed, by the clock: the runtime's configurations of the timestamp
-- pallet and of Aura, together with the pallet's epoch.
use guillotine.Base.{
  ℕ, zero, suc, ◌+◌, ◌-◌, ◌*◌, ◌/◌, ◌≤◌, ◌<◌, ◌≡◌, refl, some, true, false, Bytes, ok, take, arith,
}
use guillotine.Pallet.Config.{Config, IsLawful, State, epoch_length}
use guillotine.Pallet.Voucher.{Voucher, parse}
use guillotine.Pallet.Claim.Rules.{IsAdmissible}
use guillotine.Pallet.Chain.{Chain}
use guillotine.Pallet.Chain.Redeem.{IsAdmissible-InWindow_iff}
use guillotine.Runtime.Constants.{slot_duration}
use guillotine.Runtime.Configs.{TimestampConfig, AuraConfig, aura, runtime_timestamp, runtime_aura}

-- The times and slots of a chain's blocks, as the two pallets document them: a block's timestamp
-- is at least the minimum period after the one before; where Aura is told of timestamps, a
-- block's slot is its timestamp divided by twice the minimum period; and slots do not repeat
-- where a slot has one block.
pub record IsClock (T : TimestampConfig) (A : AuraConfig) (time slot : ℕ → ℕ) : Type 0 where
  pub advances : (n : ℕ) → 0 < n → time n + T.minimum_period ≤ time (suc n)
  pub aligned :
      T.on_timestamp_set ≡ aura → (n : ℕ) → 0 < n → slot n ≡ time n / (T.minimum_period * 2)
  pub ordered : A.allow_multiple_blocks_per_slot ≡ false → (n : ℕ) → 0 < n → slot n < slot (suc n)

module _ {time slot : ℕ → ℕ} (clock : IsClock runtime_timestamp runtime_aura time slot) where
  slots_apart : (b : ℕ) → 0 < b → (k n : ℕ) → n ≡ b + k → slot b + k ≤ slot n
  unfolding runtime_aura
  slots_apart b pos zero n e = let same : n ≡ b = omega arith in rw same (omega arith)
  slots_apart b pos (suc k) n e =
      let next : n ≡ suc (b + k) = omega arith in
      rw next
        (omega (arith, slots_apart b pos k (b + k) refl, clock.ordered refl (b + k) (omega arith)))

  slot_time : (n : ℕ) → 0 < n → slot n ≡ time n / slot_duration
  unfolding runtime_timestamp
  slot_time n pos = clock.aligned refl n pos

  -- Block times are more than a slot's length apart for each block in between.
  blocks_apart :
      (b n : ℕ)
      → 0 < b
      → b ≤ n
      → time n ≤ time b + slot_duration * (epoch_length - 1)
      → n < b + epoch_length
  blocks_apart b n pos le soon =
      omega (
        arith,
        slots_apart b pos (n - b) n (omega arith),
        slot_time b pos,
        slot_time n (omega arith),
      )

  -- A readable voucher of the caller, signed and due, is admissible until 1023 slots after the time
  -- of its oracle block.
  pub IsAdmissible-in_time :
      (C : Config) (L : IsLawful C) (origin : C.Origin) (voucher : Bytes) {n : ℕ} {s : State C}
      {who : C.AccountId} {v : Voucher C}
      → Chain C n s
      → C.ensure_signed origin ≡ some who
      → parse C voucher ≡ ok v
      → v.recipient_pk ≡ who
      → C.verify v.signature (take 128 voucher) v.sender_pk ≡ true
      → 0 < v.oracle_block
      → v.oracle_block ≤ n
      → v.no_redeem_before_block ≤ n
      → time n ≤ time v.oracle_block + slot_duration * (epoch_length - 1)
      → (rand : Bytes) × IsAdmissible C origin voucher s who v rand
  IsAdmissible-in_time C L origin voucher {n} {v} r signed parsed addressed genuine pos past due
        soon =
      (IsAdmissible-InWindow_iff C L origin voucher r parsed signed addressed genuine).1
        (pos, past, blocks_apart v.oracle_block n pos past soon, due)
