-- ===== src/Pallet/Claim.antt =====
-- The call `claim` (blockchain/pallets/probabilistic-payments/src/lib.rs).
pub mod Rules
pub mod Signed
pub mod Complete
pub mod Cases
pub mod Outcome
pub mod Frame
pub mod Replay
pub mod Odds
pub mod Batch
use guillotine.Base.{
  ℕ, Bool, Option, none, some, ◌++◌, Bytes, Result, ok, err, panic, ◌>>=◌, ◌>>◌, ensure, ok_or,
  map_err, slice, to_array, ltb, leb,
}
use guillotine.Pallet.Config.{
  Config, State, DispatchError, bad_origin, module_error, invalid_voucher, invalid_recipient,
  invalid_voucher_signature, claimed_too_soon_or_late, voucher_did_not_win, voucher_claimed,
  u256_max,
}
use guillotine.Pallet.Voucher.{Voucher, parse}

abbrev or_panic : {E A : Type 0} → Option A → Result E A
or_panic none = panic
or_panic (some a) = ok a

-- `input`, an array of 160 bytes filled by two `copy_from_slice`.
unfoldable pub hash_input : {E : Type 0} → Bytes → Bytes → Result E Bytes
hash_input unsigned_voucher rand = do
  head ← to_array 128 unsigned_voucher
  tail ← to_array 32 rand
  ok (head ++ tail)

module _ (C : Config) where
  -- `U256::from_little_endian(&hash[..]) < U256::MAX / U256::from(difficulty)`
  unfoldable pub wins : {E : Type 0} → Bytes → ℕ → Result E Bool
  wins input difficulty = do
    hash ← or_panic (C.u256_from_little_endian (C.blake2_256 input))
    bound ← or_panic (C.u256_div u256_max difficulty)
    ok (ltb hash bound)

  -- Everything that `claim` tests before it deposits its event.
  unfoldable pub check_claim :
      C.Origin → Bytes → State C → Result DispatchError (C.AccountId × Voucher C)
  check_claim origin voucher s = do
    who ← ok_or (C.ensure_signed origin) bad_origin
    v ← map_err (λ c. module_error (invalid_voucher c)) (parse C voucher)
    ensure (C.account_eq v.recipient_pk who) (module_error invalid_recipient)
    ensure (leb v.no_redeem_before_block (C.block_number s.system))
        (module_error claimed_too_soon_or_late)
    unsigned_voucher ← slice voucher 0 128
    ensure (C.verify v.signature unsigned_voucher v.sender_pk)
        (module_error invalid_voucher_signature)
    rand ← ok_or (C.history.get s.history v.oracle_block) (module_error claimed_too_soon_or_late)
    input ← hash_input unsigned_voucher rand
    won ← wins input v.difficulty
    ensure won (module_error voucher_did_not_win)
    ok (who, v)

  unfoldable pub deposit : C.AccountId → Voucher C → State C → State C
  deposit who v s = record s {
    system = C.deposit_event s.system (voucher_claimed v.value_if_paid who);
  }

  unfoldable pub finish :
      Result DispatchError (C.AccountId × Voucher C)
      → State C
      → Result DispatchError (Unit {0}) × State C
  finish (ok (who, v)) s = (ok tt, deposit who v s)
  finish (err e) s = (err e, s)
  finish panic s = (panic, s)

  -- `claim(origin, voucher)`
  unfoldable pub claim : C.Origin → Bytes → State C → Result DispatchError (Unit {0}) × State C
  unfolding finish deposit
  claim origin voucher s = finish (check_claim origin voucher s) s
