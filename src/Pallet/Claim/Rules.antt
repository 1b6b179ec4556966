-- ===== src/Pallet/Claim/Rules.antt =====
-- An independent description of the claims that are admitted and of those that are refused.
use guillotine.Base.{
  ℕ, ◌/◌, ◌≤◌, ◌<◌, ◌≡◌, ◌≢◌, true, false, some, none, ◌++◌, Bytes, ok, err, length, take,
  from_le_bytes,
}
use guillotine.Pallet.Config.{
  Config, State, DispatchError, bad_origin, module_error, invalid_voucher, invalid_recipient,
  invalid_voucher_signature, claimed_too_soon_or_late, voucher_did_not_win, u256_max,
}
use guillotine.Pallet.Voucher.{Voucher, parse}

-- The number drawn for the signed bytes of a voucher and the randomness of its oracle block.
abbrev pub ticket : Config → Bytes → Bytes → ℕ
ticket C voucher rand = from_le_bytes (C.blake2_256 (take 128 voucher ++ rand))

-- Every entry of the history is a hash of 32 bytes.
abbrev pub IsSized : (C : Config) → State C → Type 0
IsSized C s = (b : ℕ) (rand : Bytes) → C.history.get s.history b ≡ some rand → length rand ≡ 32

-- All that is asked of a claim before its ticket is drawn.
pub record IsAdmissible (C : Config) (origin : C.Origin) (voucher : Bytes) (s : State C)
    (who : C.AccountId) (v : Voucher C) (rand : Bytes) : Type 0 where
  pub signed : C.ensure_signed origin ≡ some who
  pub parsed : parse C voucher ≡ ok v
  pub addressed : v.recipient_pk ≡ who
  pub due : v.no_redeem_before_block ≤ C.block_number s.system
  pub genuine : C.verify v.signature (take 128 voucher) v.sender_pk ≡ true
  pub drawn : C.history.get s.history v.oracle_block ≡ some rand

abbrev pub Admitted : (C : Config) → C.Origin → Bytes → State C → Type 0
Admitted C origin voucher s =
    (who : C.AccountId) × (v : Voucher C) × (rand : Bytes) × IsAdmissible C origin voucher s who v
      rand

-- Why a claim is refused: each test with those before it passed.
pub data IsRejected (C : Config) (origin : C.Origin) (voucher : Bytes) (s : State C)
    : DispatchError → Type 0 where
  unsigned : C.ensure_signed origin ≡ none → IsRejected C origin voucher s bad_origin
  unreadable :
      {who : C.AccountId} {c : ℕ}
      → C.ensure_signed origin ≡ some who
      → parse C voucher ≡ err c
      → IsRejected C origin voucher s (module_error (invalid_voucher c))
  misaddressed :
      {who : C.AccountId} {v : Voucher C}
      → C.ensure_signed origin ≡ some who
      → parse C voucher ≡ ok v
      → v.recipient_pk ≢ who
      → IsRejected C origin voucher s (module_error invalid_recipient)
  early :
      {who : C.AccountId} {v : Voucher C}
      → C.ensure_signed origin ≡ some who
      → parse C voucher ≡ ok v
      → v.recipient_pk ≡ who
      → C.block_number s.system < v.no_redeem_before_block
      → IsRejected C origin voucher s (module_error claimed_too_soon_or_late)
  forged :
      {who : C.AccountId} {v : Voucher C}
      → C.ensure_signed origin ≡ some who
      → parse C voucher ≡ ok v
      → v.recipient_pk ≡ who
      → v.no_redeem_before_block ≤ C.block_number s.system
      → C.verify v.signature (take 128 voucher) v.sender_pk ≡ false
      → IsRejected C origin voucher s (module_error invalid_voucher_signature)
  undrawn :
      {who : C.AccountId} {v : Voucher C}
      → C.ensure_signed origin ≡ some who
      → parse C voucher ≡ ok v
      → v.recipient_pk ≡ who
      → v.no_redeem_before_block ≤ C.block_number s.system
      → C.verify v.signature (take 128 voucher) v.sender_pk ≡ true
      → C.history.get s.history v.oracle_block ≡ none
      → IsRejected C origin voucher s (module_error claimed_too_soon_or_late)
  lost :
      {who : C.AccountId} {v : Voucher C} {rand : Bytes}
      → IsAdmissible C origin voucher s who v rand
      → 0 < v.difficulty
      → u256_max / v.difficulty ≤ ticket C voucher rand
      → IsRejected C origin voucher s (module_error voucher_did_not_win)
