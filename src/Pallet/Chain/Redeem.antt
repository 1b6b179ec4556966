-- ===== src/Pallet/Chain/Redeem.antt =====
-- When a voucher can be redeemed in a reachable state.
use guillotine.Base.{
  ◌-◌, ◌/◌, ◌%◌, ◌⊎◌, err, ℕ, ◌+◌, ◌≤◌, ◌<◌, ◌≡◌, ◌↔◌, true, some, Bytes, ok, take, arith,
}
use guillotine.Pallet.Config.{
  Config, IsLawful, State, epoch_length, module_error, voucher_did_not_win,
}
use guillotine.Pallet.Voucher.{Voucher, parse}
use guillotine.Pallet.Claim.{claim}
use guillotine.Pallet.Claim.Rules.{IsAdmissible}
use guillotine.Pallet.Claim.Complete.{ReachesDraw-IsAdmissible, IsAdmissible-ReachesDraw}
use guillotine.Pallet.Chain.{Chain}
use guillotine.Pallet.Chain.Reach.{Chain-IsValid, Chain-IsSized, window_entry}

-- The blocks in which a voucher can be redeemed.
abbrev pub InWindow : {C : Config} → Voucher C → ℕ → Type 0
InWindow v n =
    (0 < v.oracle_block)
    × (v.oracle_block ≤ n)
    × (n < v.oracle_block + epoch_length)
    × (v.no_redeem_before_block ≤ n)

module _ (C : Config) (L : IsLawful C) (origin : C.Origin) (voucher : Bytes) {n : ℕ} {s : State C}
    (r : Chain C n s) where
  IsAdmissible-InWindow :
      {who : C.AccountId} {v : Voucher C} {rand : Bytes}
      → IsAdmissible C origin voucher s who v rand
      → InWindow v n
  IsAdmissible-InWindow {v} a =
      let valid = Chain-IsValid C L r in
      omega (arith, a.due, valid.clock, window_entry C valid.window v.oracle_block a.drawn)

module _ (C : Config) (L : IsLawful C) (origin : C.Origin) (voucher : Bytes) {n : ℕ} {s : State C}
    (r : Chain C n s) {v : Voucher C} (parsed : parse C voucher ≡ ok v) where
  -- In a reachable state of block n, a readable voucher for the caller with a valid signature is
  -- admissible exactly if its oracle block is past, positive and less than 1024 blocks old, and n
  -- has reached its first redeeming block.
  pub IsAdmissible-InWindow_iff :
      {who : C.AccountId}
      → C.ensure_signed origin ≡ some who
      → v.recipient_pk ≡ who
      → C.verify v.signature (take 128 voucher) v.sender_pk ≡ true
      → ((rand : Bytes) × IsAdmissible C origin voucher s who v rand) ↔ InWindow v n
  IsAdmissible-InWindow_iff signed addressed genuine =
      let valid = Chain-IsValid C L r in
      (
        λ (_, a). IsAdmissible-InWindow C L origin voucher r a,
        λ (pos, past, fresh, due).
            let (rand, drawn, _) = valid.window.recent v.oracle_block pos past fresh in
            (
              rand,
              record {
                signed = signed;
                parsed = parsed;
                addressed = addressed;
                due = omega (arith, valid.clock);
                genuine = genuine;
                drawn = drawn;
              },
            ),
      )

module _ (C : Config) (L : IsLawful C) (origin : C.Origin) (voucher : Bytes) {n : ℕ} {s : State C}
    (r : Chain C n s) {v : Voucher C} (parsed : parse C voucher ≡ ok v) {who : C.AccountId}
    (signed : C.ensure_signed origin ≡ some who) (staked : 0 < v.difficulty) where
  -- In a reachable state of block n, a claim by a signed caller of a readable voucher of positive
  -- difficulty is redeemed, or refused for not winning, exactly if the caller is its recipient,
  -- its signature is valid, its oracle block is past, positive and less than 1024 blocks old, and
  -- n has reached its first redeeming block.
  pub claim-InWindow_iff :
      (((claim C origin voucher s).0 ≡ ok tt)
        ⊎ ((claim C origin voucher s).0 ≡ err (module_error voucher_did_not_win)))
      ↔ ((v.recipient_pk ≡ who)
          × (C.verify v.signature (take 128 voucher) v.sender_pk ≡ true)
          × InWindow v n)
  claim-InWindow_iff = (
    λ h.
        let (_, a) =
          ReachesDraw-IsAdmissible C L origin voucher s (Chain-IsSized C L r) signed parsed h in
        (a.addressed, a.genuine, IsAdmissible-InWindow C L origin voucher r a),
    λ (addressed, genuine, window).
        let (_, a) =
          (IsAdmissible-InWindow_iff C L origin voucher r parsed signed addressed genuine).1
            window in
        IsAdmissible-ReachesDraw C L origin voucher s (Chain-IsSized C L r) a staked,
  )

  -- If the oracle block lies in the era after that of some current block and the first redeeming
  -- block is 2048 past that current block, as README.md says, then in a reachable state of block
  -- n a claim by a signed caller of the readable voucher, of positive difficulty, is redeemed, or
  -- refused for not winning, exactly if the caller is its recipient, its signature is valid, and
  -- n is at least 2048 past the current block, and by less than the places that the oracle block
  -- lies later in its era than the current block: in no block, if it lies no later.
  pub documented_window :
      (current_block : ℕ)
      → v.oracle_block / 1024 ≡ current_block / 1024 + 1
      → v.no_redeem_before_block ≡ current_block + 2048
      → (((claim C origin voucher s).0 ≡ ok tt)
          ⊎ ((claim C origin voucher s).0 ≡ err (module_error voucher_did_not_win)))
        ↔ ((v.recipient_pk ≡ who)
            × (C.verify v.signature (take 128 voucher) v.sender_pk ≡ true)
            × (current_block + 2048 ≤ n)
            × (n < current_block + 2048 + (v.oracle_block % 1024 - current_block % 1024)))
  documented_window current_block era due = (
    λ h.
        let (addressed, genuine, window) = claim-InWindow_iff.0 h in
        (addressed, genuine, omega (arith, window), omega (arith, window)),
    λ (addressed, genuine, from, to). claim-InWindow_iff.1 (addressed, genuine, omega arith),
  )
