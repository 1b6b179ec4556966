-- ===== src/Pallet/Ledger.antt =====
-- What the pallet promises, apart from its code: a ledger that keeps every random draw and every
-- payment, and forgets nothing.
pub mod Refinement
use guillotine.Base.{
  ℕ, suc, ◌≡◌, ◌<◌, ◌/◌, true, Option, none, some, List, [], ◌∷◌, ◌++◌, Bytes, ok, length, take,
  ◌==◌, if◌then◌else◌,
}
use guillotine.Pallet.Config.{Config, u256_max}
use guillotine.Pallet.Voucher.{Voucher, parse}
use guillotine.Pallet.Claim.Rules.{ticket}
use guillotine.Pallet.Chain.Redeem.{InWindow}

pub record Ledger (C : Config) : Type 0 where
  pub now : ℕ
  pub drawn : ℕ → Option Bytes
  pub paid : List (ℕ × C.AccountId)

abbrev pub empty : (C : Config) → Ledger C
empty C = record { now = 0; drawn = λ b. none; paid = [] }

-- A caller presents a winning voucher in its window.
pub record IsPayable (C : Config) (origin : C.Origin) (voucher : Bytes) (l : Ledger C)
    (who : C.AccountId) (v : Voucher C) (rand : Bytes) : Type 0 where
  pub signed : C.ensure_signed origin ≡ some who
  pub parsed : parse C voucher ≡ ok v
  pub addressed : v.recipient_pk ≡ who
  pub genuine : C.verify v.signature (take 128 voucher) v.sender_pk ≡ true
  pub in_window : InWindow v l.now
  pub drawn : l.drawn v.oracle_block ≡ some rand
  pub staked : 0 < v.difficulty
  pub won : ticket C voucher rand < u256_max / v.difficulty

module _ (C : Config) where
  abbrev pub opened : Ledger C → Bytes → Ledger C
  opened l rand = record l {
    now = suc l.now;
    drawn = λ b. if b == suc l.now then some rand else l.drawn b;
  }

  abbrev pub settled : Ledger C → C.AccountId → Voucher C → Ledger C
  settled l who v = record l { paid = l.paid ++ (v.value_if_paid, who) ∷ [] }

  -- A block opens with a draw of 32 bytes, or a voucher is paid.
  pub data Step : Ledger C → Ledger C → Type 0 where
    opens : {l m : Ledger C} (rand : Bytes) → length rand ≡ 32 → m ≡ opened l rand → Step l m
    pays :
        {l m : Ledger C} (origin : C.Origin) (voucher : Bytes) (who : C.AccountId) (v : Voucher C)
        (rand : Bytes)
        → IsPayable C origin voucher l who v rand
        → m ≡ settled l who v
        → Step l m

  pub data Run : Ledger C → Type 0 where
    start : {l : Ledger C} → l ≡ empty C → Run l
    next : {l m : Ledger C} → Run l → Step l m → Run m
