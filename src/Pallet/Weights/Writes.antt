-- ===== src/Pallet/Weights/Writes.antt =====
-- How often the pallet writes to its storage, against the writes that its weights declare.
use guillotine.Base.{ℕ, suc, ◌+◌, ◌≤◌, ◌≡◌, refl, ap, Bytes, arith, ltb, if◌then◌else◌}
use guillotine.Pallet.Config.{Config, IsLawful, StorageMap, State, epoch_length}
use guillotine.Pallet.History.{on_initialize}
use guillotine.Pallet.Claim.{claim}
use guillotine.Pallet.Claim.Frame.{claim-keeps}

-- A storage map that counts its writes.
abbrev pub counted : {V : Type 0} → StorageMap V → StorageMap V
counted M = record {
  State = ℕ × M.State;
  get = λ s k. M.get s.1 k;
  set = λ s k v. (suc s.0, M.set s.1 k v);
  get-set = λ s k v j. M.get-set s.1 k v j;
}

-- A configuration whose history counts its writes.
abbrev pub counting : Config → Config
counting C = record C { history = counted C.history }

counting-IsLawful : (C : Config) → IsLawful C → IsLawful (counting C)
counting-IsLawful C L = record {
  length-random = L.length-random;
  length-blake2_256 = L.length-blake2_256;
  account_eq_iff = L.account_eq_iff;
  block_number-deposit_event = L.block_number-deposit_event;
  u256_from_little_endian_lem = L.u256_from_little_endian_lem;
  u256_div_lem = L.u256_div_lem;
  u256_div-zero = L.u256_div-zero;
}

module _ (C : Config) (n : ℕ) (s : State (counting C)) where
  on_initialize-writes :
      let (weight, t) = on_initialize (counting C) n s in
      (t.history.0 ≡ s.history.0 + (if ltb epoch_length n then 2 else 1))
      × (weight ≡ C.reads_writes 1 2)
  unfolding on_initialize
  on_initialize-writes = (ground arith, refl)

  claim-writes :
      IsLawful C
      → (origin : C.Origin) (voucher : Bytes)
      → (claim (counting C) origin voucher s).1.history.0 ≡ s.history.0
  claim-writes L origin voucher =
      ap (λ h. h.0) (claim-keeps (counting C) (counting-IsLawful C L) origin voucher s).0

-- The hook of block n declares one read and two writes, and writes to the pallet's storage twice
-- after block 1024 and once up to it; a claim writes nothing to it.
pub declared_writes :
    (C : Config) (L : IsLawful C) (n : ℕ) (s : State (counting C)) (origin : C.Origin)
    (voucher : Bytes)
    → let (weight, t) = on_initialize (counting C) n s in
      (weight ≡ C.reads_writes 1 2)
      × (t.history.0 ≡ s.history.0 + (if ltb epoch_length n then 2 else 1))
      × (t.history.0 ≤ s.history.0 + 2)
      × ((claim (counting C) origin voucher s).1.history.0 ≡ s.history.0)
declared_writes C L n s origin voucher =
    let (writes, weight) = on_initialize-writes C n s in
    (weight, writes, ground arith, claim-writes C n s L origin voucher)
