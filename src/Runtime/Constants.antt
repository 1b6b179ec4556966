-- ===== src/Runtime/Constants.antt =====
-- Constants of the runtime, and the period of a mortal transaction that follows from one of them.
pub mod Period
use guillotine.Base.{
  ℕ, zero, suc, ◌*◌, ◌/◌, ◌-◌, ◌^◌, List, [], ◌∷◌, Option, none, some, leb, if◌then◌else◌,
}

-- `BlockHashCount`
abbrev pub block_hash_count : ℕ
block_hash_count = 2400

-- `EXISTENTIAL_DEPOSIT`
abbrev pub existential_deposit : ℕ
existential_deposit = 500

-- `MaxAuthorities`
abbrev pub max_authorities : ℕ
max_authorities = 100

-- `MaxKeys`, `MaxPeerInHeartbeats`, and `StakingUnsignedPriority`, half of the greatest `u64`
abbrev pub max_keys : ℕ
max_keys = 10000

abbrev pub max_peer_in_heartbeats : ℕ
max_peer_in_heartbeats = 10000

abbrev pub staking_unsigned_priority : ℕ
staking_unsigned_priority = (2 ^ 64 - 1) / 2

-- `NftPermissionPalletId`: the bytes of `nft_perm`
abbrev pub nft_permission_pallet_id : List ℕ
nft_permission_pallet_id = b'n' ∷ b'f' ∷ b't' ∷ b'_' ∷ b'p' ∷ b'e' ∷ b'r' ∷ b'm' ∷ []

-- `VERSION.spec_version` and `VERSION.transaction_version`
abbrev pub spec_version : ℕ
spec_version = 100

abbrev pub transaction_version : ℕ
transaction_version = 1

-- The least of `p`, `2 * p`, … that is at least `n`, among as many as there is fuel.
pub double_up : ℕ → ℕ → ℕ → Option ℕ
double_up zero p n = none
double_up (suc fuel) p n = let rest = double_up fuel (p * 2) n in if leb n p then some p else rest

-- `u32::checked_next_power_of_two`: a `u32` holds 32 powers of two.
unfoldable pub checked_next_power_of_two : ℕ → Option ℕ
checked_next_power_of_two n = double_up 32 1 n

-- `count.checked_next_power_of_two().map(|c| c / 2).unwrap_or(2)`
unfoldable pub mortal_period : ℕ → ℕ
mortal_period count = elim (checked_next_power_of_two count) [ some c ↦ c / 2 | none ↦ 2 ]

-- `MILLISECS_PER_BLOCK`, `SLOT_DURATION`, and `MinimumPeriod` of the timestamp pallet
abbrev pub millisecs_per_block : ℕ
millisecs_per_block = 6000

abbrev pub slot_duration : ℕ
slot_duration = millisecs_per_block

abbrev pub minimum_period : ℕ
minimum_period = slot_duration / 2

-- `MINUTES`, `HOURS` and `DAYS`, in blocks
abbrev pub minutes : ℕ
minutes = 60000 / millisecs_per_block

abbrev pub hours : ℕ
hours = minutes * 60

abbrev pub days : ℕ
days = hours * 24
