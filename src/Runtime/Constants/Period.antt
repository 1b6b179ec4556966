-- ===== src/Runtime/Constants/Period.antt =====
-- The period of a mortal transaction lies within the blocks whose hashes are kept.
use native.Mathlib.Nat.{pow-suc}
use guillotine.Base.{
  ℕ, zero, suc, ◌*◌, ◌/◌, ◌^◌, ◌≤◌, ◌<◌, ◌≡◌, refl, ap, some, inl, inr, arith, leb, leb→le, leb→lt,
  Bool-cases,
}
use guillotine.Runtime.Constants.{
  double_up, checked_next_power_of_two, block_hash_count, mortal_period,
}

-- Doubling a power of two stops at one that is at least `n` and less than twice `n`.
double_up_stops :
    (fuel k p n : ℕ)
    → p ≡ 2 ^ k
    → p < 2 * n
    → n * 2 ≤ p * 2 ^ fuel
    → (j : ℕ) × (c : ℕ) × (double_up fuel p n ≡ some c) × (c ≡ 2 ^ j) × (n ≤ c) × (c < 2 * n)
unfolding double_up
double_up_stops zero k p n e h enough = absurd (omega arith)
double_up_stops (suc fuel) k p n e h enough = elim (Bool-cases (leb n p)) [
  | inl stop ↦ (k, p, rw stop, e, leb→le _ _ stop, h)
  | inr more ↦
      let below = leb→lt _ _ more in
      let room : n * 2 ≤ p * 2 * 2 ^ fuel = omega (arith, ap (λ t. p * t) (pow-suc 2 fuel)) in
      let next : p * 2 ≡ 2 ^ suc k = omega (arith, pow-suc 2 k) in
      let (j, c, found, power, low, high) =
        double_up_stops fuel (suc k) (p * 2) n next (omega arith) room in
      (j, c, rw more found, power, low, high)
]

half_of_power : (j c : ℕ) → c ≡ 2 ^ j → 2 ≤ c → (i : ℕ) × (c / 2 ≡ 2 ^ i) × (c ≡ 2 * (c / 2))
half_of_power zero c e h = absurd (omega arith)
half_of_power (suc i) c e h = (i, omega (arith, pow-suc 2 i), omega (arith, pow-suc 2 i))

-- For a count of 2 to 2^31 kept block hashes the period of a mortal transaction is a power of two
-- below the count, and at least half of it.
pub mortal_period_bounds :
    (count : ℕ)
    → 1 < count
    → count ≤ 2 ^ 31
    → (j : ℕ) × (mortal_period count ≡ 2 ^ j)
      × (mortal_period count < count)
      × (count ≤ 2 * mortal_period count)
unfolding mortal_period checked_next_power_of_two
mortal_period_bounds count h k =
    let (j, c, found, power, low, high) =
      double_up_stops 32 0 1 count refl (omega arith) (omega arith) in
    let (i, half, even) = half_of_power j c power (omega arith) in
    rw (found, mortal_period) (i, half, omega arith, omega arith)

-- The runtime's own period.
pub runtime_period : mortal_period block_hash_count ≡ 2048
unfolding mortal_period checked_next_power_of_two double_up
runtime_period = refl
