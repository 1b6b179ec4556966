-- ===== src/Pallet/Claim/Odds.antt =====
-- How often a ticket wins, from the test on its hash.
use guillotine.Base.{
  ℕ, ◌↔◌, zero, suc, ◌+◌, ◌-◌, ◌/◌, ◌^◌, ◌≤◌, ◌<◌, ◌≡◌, Bool, true, false, sym, ap, ◌∙◌, Bytes, ok,
  ok_inj, ltb→le, le→ltb, from_le_bytes, arith, ltb, if◌then◌else◌, ltb→lt, lt→ltb,
}
use Prim.Native.Nat.{min}
use guillotine.Pallet.Config.{Config, IsLawful, u256_max}
use guillotine.Pallet.Claim.{wins}
use guillotine.Pallet.Claim.Cases.{wins-lawful}

-- How many numbers below `n` pass a test.
pub count_below : ℕ → (ℕ → Bool) → ℕ
count_below zero p = 0
count_below (suc n) p = count_below n p + (if p n then 1 else 0)

count_below-ltb : (n k : ℕ) → count_below n (λ h. ltb h k) ≡ min n k
unfolding count_below
count_below-ltb zero k = omega arith
count_below-ltb (suc n) k = ground (arith, count_below-ltb n k)

div-antitone : (m d e : ℕ) → 0 < d → d ≤ e → m / e ≤ m / d
div-antitone m d e h k = grind arith

-- The hashes that win at a difficulty.
abbrev pub is_winning : ℕ → ℕ → Bool
is_winning difficulty hash = ltb hash (u256_max / difficulty)

module _ (C : Config) (L : IsLawful C) where
  -- At a positive difficulty the winning test reads only the hash of its input, and (2^256 - 1) /
  -- difficulty of the 2^256 hashes win.
  pub wins_odds :
      (difficulty : ℕ)
      → 0 < difficulty
      → ((E : Type 0) (input : Bytes)
          → wins C {E = E} input difficulty
            ≡ ok (is_winning difficulty (from_le_bytes (C.blake2_256 input))))
        × (count_below (2 ^ 256) (is_winning difficulty) ≡ (2 ^ 256 - 1) / difficulty)
  wins_odds difficulty h =
      let fewer : u256_max / difficulty ≤ 2 ^ 256 = omega arith in
      (
        λ E input. wins-lawful C L input difficulty h,
        omega (arith, count_below-ltb (2 ^ 256) (u256_max / difficulty)),
      )

  -- A hash that wins at one difficulty wins at every lower positive difficulty.
  pub wins_antitone :
      {E : Type 0} (input : Bytes) (low high : ℕ)
      → 0 < low
      → low ≤ high
      → wins C {E = E} input high ≡ ok true
      → wins C {E = E} input low ≡ ok true
  wins_antitone input low high h k won =
      let before = ok_inj (sym (wins-lawful C L input high (omega arith)) ∙ won) in
      let less = ltb→lt _ _ before in
      let grows = div-antitone u256_max low high h k in
      rw (wins-lawful C L input low h) (ap ok (lt→ltb _ _ (omega arith)))

  -- At difficulty 1 an input loses exactly if its hash is 2^256 - 1 (no hash is greater).
  pub wins_one_iff :
      {E : Type 0} (input : Bytes)
      → (wins C {E = E} input 1 ≡ ok false) ↔ (u256_max ≤ from_le_bytes (C.blake2_256 input))
  wins_one_iff input =
      let lawful = wins-lawful C L input 1 (omega arith) in
      (
        λ e. omega (arith, ltb→le _ _ (ok_inj (sym lawful ∙ e))),
        λ h. lawful ∙ ap ok (le→ltb _ _ (omega arith)),
      )
