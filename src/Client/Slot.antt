-- ===== src/Client/Slot.antt =====
-- The bound on the place of the oracle block in its era.
use Prim.Native.Nat.{bit_xor-bitwise, digits, differ}
use native.Mathlib.Nat.{pow-suc}
use guillotine.Base.{ℕ, zero, suc, ◌/◌, ◌%◌, ◌^◌, ◌<◌, arith}
use guillotine.Client.{slot}

-- Two binary digits differ by at most one.
differ-le : (x y : ℕ) → x < 2 → y < 2 → differ x y < 2
differ-le zero y h k = k
differ-le (suc x) zero h k = h
differ-le (suc x) (suc y) h k = differ-le x y (omega arith) (omega arith)

xor_digits-lt : (k n a b : ℕ) → a < 2 ^ k → b < 2 ^ k → digits (λ b. b) differ n a b < 2 ^ k
xor_digits-lt k zero a b h l = l
xor_digits-lt k (suc n) zero b h l = l
xor_digits-lt zero (suc n) (suc a) b h l = absurd (omega arith)
xor_digits-lt (suc k) (suc n) (suc a) b h l = omega (
  arith,
  pow-suc 2 k,
  differ-le (suc a % 2) (b % 2) (omega arith) (omega arith),
  xor_digits-lt k n (suc a / 2) (b / 2) (omega (arith, pow-suc 2 k)) (omega (arith, pow-suc 2 k)),
)

pub slot-lt : (sesh nonce : ℕ) → sesh < 1024 → slot sesh nonce < 1024
unfolding slot
slot-lt sesh nonce h =
    rw (bit_xor-bitwise sesh (nonce % 1024))
      (xor_digits-lt 10 sesh sesh (nonce % 1024) h (omega arith))
