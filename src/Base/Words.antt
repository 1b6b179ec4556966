-- ===== src/Base/Words.antt =====
-- Bytes as numbers below 256, slices of them, and little-endian words.
use Prim.Native.Nat.{ℕ, zero, suc, ◌+◌, ◌-◌, ◌*◌, ◌/◌, ◌%◌, ◌^◌, ◌≤◌, ◌<◌}
use mathlib.Core.Path.{◌≡◌, refl, ap, sym, ◌∙◌}
use mathlib.Core.List.{List, [], ◌∷◌, ◌++◌, append_assoc}
use native.Mathlib.Omega.{arith}
use native.Mathlib.Nat.{pow-suc}
use guillotine.Base.Tests.{leb, le→leb, eq→==, ◌==◌, if◌then◌else◌}
use guillotine.Base.Lists.{
  length, take, drop, length-append, length-take, length-drop, take-append_le, drop-append_le,
  take-append_length, drop-append_length, drop-drop,
}
use guillotine.Base.Outcome.{Result, ok, panic}

abbrev pub Bytes : Type 0
Bytes = List ℕ

-- `v[a..b]`, which panics where the range leaves the slice.
unfoldable pub slice : {E : Type 0} → Bytes → ℕ → ℕ → Result E Bytes
slice v a b = if leb b (length v) then ok (take (b - a) (drop a v)) else panic

-- `slice.try_into().unwrap()` into an array of `n` bytes, and `copy_from_slice` into one.
unfoldable pub to_array : {E : Type 0} → ℕ → Bytes → Result E Bytes
to_array n v = if length v == n then ok v else panic

-- The number that little-endian bytes stand for.
unfoldable pub from_le_bytes : Bytes → ℕ
from_le_bytes [] = 0
from_le_bytes (b ∷ bs) = b + 256 * from_le_bytes bs

-- `x.encode()` of an unsigned integer of `n` bytes.
unfoldable pub to_le_bytes : ℕ → ℕ → Bytes
to_le_bytes zero x = []
to_le_bytes (suc n) x = (x % 256) ∷ to_le_bytes n (x / 256)

pub length-to_le_bytes : (n x : ℕ) → length (to_le_bytes n x) ≡ n
unfolding to_le_bytes
length-to_le_bytes zero x = refl
length-to_le_bytes (suc n) x = ap suc (length-to_le_bytes n (x / 256))

pub from_le_bytes-to_le_bytes : (n x : ℕ) → x < 256 ^ n → from_le_bytes (to_le_bytes n x) ≡ x
unfolding from_le_bytes to_le_bytes
from_le_bytes-to_le_bytes zero x h = omega arith
from_le_bytes-to_le_bytes (suc n) x h =
    let quotient : x / 256 < 256 ^ n = omega (arith, pow-suc 256 n) in
    omega (arith, from_le_bytes-to_le_bytes n (x / 256) quotient)

pub length-slice :
    (v : Bytes) (a b : ℕ) → a ≤ b → b ≤ length v → length (take (b - a) (drop a v)) ≡ b - a
length-slice v a b h k = omega (arith, length-take {0} (b - a) (drop a v), length-drop {0} a v)

module _ {E : Type 0} where
  -- A slice that ends within the bytes is read.
  pub slice-ok :
      (v : Bytes) (a b : ℕ) → b ≤ length v → slice {E = E} v a b ≡ ok (take (b - a) (drop a v))
  unfolding slice
  slice-ok v a b h = rw (le→leb _ _ h)

  -- Bytes behind the slice are not read.
  pub slice-append :
      (v rest : Bytes) (a b : ℕ)
      → a ≤ b
      → b ≤ length v
      → slice {E = E} (v ++ rest) a b ≡ slice v a b
  slice-append v rest a b h k =
      let within : b ≤ length (v ++ rest) = omega (arith, length-append {0} v rest) in
      let start : a ≤ length v = omega arith in
      let room : b - a ≤ length (drop a v) = omega (arith, length-drop {0} a v) in
      rw (
        slice-ok (v ++ rest) a b within,
        slice-ok v a b k,
        drop-append_le a v rest start,
        take-append_le (b - a) (drop a v) rest room,
      )

  pub to_array-ok : (n : ℕ) (v : Bytes) → length v ≡ n → to_array {E = E} n v ≡ ok v
  unfolding to_array
  to_array-ok n v h = rw (eq→== _ _ h)

-- Pieces laid out one behind the other, before the bytes that follow them.
abbrev pub chunks : List Bytes → Bytes → Bytes
chunks [] rest = rest
chunks (f ∷ fs) rest = f ++ chunks fs rest

abbrev pub size : List Bytes → ℕ
size [] = 0
size (f ∷ fs) = length f + size fs

pub chunks-append : (fs : List Bytes) (a b : Bytes) → chunks fs (a ++ b) ≡ chunks fs a ++ b
chunks-append [] a b = refl
chunks-append (f ∷ fs) a b =
    ap (λ t. f ++ t) (chunks-append fs a b) ∙ sym (append_assoc f (chunks fs a) b)

length-chunks : (fs : List Bytes) (rest : Bytes) → length (chunks fs rest) ≡ size fs + length rest
length-chunks [] rest = omega arith
length-chunks (f ∷ fs) rest =
    omega (arith, length-append {0} f (chunks fs rest), length-chunks fs rest)

drop-chunks : (fs : List Bytes) (rest : Bytes) → drop (size fs) (chunks fs rest) ≡ rest
drop-chunks [] rest = refl
drop-chunks (f ∷ fs) rest =
    rw (← drop-drop (length f) (size fs) (chunks (f ∷ fs) rest), drop-append_length)
      (drop-chunks fs rest)

-- The slice of one piece, from the sizes of those before it.
pub slice-chunks :
    {E : Type 0} (fs : List Bytes) (f rest : Bytes) (a b : ℕ)
    → size fs ≡ a
    → length f ≡ b - a
    → a ≤ b
    → slice {E = E} (chunks fs (f ++ rest)) a b ≡ ok f
slice-chunks fs f rest a b h k l =
    let within : b ≤ length (chunks fs (f ++ rest)) =
      omega (arith, length-chunks fs (f ++ rest), length-append {0} f rest) in
    rw (slice-ok (chunks fs (f ++ rest)) a b within, ← h, drop-chunks, h, ← k)
      (ap ok (take-append_length f rest))
