-- ===== src/Base/Hex.antt =====
-- Hexadecimal digits, most significant first, and big-endian words.
use Prim.Native.Nat.{ℕ, zero, suc, ◌+◌, ◌-◌, ◌*◌, ◌/◌, ◌%◌, ◌^◌, ◌≤◌, ◌<◌}
use mathlib.Core.Path.{◌≡◌, refl, sym, ap}
use mathlib.Core.Logic.{inl, inr}
use mathlib.Core.List.{List, [], ◌∷◌, ◌++◌, append_assoc}
use native.Mathlib.Omega.{arith}
use native.Mathlib.Nat.{pow-suc}
use guillotine.Base.Tests.{◌==◌, if◌then◌else◌, Bool-cases}
use guillotine.Base.Lists.{length, take, drop, length-append}
use guillotine.Base.Words.{Bytes, from_le_bytes, to_le_bytes}

-- The digits of `n.toString(16)`, as long as there is fuel.
unfoldable pub hex_digits : ℕ → ℕ → List ℕ
hex_digits zero n = []
hex_digits (suc fuel) n =
    let rest = hex_digits fuel (n / 16) in if n / 16 == 0 then n ∷ [] else rest ++ (n % 16) ∷ []

-- `n.toString(16)`: a safe integer of JavaScript is below 2 ^ 53, so it has at most 14 digits.
unfoldable pub to_string_16 : ℕ → List ℕ
unfolding hex_digits
to_string_16 n = hex_digits 14 n

-- So many zeros.
abbrev pub zeros : ℕ → List ℕ
zeros zero = []
zeros (suc n) = 0 ∷ zeros n

-- `s.padStart(n, '0')`
unfoldable pub pad_start : ℕ → List ℕ → List ℕ
pad_start n s = zeros (n - length s) ++ s

-- The lowest `k` digits.
unfoldable pub be_digits : ℕ → ℕ → List ℕ
be_digits zero n = []
be_digits (suc k) n = be_digits k (n / 16) ++ (n % 16) ∷ []

unfoldable pub to_be_bytes : ℕ → ℕ → Bytes
to_be_bytes zero n = []
to_be_bytes (suc k) n = to_be_bytes k (n / 256) ++ (n % 256) ∷ []

zeros-snoc : (k : ℕ) → zeros k ++ 0 ∷ [] ≡ zeros (suc k)
zeros-snoc zero = refl
zeros-snoc (suc k) = ap (λ s. 0 ∷ s) (zeros-snoc k)

pub zeros-be_digits : (k : ℕ) → be_digits k 0 ≡ zeros k
unfolding be_digits
zeros-be_digits zero = refl
zeros-be_digits (suc k) = rw (zeros-be_digits k) (zeros-snoc k)

pad_start-snoc : (k d : ℕ) (s : List ℕ) → pad_start (suc k) (s ++ d ∷ []) ≡ pad_start k s ++ d ∷ []
unfolding pad_start
pad_start-snoc k d s =
    let shorter : suc k - length (s ++ d ∷ []) ≡ k - length s =
      omega (arith, length-append {0} s (d ∷ [])) in
    rw shorter (sym (append_assoc (zeros (k - length s)) s (d ∷ [])))

one_digit : (k n : ℕ) → pad_start (suc k) (n ∷ []) ≡ zeros k ++ n ∷ []
unfolding pad_start
one_digit k n = let same : suc k - 1 ≡ k = omega arith in rw same

positive : (k n : ℕ) → 0 < n → n < 16 ^ k → 0 < k
positive zero n h lt = absurd (omega arith)
positive (suc k) n h lt = omega arith

-- A number below 16 ^ k, padded to k digits, has its lowest k digits.
pub pad_start-hex_digits :
    (fuel k n : ℕ) → 0 < k → k ≤ fuel → n < 16 ^ k → pad_start k (hex_digits fuel n) ≡ be_digits k n
unfolding hex_digits be_digits
pad_start-hex_digits fuel zero n pos le lt = absurd (omega arith)
pad_start-hex_digits zero (suc k) n pos le lt = absurd (omega arith)
pad_start-hex_digits (suc fuel) (suc k) n pos le lt = elim (Bool-cases (n / 16 == 0)) [
  | inl done ↦
      let none_left : n / 16 ≡ 0 = ground arith in
      let digit : n % 16 ≡ n = omega arith in
      rw (done, none_left, digit, zeros-be_digits k) (one_digit k n)
  | inr more ↦
      let some_left : 16 ≤ n = ground arith in
      let room : n / 16 < 16 ^ k = omega (arith, pow-suc 16 k) in
      rw (more, pad_start-snoc k (n % 16) (hex_digits fuel (n / 16)))
        (ap (λ s. s ++ (n % 16) ∷ [])
          (pad_start-hex_digits fuel k (n / 16) (positive k (n / 16) (omega arith) room)
            (omega arith) room))
]

-- `to_be_bytes` writes the bytes of `to_le_bytes` backwards, each below 256.
pub length-to_be_bytes : (k n : ℕ) → length (to_be_bytes k n) ≡ k
unfolding to_be_bytes
length-to_be_bytes zero n = refl
length-to_be_bytes (suc k) n = omega (
  arith,
  length-append {0} (to_be_bytes k (n / 256)) ((n % 256) ∷ []),
  length-to_be_bytes k (n / 256),
)

abbrev pub AreBytes : Bytes → Type 0
AreBytes [] = Unit
AreBytes (b ∷ bs) = (b < 256) × AreBytes bs

pub AreBytes-append : (xs ys : Bytes) → AreBytes xs → AreBytes ys → AreBytes (xs ++ ys)
AreBytes-append [] ys h k = k
AreBytes-append (x ∷ xs) ys h k = (h.0, AreBytes-append xs ys h.1 k)

pub to_be_bytes-AreBytes : (k n : ℕ) → AreBytes (to_be_bytes k n)
unfolding to_be_bytes
to_be_bytes-AreBytes zero n = tt
to_be_bytes-AreBytes (suc k) n =
    AreBytes-append (to_be_bytes k (n / 256)) _ (to_be_bytes-AreBytes k (n / 256)) (omega arith, tt)

-- Bytes are the little-endian word that they stand for.
pub to_le_bytes-from_le_bytes :
    (bs : Bytes) → AreBytes bs → to_le_bytes (length bs) (from_le_bytes bs) ≡ bs
unfolding to_le_bytes from_le_bytes
to_le_bytes-from_le_bytes [] h = refl
to_le_bytes-from_le_bytes (b ∷ bs) h =
    let rest = from_le_bytes bs in
    let low : (b + 256 * rest) % 256 ≡ b = omega (arith, h.0) in
    let high : (b + 256 * rest) / 256 ≡ rest = omega (arith, h.0) in
    rw (low, high, to_le_bytes-from_le_bytes bs h.1)

pub to_le_bytes-from_le_bytes_of :
    (k : ℕ) (bs : Bytes) → length bs ≡ k → AreBytes bs → to_le_bytes k (from_le_bytes bs) ≡ bs
to_le_bytes-from_le_bytes_of k bs e h = rw (← e) (to_le_bytes-from_le_bytes bs h)

pub from_le_bytes-lt : (bs : Bytes) → AreBytes bs → from_le_bytes bs < 256 ^ length bs
unfolding from_le_bytes
from_le_bytes-lt [] h = omega arith
from_le_bytes-lt (b ∷ bs) h = omega (arith, h.0, from_le_bytes-lt bs h.1, pow-suc 256 (length bs))

pub from_le_bytes-lt_of :
    (k : ℕ) (bs : Bytes) → length bs ≡ k → AreBytes bs → from_le_bytes bs < 256 ^ k
from_le_bytes-lt_of k bs e h = rw (← e) (from_le_bytes-lt bs h)

pub AreBytes-take : (n : ℕ) (bs : Bytes) → AreBytes bs → AreBytes (take n bs)
AreBytes-take zero bs h = tt
AreBytes-take (suc n) [] h = tt
AreBytes-take (suc n) (b ∷ bs) h = (h.0, AreBytes-take n bs h.1)

pub AreBytes-drop : (n : ℕ) (bs : Bytes) → AreBytes bs → AreBytes (drop n bs)
AreBytes-drop zero bs h = h
AreBytes-drop (suc n) [] h = tt
AreBytes-drop (suc n) (b ∷ bs) h = AreBytes-drop n bs h.1
