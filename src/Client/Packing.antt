-- ===== src/Client/Packing.antt =====
-- How the local node writes and signs a voucher
-- (guillotine-local-node/express/src/helpers/packAndSignVoucher.js).
pub mod Writes
pub mod Layout
pub mod Refused
pub mod Signs
use Prim.Native.String.{String}
use text.Mathlib.Text.{◌==◌}
use guillotine.Base.{
  ℕ, ◌+◌, ◌*◌, ◌≡◌, List, [], ◌∷◌, ◌++◌, not, Bytes, Result, ok, err, ◌>>=◌, ◌>>◌, ensure, length,
  take, drop, leb, if◌then◌else◌, to_string_16, pad_start, zeros,
}

-- A text of hexadecimal digits, without its prefix.
abbrev pub Hex : Type 0
Hex = List ℕ

-- A number, or a text of digits.
pub data Value : Type 0 where
  number : ℕ → Value
  digits : Hex → Value

pub record VoucherData : Type 0 where
  pub oracle_block : ℕ
  pub difficulty : ℕ
  pub no_redeem_before_block : Value
  pub value_if_paid : ℕ
  pub price_list_commit : Hex
  pub sender_pub_key : Hex
  pub recipient_pub_key : Hex
  pub nonce : Hex

-- `hexToU8a` of @polkadot/util, and `sign` of the key pair. Two digits make a byte.
pub record Toolkit : Type 0 where
  pub hex_to_u8a : Hex → Bytes
  pub sign : Bytes → Bytes
  pub hex_to_u8a-nil : hex_to_u8a [] ≡ []
  pub hex_to_u8a-cons :
      (high low : ℕ) (rest : Hex)
      → hex_to_u8a (high ∷ low ∷ rest) ≡ (16 * high + low) ∷ hex_to_u8a rest

-- `TypedArray.set(source, offset)`, which throws where the source does not fit.
unfoldable pub set_bytes : Bytes → Bytes → ℕ → Result String Bytes
set_bytes target source offset =
    if leb (offset + length source) (length target)
    then ok (take offset target ++ (source ++ drop (offset + length source) target))
    else err "RangeError"

-- `num.toString(16).padStart(8, '0')`, where a text is its own `toString`.
unfoldable pub hex_of : Value → Hex
hex_of (number n) = pad_start 8 (to_string_16 n)
hex_of (digits t) = pad_start 8 t

module _ (T : Toolkit) where
  unfoldable pub pack_and_sign_voucher : VoucherData → String → Result String Bytes
  pack_and_sign_voucher d scheme = do
    ensure (scheme == "sr25519") "Expected scheme to be sr25519"
    let numbers =
        hex_of (number d.oracle_block)
        ++ (hex_of (number d.difficulty)
            ++ (hex_of d.no_redeem_before_block ++ (hex_of (number d.value_if_paid) ++ [])))
    a ← set_bytes (zeros 192) (T.hex_to_u8a numbers) 0
    b ← set_bytes a (T.hex_to_u8a d.price_list_commit) 16
    c ← set_bytes b (T.hex_to_u8a d.sender_pub_key) 32
    e ← set_bytes c (T.hex_to_u8a d.recipient_pub_key) 64
    unsigned ← set_bytes e (T.hex_to_u8a d.nonce) 96
    let sig = T.sign unsigned
    set_bytes unsigned sig 128
