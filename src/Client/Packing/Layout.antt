-- ===== src/Client/Packing/Layout.antt =====
-- The bytes that the local node packs.
use mathlib.Core.List.{append-nil}
use guillotine.Base.{
  pad_start, zeros-be_digits, ◌≤◌, ◌-◌, take-append-drop, length-take, length-drop, ℕ, zero, suc,
  ◌+◌, ◌*◌, ◌/◌, ◌%◌, ◌^◌, ◌<◌, ◌≡◌, refl, sym, ap, ◌∙◌, [], ◌∷◌, ◌++◌, Bytes, ok, append_assoc,
  length, take, drop, length-append, arith, to_be_bytes, length-to_be_bytes, be_digits,
  to_string_16, pad_start-hex_digits, zeros,
}
use guillotine.Client.Packing.{
  Hex, Value, number, digits, VoucherData, Toolkit, set_bytes, hex_of, pack_and_sign_voucher,
}
use guillotine.Client.Packing.Writes.{
  Sizes, write_numbers, write_commit, write_sender, write_recipient, write_nonce, write_signature,
}

-- The number that hexadecimal digits stand for, behind those that are read already.
abbrev pub hex_from : ℕ → Hex → ℕ
hex_from n [] = n
hex_from n (d ∷ t) = hex_from (n * 16 + d) t

abbrev pub AreDigits : Hex → Type 0
AreDigits [] = Unit
AreDigits (d ∷ t) = (d < 16) × AreDigits t

-- A value of 32 bits, and the number that is packed for it.
abbrev pub IsWord : Value → Type 0
IsWord (number n) = n < 2 ^ 32
IsWord (digits t) = (length t ≤ 8) × AreDigits t

abbrev pub word_of : Value → ℕ
word_of (number n) = n
word_of (digits t) = hex_from 0 t

be_digits-hex_from :
    (k n : ℕ) (t : Hex) → AreDigits t → be_digits (k + length t) (hex_from n t) ≡ be_digits k n ++ t
unfolding be_digits
be_digits-hex_from k n [] h =
    let same : k + 0 ≡ k = omega arith in rw same (sym (append-nil (be_digits k n)))
be_digits-hex_from k n (d ∷ t) h =
    let longer : k + suc (length t) ≡ suc k + length t = omega arith in
    let quotient : (n * 16 + d) / 16 ≡ n = omega (arith, h.0) in
    let digit : (n * 16 + d) % 16 ≡ d = omega (arith, h.0) in
    let last : be_digits (suc k) (n * 16 + d) ++ t ≡ be_digits k n ++ d ∷ t =
      rw (quotient, digit) (append_assoc (be_digits k n) (d ∷ []) t) in
    ap (λ m. be_digits m (hex_from (n * 16 + d) t)) longer
    ∙ be_digits-hex_from (suc k) (n * 16 + d) t h.1
    ∙ last

-- A value of 32 bits is written as 8 digits.
hex_of-be_digits : (v : Value) → IsWord v → hex_of v ≡ be_digits 8 (word_of v)
unfolding hex_of to_string_16 pad_start
hex_of-be_digits (number n) h =
    pad_start-hex_digits 14 8 n (omega arith) (omega arith) (omega arith)
hex_of-be_digits (digits t) h =
    let whole : (8 - length t) + length t ≡ 8 = omega (arith, h.0) in
    sym (
      ap (λ k. be_digits k (hex_from 0 t)) (sym whole)
      ∙ be_digits-hex_from (8 - length t) 0 t h.1
      ∙ ap (λ z. z ++ t) (zeros-be_digits (8 - length t)))

module _ (T : Toolkit) where
  hex_to_u8a-be_digits :
      (k n : ℕ) (rest : Hex)
      → T.hex_to_u8a (be_digits (k * 2) n ++ rest) ≡ to_be_bytes k n ++ T.hex_to_u8a rest
  unfolding be_digits to_be_bytes
  hex_to_u8a-be_digits zero n rest = refl
  hex_to_u8a-be_digits (suc k) n rest =
      let twice : suc k * 2 ≡ suc (suc (k * 2)) = omega arith in
      let byte : 16 * (n / 16 % 16) + n % 16 ≡ n % 256 = omega arith in
      let quotient : n / 16 / 16 ≡ n / 256 = omega arith in
      let digits = be_digits (k * 2) (n / 256) in
      let bytes = to_be_bytes k (n / 256) in
      rw (
        twice,
        quotient,
        append_assoc (digits ++ (n / 16 % 16) ∷ []) ((n % 16) ∷ []) rest,
        append_assoc digits ((n / 16 % 16) ∷ []) ((n % 16) ∷ rest),
        append_assoc bytes ((n % 256) ∷ []) (T.hex_to_u8a rest),
        hex_to_u8a-be_digits k (n / 256) ((n / 16 % 16) ∷ (n % 16) ∷ rest),
        T.hex_to_u8a-cons,
        byte,
      )

-- Values of 32 bits, keys, hashes and a nonce of 32 bytes.
pub record IsPackable (T : Toolkit) (d : VoucherData) : Type 0 where
  pub oracle_block : d.oracle_block < 2 ^ 32
  pub difficulty : d.difficulty < 2 ^ 32
  pub no_redeem_before_block : IsWord d.no_redeem_before_block
  pub value_if_paid : d.value_if_paid < 2 ^ 32
  pub commit : length (T.hex_to_u8a d.price_list_commit) ≡ 32
  pub sender : length (T.hex_to_u8a d.sender_pub_key) ≡ 32
  pub recipient : length (T.hex_to_u8a d.recipient_pub_key) ≡ 32
  pub nonce : length (T.hex_to_u8a d.nonce) ≡ 32

module _ (T : Toolkit) (d : VoucherData) where
  abbrev pub numbers : Bytes
  numbers =
      to_be_bytes 4 d.oracle_block
      ++ (to_be_bytes 4 d.difficulty
          ++ (to_be_bytes 4 (word_of d.no_redeem_before_block)
              ++ (to_be_bytes 4 d.value_if_paid ++ [])))

  -- A packed voucher: big-endian numbers, the first 16 bytes of the commitment, the other fields,
  -- and what stands in the place of the signature.
  abbrev pub packed : Bytes → Bytes
  packed tail =
      numbers
      ++ (take 16 (T.hex_to_u8a d.price_list_commit)
          ++ (T.hex_to_u8a d.sender_pub_key
              ++ (T.hex_to_u8a d.recipient_pub_key ++ (T.hex_to_u8a d.nonce ++ tail))))

  hex_to_u8a-numbers :
      IsPackable T d
      → T.hex_to_u8a (
          hex_of (number d.oracle_block)
          ++ (hex_of (number d.difficulty)
              ++ (hex_of d.no_redeem_before_block ++ (hex_of (number d.value_if_paid) ++ []))))
        ≡ numbers
  hex_to_u8a-numbers p = rw (
    hex_of-be_digits (number d.oracle_block) p.oracle_block,
    hex_of-be_digits (number d.difficulty) p.difficulty,
    hex_of-be_digits d.no_redeem_before_block p.no_redeem_before_block,
    hex_of-be_digits (number d.value_if_paid) p.value_if_paid,
    hex_to_u8a-be_digits T 4 d.oracle_block,
    hex_to_u8a-be_digits T 4 d.difficulty,
    hex_to_u8a-be_digits T 4 (word_of d.no_redeem_before_block),
    hex_to_u8a-be_digits T 4 d.value_if_paid,
    T.hex_to_u8a-nil,
  )

  length-numbers : length numbers ≡ 16
  length-numbers = omega (arith, length-append {0} {A = ℕ}, length-to_be_bytes)

  pub length-packed : (tail : Bytes) → IsPackable T d → length (packed tail) ≡ 128 + length tail
  length-packed tail p =
      let commit = T.hex_to_u8a d.price_list_commit in
      let s = T.hex_to_u8a d.sender_pub_key in
      let r = T.hex_to_u8a d.recipient_pub_key in
      let n = T.hex_to_u8a d.nonce in
      omega (
        arith,
        length-numbers,
        length-take {0} 16 commit,
        length-append {0} numbers (take 16 commit ++ (s ++ (r ++ (n ++ tail)))),
        length-append {0} (take 16 commit) (s ++ (r ++ (n ++ tail))),
        length-append {0} s (r ++ (n ++ tail)),
        length-append {0} r (n ++ tail),
        length-append {0} n tail,
        p.commit,
      )

  -- What is signed: all 192 bytes, the last 64 of them zeros.
  abbrev pub message : Bytes
  message = packed (zeros 64)

  pub pack_and_sign_voucher-packed :
      IsPackable T d
      → length (T.sign message) ≡ 64
      → pack_and_sign_voucher T d "sr25519" ≡ ok (packed (T.sign message))
  unfolding pack_and_sign_voucher
  pack_and_sign_voucher-packed p h =
      let commit = T.hex_to_u8a d.price_list_commit in
      let kept = take 16 commit in
      let cut = drop 16 commit in
      let s = T.hex_to_u8a d.sender_pub_key in
      let r = T.hex_to_u8a d.recipient_pub_key in
      let n = T.hex_to_u8a d.nonce in
      let z : Sizes numbers kept cut s r n = record {
        nums_16 = length-numbers;
        kept_16 = omega (arith, length-take {0} 16 commit, p.commit);
        cut_16 = omega (arith, length-drop {0} 16 commit, p.commit);
        s_32 = p.sender;
        r_32 = p.recipient;
        n_32 = p.nonce;
      } in
      let commit_written =
        ap (λ c. set_bytes (numbers ++ zeros 176) c 16) (sym (take-append-drop 16 commit))
        ∙ write_commit z in
      rw (
        hex_to_u8a-numbers p,
        write_numbers z,
        commit_written,
        write_sender z,
        write_recipient z,
        write_nonce z,
        write_signature z (T.sign message) h,
      )
