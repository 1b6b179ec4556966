-- ===== src/Client/Packing/Writes.antt =====
-- The writes of `packAndSignVoucher`, piece by piece.
use mathlib.Core.List.{append-nil}
use guillotine.Base.{
  ℕ, ◌+◌, ◌≤◌, ◌≡◌, refl, sym, ap, ◌∙◌, [], ◌++◌, Bytes, ok, append_assoc, length, take, drop,
  length-append, take-append_length, drop-append_length, drop-drop, le→leb, arith, zeros,
}
use guillotine.Client.Packing.{set_bytes}

-- A write that replaces one piece by another of its length.
set_bytes-piece :
    (target before old new after : Bytes) (offset : ℕ)
    → target ≡ before ++ (old ++ after)
    → length before ≡ offset
    → length old ≡ length new
    → set_bytes target new offset ≡ ok (before ++ (new ++ after))
unfolding set_bytes
set_bytes-piece target before old new after offset e h k =
    let whole : length target ≡ length before + (length old + length after) =
      ap length e
      ∙ omega (arith, length-append {0} before (old ++ after), length-append {0} old after) in
    let fits : offset + length new ≤ length target = omega arith in
    let head : take offset target ≡ before =
      rw (e, ← h) (take-append_length before (old ++ after)) in
    let tail : drop (offset + length new) target ≡ after =
      rw
        (
          e,
          ← h,
          ← k,
          ← drop-drop (length before) (length old) (before ++ (old ++ after)),
          drop-append_length before (old ++ after),
        )
        (drop-append_length old after) in
    rw (le→leb _ _ fits, head, tail)

-- The writes before the signature, over pieces; the commitment is of two halves, and the second is
-- written over.
pub record Sizes (nums kept cut s r n : Bytes) : Type 0 where
  pub nums_16 : length nums ≡ 16
  pub kept_16 : length kept ≡ 16
  pub cut_16 : length cut ≡ 16
  pub s_32 : length s ≡ 32
  pub r_32 : length r ≡ 32
  pub n_32 : length n ≡ 32

module _ {nums kept cut s r n : Bytes} (z : Sizes nums kept cut s r n) where
  pub write_numbers : set_bytes (zeros 192) nums 0 ≡ ok (nums ++ zeros 176)
  write_numbers =
      set_bytes-piece (zeros 192) [] (zeros 16) nums (zeros 176) 0 refl refl (sym z.nums_16)

  pub write_commit :
      set_bytes (nums ++ zeros 176) (kept ++ cut) 16 ≡ ok (nums ++ (kept ++ (cut ++ zeros 144)))
  write_commit =
      set_bytes-piece (nums ++ zeros 176) nums (zeros 32) (kept ++ cut) (zeros 144) 16 refl
        z.nums_16 (omega (arith, length-append {0} kept cut))
      ∙ ap (λ t. ok (nums ++ t)) (append_assoc kept cut (zeros 144))

  pub write_sender :
      set_bytes (nums ++ (kept ++ (cut ++ zeros 144))) s 32
      ≡ ok (nums ++ (kept ++ (s ++ zeros 128)))
  write_sender =
      set_bytes-piece _ (nums ++ kept) (cut ++ zeros 16) s (zeros 128) 32 (simp append_assoc)
        (omega (arith, length-append {0} nums kept))
        (omega (arith, length-append {0} cut (zeros 16)))
      ∙ ap ok (append_assoc nums kept (s ++ zeros 128))

  pub write_recipient :
      set_bytes (nums ++ (kept ++ (s ++ zeros 128))) r 64
      ≡ ok (nums ++ (kept ++ (s ++ (r ++ zeros 96))))
  write_recipient =
      set_bytes-piece _ (nums ++ (kept ++ s)) (zeros 32) r (zeros 96) 64 (simp append_assoc)
        (omega (arith, length-append {0} nums (kept ++ s), length-append {0} kept s)) (sym z.r_32)
      ∙ ap ok (simp append_assoc)

  pub write_nonce :
      set_bytes (nums ++ (kept ++ (s ++ (r ++ zeros 96)))) n 96
      ≡ ok (nums ++ (kept ++ (s ++ (r ++ (n ++ zeros 64)))))
  write_nonce =
      set_bytes-piece _ (nums ++ (kept ++ (s ++ r))) (zeros 32) n (zeros 64) 96 (simp append_assoc)
        (omega (
          arith,
          length-append {0} nums (kept ++ (s ++ r)),
          length-append {0} kept (s ++ r),
          length-append {0} s r,
        ))
        (sym z.n_32)
      ∙ ap ok (simp append_assoc)

  pub write_signature :
      (sig : Bytes)
      → length sig ≡ 64
      → set_bytes (nums ++ (kept ++ (s ++ (r ++ (n ++ zeros 64))))) sig 128
        ≡ ok (nums ++ (kept ++ (s ++ (r ++ (n ++ sig)))))
  write_signature sig h =
      set_bytes-piece _ (nums ++ (kept ++ (s ++ (r ++ n)))) (zeros 64) sig [] 128
        (simp (append_assoc, append-nil))
        (omega (
          arith,
          length-append {0} nums (kept ++ (s ++ (r ++ n))),
          length-append {0} kept (s ++ (r ++ n)),
          length-append {0} s (r ++ n),
          length-append {0} r n,
        ))
        (sym h)
      ∙ ap ok (simp (append_assoc, append-nil))
