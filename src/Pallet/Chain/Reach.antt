-- ===== src/Pallet/Chain/Reach.antt =====
-- The invariant of every reachable state, and when vouchers can be redeemed there.
use guillotine.Base.{
  ℕ, suc, ◌+◌, ◌≤◌, ◌<◌, ◌≡◌, refl, sym, ap, ◌∙◌, none, some, Bytes, length, arith, some_inj,
  some_ne_none,
}
use native.Mathlib.Decide.{dec_lt}
use guillotine.Pallet.Config.{Config, IsLawful, State, epoch_length}
use guillotine.Pallet.History.{on_initialize}
use guillotine.Pallet.History.Window.{IsWindow, on_initialize-IsWindow}
use guillotine.Pallet.Claim.Rules.{IsSized}
use guillotine.Pallet.Claim.Frame.{claim-keeps}
use guillotine.Pallet.Chain.{Chain, genesis, block, call, elsewhere}

-- The history is the window of the current block.
pub record IsValid (C : Config) (n : ℕ) (s : State C) : Type 0 where
  pub window : IsWindow C n s
  pub clock : C.block_number s.system ≡ n

module _ (C : Config) where
  IsWindow-of_history :
      (n : ℕ) (s t : State C) → t.history ≡ s.history → IsWindow C n s → IsWindow C n t
  IsWindow-of_history n s t e w = record {
    recent = λ b p q r. rw e (w.recent b p q r);
    expired = λ b p. rw e (w.expired b p);
    genesis = rw e w.genesis;
    future = λ b p. rw e (w.future b p);
  }

  empty-IsWindow :
      (n : ℕ) (s : State C) → n ≡ 0 → ((b : ℕ) → C.history.get s.history b ≡ none) → IsWindow C n s
  empty-IsWindow n s e h = record {
    recent = λ b p q r. absurd (omega arith);
    expired = λ b p. h b;
    genesis = h 0;
    future = λ b p. h b;
  }

  -- An entry that is there belongs to a block of the last epoch, and has 32 bytes.
  pub window_entry :
      {n : ℕ} {s : State C}
      → IsWindow C n s
      → (b : ℕ) {rand : Bytes} → C.history.get s.history b ≡ some rand
      → (0 < b) × (b ≤ n) × (n < b + epoch_length) × (length rand ≡ 32)
  window_entry {n} w b e = elim (dec_lt 0 b) [
    | no p ↦ let zero : b ≡ 0 = omega arith in absurd (some_ne_none (sym e ∙ rw zero w.genesis))
    | yes pos ↦ elim (dec_lt n b) [
      | yes p ↦ absurd (some_ne_none (sym e ∙ w.future b p))
      | no p ↦ elim (dec_lt n (b + epoch_length)) [
        | no q ↦ absurd (some_ne_none (sym e ∙ w.expired b (omega arith)))
        | yes q ↦
            let (rand, found, size) = w.recent b pos (omega arith) q in
            (pos, omega arith, q, rw (some_inj (sym e ∙ found)) size)
      ]
    ]
  ]

  on_initialize-system : (n : ℕ) (s : State C) → (on_initialize C n s).1.system ≡ s.system
  unfolding on_initialize
  on_initialize-system n s = refl

module _ (C : Config) (L : IsLawful C) where
  next-IsWindow :
      (n m : ℕ) (s : State C) → m ≡ suc n → IsWindow C n s → IsWindow C m (on_initialize C m s).1
  next-IsWindow n m s e w =
      let next : m ≡ n + 1 = omega arith in rw next (on_initialize-IsWindow C L n s w)

  -- In every state reached by initialising blocks one after the other, with claims and steps of
  -- other pallets in between, the history holds exactly the entries of the last 1024 blocks, each
  -- of 32 bytes, and the block number is that of the block.
  pub Chain-IsValid : {n : ℕ} {s : State C} → Chain C n s → IsValid C n s
  Chain-IsValid (genesis {n} {s} e c h) = record {
    window = empty-IsWindow C n s e h;
    clock = c ∙ sym e;
  }
  Chain-IsValid (block {n} {m} {s} {t} system r e c q) =
      let begun = record s { system = system } in
      let w = IsWindow-of_history C n s begun refl (Chain-IsValid r).window in
      record {
        window = rw q (next-IsWindow n m begun e w);
        clock =
            ap (λ x. C.block_number x.system) q
            ∙ ap C.block_number (on_initialize-system C m begun)
            ∙ c;
      }
  Chain-IsValid (call {n} {s} {t} origin voucher r e) =
      let v = Chain-IsValid r in
      let kept = claim-keeps C L origin voucher s in
      record {
        window = IsWindow-of_history C n s t (ap (λ x. x.history) e ∙ kept.0) v.window;
        clock = ap (λ x. C.block_number x.system) e ∙ kept.1 ∙ v.clock;
      }
  Chain-IsValid (elsewhere {n} {s} {t} system r c e) =
      let v = Chain-IsValid r in
      record {
        window = IsWindow-of_history C n s t (ap (λ x. x.history) e) v.window;
        clock = ap (λ x. C.block_number x.system) e ∙ c;
      }

  pub Chain-IsSized : {n : ℕ} {s : State C} → Chain C n s → IsSized C s
  Chain-IsSized r b rand e = (window_entry C (Chain-IsValid r).window b e).3
