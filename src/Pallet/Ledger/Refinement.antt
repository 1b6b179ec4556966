-- ===== src/Pallet/Ledger/Refinement.antt =====
-- The pallet implements the ledger: its window of 1024 blocks is all that a payment needs.
use guillotine.Base.{
  ℕ, suc, ◌+◌, ◌≤◌, ◌<◌, ◌≡◌, ◌↔◌, refl, sym, ap, ◌∙◌, inl, inr, List, [], ◌∷◌, ◌++◌, Bytes, Result,
  ok, err, panic, Result-cases, take, arith, lt→ltb,
}
use mathlib.Core.List.{append-nil}
use guillotine.Pallet.Config.{Config, IsLawful, State, DispatchError, epoch_length}
use guillotine.Pallet.Voucher.{Voucher}
use guillotine.Pallet.History.{topic, on_initialize}
use guillotine.Pallet.History.Window.{get-on_initialize}
use guillotine.Pallet.Claim.{claim, check_claim}
use guillotine.Pallet.Claim.Rules.{IsAdmissible}
use guillotine.Pallet.Claim.Cases.{check_claim-IsAdmissible, wins-lawful}
use guillotine.Pallet.Claim.Outcome.{Redeems, claim-ok, claim-eq_ok}
use guillotine.Pallet.Claim.Frame.{claim-keeps}
use guillotine.Pallet.Chain.{Chain, genesis, block, call, elsewhere}
use guillotine.Pallet.Chain.Reach.{IsValid, Chain-IsValid, Chain-IsSized, window_entry}
use guillotine.Pallet.Ledger.{
  Ledger, empty, IsPayable, opened, settled, opens, pays, Run, start, next,
}

module _ (C : Config) where
  -- What a claim pays out, by the tests that it passes.
  abbrev pub award : Result DispatchError (C.AccountId × Voucher C) → List (ℕ × C.AccountId)
  award (ok (who, v)) = (v.value_if_paid, who) ∷ []
  award (err e) = []
  award panic = []

  -- The payments over the life of a chain, in their order.
  pub payments : {n : ℕ} {s : State C} → Chain C n s → List (ℕ × C.AccountId)
  payments (genesis _ _ _) = []
  payments (block _ r _ _ _) = payments r
  payments (call {s = s} origin voucher r _) = payments r ++ award (check_claim C origin voucher s)
  payments (elsewhere _ r _ _) = payments r

  -- A state of block `n` represents a ledger: it knows the draws of the last epoch.
  pub record Represents (n : ℕ) (s : State C) (l : Ledger C) : Type 0 where
    pub valid : IsValid C n s
    pub now : l.now ≡ n
    pub recent :
        (b : ℕ) → 0 < b → b ≤ n → n < b + epoch_length → C.history.get s.history b ≡ l.drawn b

module _ (C : Config) (L : IsLawful C) where
  Represents-genesis : {n : ℕ} {s : State C} → n ≡ 0 → IsValid C n s → Represents C n s (empty C)
  Represents-genesis e v = record {
    valid = v;
    now = sym e;
    recent = λ b p q h. absurd (omega arith);
  }

  Represents-block :
      {n m : ℕ} {s t : State C} {l : Ledger C} (system : C.SystemState)
      → m ≡ suc n
      → t ≡ (on_initialize C m (record s { system = system })).1
      → IsValid C m t
      → Represents C n s l
      → Represents C m t (opened C l (C.random system (topic m)))
  Represents-block {n} {m} {s} {t} {l} system e q v rep = record {
    valid = v;
    now = omega arith;
    recent = λ b pos le lt.
        ap (λ x. C.history.get x.history b) q
        ∙ get-on_initialize C m (record s { system = system }) b
        ∙ ground (arith, rep.recent b);
  }

  -- A step that keeps the history and adds at most a payment.
  Represents-kept :
      {n : ℕ} {s t : State C} {l m : Ledger C}
      → t.history ≡ s.history
      → m.now ≡ l.now
      → m.drawn ≡ l.drawn
      → IsValid C n t
      → Represents C n s l
      → Represents C n t m
  Represents-kept e f g v rep = record {
    valid = v;
    now = f ∙ rep.now;
    recent = λ b pos le lt.
        ap (λ h. C.history.get h b) e ∙ rep.recent b pos le lt ∙ sym (ap (λ d. d b) g);
  }

  module _ (origin : C.Origin) (voucher : Bytes) {n : ℕ} {s : State C} {l : Ledger C}
      (r : Chain C n s) (rep : Represents C n s l) where
    Redeems-IsPayable :
        Redeems C origin voucher s (claim C origin voucher s)
        → (who : C.AccountId) × (v : Voucher C) × (rand : Bytes) × IsPayable C origin voucher l who
            v rand
          × (check_claim C origin voucher s ≡ ok (who, v))
    Redeems-IsPayable (who, v, rand, a, staked, won, _) =
        let (pos, past, fresh, _) = window_entry C rep.valid.window v.oracle_block a.drawn in
        (
          who,
          v,
          rand,
          record {
            signed = a.signed;
            parsed = a.parsed;
            addressed = a.addressed;
            genuine = a.genuine;
            in_window = omega (arith, pos, past, fresh, a.due, rep.now, rep.valid.clock);
            drawn = sym (rep.recent v.oracle_block pos past fresh) ∙ a.drawn;
            staked = staked;
            won = won;
          },
          rw (
            check_claim-IsAdmissible C L origin voucher s (Chain-IsSized C L r) a,
            wins-lawful C L (take 128 voucher ++ rand) v.difficulty staked,
            lt→ltb _ _ won,
          ),
        )

    IsPayable-IsAdmissible :
        {who : C.AccountId} {v : Voucher C} {rand : Bytes}
        → IsPayable C origin voucher l who v rand
        → IsAdmissible C origin voucher s who v rand
    IsPayable-IsAdmissible {who} {v} p =
        let (pos, past, fresh, due) = p.in_window in
        record {
          signed = p.signed;
          parsed = p.parsed;
          addressed = p.addressed;
          due = omega (arith, due, rep.now, rep.valid.clock);
          genuine = p.genuine;
          drawn =
              rep.recent v.oracle_block pos (omega (arith, rep.now)) (omega (arith, rep.now))
              ∙ p.drawn;
        }

    -- In a reachable state that represents a ledger, a claim succeeds exactly if the ledger may
    -- pay it: the voucher is readable, for the caller, signed, in its window, of positive
    -- difficulty, and its ticket for the draw of its oracle block wins.
    pub claim-IsPayable_iff : ((claim C origin voucher s).0 ≡ ok tt) ↔ (
        (who : C.AccountId) × (v : Voucher C) × (rand : Bytes) × IsPayable C origin voucher l who v
          rand)
    claim-IsPayable_iff =
        let sized = Chain-IsSized C L r in
        (
          λ h.
              let (who, v, rand, p, _) =
                Redeems-IsPayable (claim-eq_ok C origin voucher s L sized h) in
              (who, v, rand, p),
          λ (who, v, rand, p).
              ap (λ x. x.0)
                (claim-ok C origin voucher s L sized (IsPayable-IsAdmissible p) p.staked p.won),
        )

  -- A chain's ledger.
  abbrev pub Implements : {n : ℕ} {s : State C} → Chain C n s → Type 0
  Implements {n} {s} r = (l : Ledger C) × Run C l × Represents C n s l × (l.paid ≡ payments C r)

  call-Implements :
      {n : ℕ} {s t : State C} (origin : C.Origin) (voucher : Bytes) (r : Chain C n s)
      (e : t ≡ (claim C origin voucher s).1)
      → Implements r
      → Implements (call origin voucher r e)
  unfolding claim payments
  call-Implements {n} {s} {t} origin voucher r e (l, run, rep, paid) =
      let kept = ap (λ x. x.history) e ∙ (claim-keeps C L origin voucher s).0 in
      let v = Chain-IsValid C L (call origin voucher r e) in
      elim (Result-cases (check_claim C origin voucher s)) [
        | inl (_, h) ↦
            let done : (claim C origin voucher s).0 ≡ ok tt = rw (h, claim) refl in
            let (who, v', rand, p, c) =
              Redeems-IsPayable origin voucher r rep
                (claim-eq_ok C origin voucher s L (Chain-IsSized C L r) done) in
            (
              settled C l who v',
              next run (pays origin voucher who v' rand p refl),
              Represents-kept kept refl refl v rep,
              rw c (ap (λ x. x ++ (v'.value_if_paid, who) ∷ []) paid),
            )
        | inr (inl (_, h)) ↦
            (l, run, Represents-kept kept refl refl v rep, rw h (paid ∙ sym (append-nil _)))
        | inr (inr h) ↦
            (l, run, Represents-kept kept refl refl v rep, rw h (paid ∙ sym (append-nil _)))
      ]

  -- Every chain of blocks, claims and steps of other pallets implements the abstract ledger,
  -- which keeps every draw for ever: a run of the ledger pays out what the claims that passed all
  -- tests pay out, in their order, and the state represents its end.
  pub Chain-Implements : {n : ℕ} {s : State C} (r : Chain C n s) → Implements r
  unfolding payments
  Chain-Implements (genesis e c h) =
      (empty C, start refl, Represents-genesis e (Chain-IsValid C L (genesis e c h)), refl)
  Chain-Implements (block {n} {m} {s} {t} system r e c q) =
      let (l, run, rep, paid) = Chain-Implements r in
      let rand = C.random system (topic m) in
      (
        opened C l rand,
        next run (opens rand (L.length-random _ _) refl),
        Represents-block system e q (Chain-IsValid C L (block system r e c q)) rep,
        paid,
      )
  Chain-Implements (call origin voucher r e) =
      call-Implements origin voucher r e (Chain-Implements r)
  Chain-Implements (elsewhere system r c e) =
      let (l, run, rep, paid) = Chain-Implements r in
      let v = Chain-IsValid C L (elsewhere system r c e) in
      (l, run, Represents-kept (ap (λ x. x.history) e) refl refl v rep, paid)
