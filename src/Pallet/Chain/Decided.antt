-- ===== src/Pallet/Chain/Decided.antt =====
-- A draw does not change while it is kept, so the outcome of a voucher is fixed from its oracle
-- block on.
use guillotine.Base.{
  ℕ, suc, ◌+◌, ◌/◌, ◌≤◌, ◌<◌, ◌≡◌, ◌≢◌, sym, ap, ◌∙◌, ◌⊎◌, true, some, some_inj, Bytes, ok, ok_inj,
  err, take, arith,
}
use guillotine.Pallet.Config.{
  Config, IsLawful, State, epoch_length, u256_max, module_error, voucher_did_not_win,
}
use guillotine.Pallet.Voucher.{Voucher, parse}
use guillotine.Pallet.History.{on_initialize}
use guillotine.Pallet.History.Window.{get-on_initialize}
use guillotine.Pallet.Claim.{claim}
use guillotine.Pallet.Claim.Rules.{IsAdmissible, ticket}
use guillotine.Pallet.Claim.Frame.{claim-keeps}
use guillotine.Pallet.Claim.Outcome.{redeemed, claim-settled, claim-eq_ok}
use guillotine.Pallet.Claim.Complete.{claim-eq_lost}
use guillotine.Pallet.Chain.{Chain, block, call, elsewhere}
use guillotine.Pallet.Chain.Reach.{Chain-IsValid, Chain-IsSized, window_entry}

-- `Later n s m t`: the chain goes on from `s` in block `n` to `t` in block `m`.
pub data Later (C : Config) (n : ℕ) (s : State C) : ℕ → State C → Type 0 where
  now : {m : ℕ} {t : State C} → m ≡ n → t ≡ s → Later C n s m t
  then_block :
      {k m : ℕ} {t u : State C} (system : C.SystemState)
      → Later C n s k t
      → m ≡ suc k
      → C.block_number system ≡ m
      → u ≡ (on_initialize C m (record t { system = system })).1
      → Later C n s m u
  then_call :
      {m : ℕ} {t u : State C} (origin : C.Origin) (voucher : Bytes)
      → Later C n s m t
      → u ≡ (claim C origin voucher t).1
      → Later C n s m u
  then_elsewhere :
      {m : ℕ} {t u : State C} (system : C.SystemState)
      → Later C n s m t
      → C.block_number system ≡ m
      → u ≡ record t { system = system }
      → Later C n s m u

module _ (C : Config) {n : ℕ} {s : State C} where
  Later-le : {m : ℕ} {t : State C} → Later C n s m t → n ≤ m
  Later-le (now e q) = omega arith
  Later-le (then_block system l e c q) = omega (arith, Later-le l)
  Later-le (then_call origin voucher l q) = Later-le l
  Later-le (then_elsewhere system l c q) = Later-le l

  pub Later-Chain : Chain C n s → {m : ℕ} {t : State C} → Later C n s m t → Chain C m t
  Later-Chain r (now e q) = rw (e, q) r
  Later-Chain r (then_block system l e c q) = block system (Later-Chain r l) e c q
  Later-Chain r (then_call origin voucher l q) = call origin voucher (Later-Chain r l) q
  Later-Chain r (then_elsewhere system l c q) = elsewhere system (Later-Chain r l) c q

module _ (C : Config) (L : IsLawful C) {n : ℕ} {s : State C} (b : ℕ) {rand : Bytes} (past : b ≤ n)
    (drawn : C.history.get s.history b ≡ some rand) where
  -- An entry stays as it is for as long as it is kept.
  draw_stable :
      {m : ℕ} {t : State C}
      → Later C n s m t
      → m < b + epoch_length
      → C.history.get t.history b ≡ some rand
  draw_stable (now e q) fresh = rw q drawn
  draw_stable (then_block {k} {m} {t} system l e c q) fresh =
      let before = draw_stable l (omega arith) in
      rw (q, get-on_initialize C m (record t { system = system }) b)
        (ground (arith, before, Later-le C l))
  draw_stable (then_call {m} {t} origin voucher l q) fresh =
      ap (λ u. C.history.get u.history b) q
      ∙ ap (λ h. C.history.get h b) (claim-keeps C L origin voucher t).0
      ∙ draw_stable l fresh
  draw_stable (then_elsewhere system l c q) fresh =
      ap (λ u. C.history.get u.history b) q ∙ draw_stable l fresh

module _ (C : Config) (L : IsLawful C) (origin : C.Origin) (voucher : Bytes) {n m : ℕ}
    {s t : State C} {v : Voucher C} {who : C.AccountId} {rand : Bytes} where
  -- Once the randomness of a voucher's oracle block is drawn, its outcome is decided: whatever
  -- blocks, claims and steps of other pallets follow, a readable and genuine voucher of positive
  -- difficulty that is for the caller, and presented from its first redeeming block on and less
  -- than 1024 blocks after its oracle block, is redeemed with its event if its ticket for that
  -- randomness is below the bound, and else is refused for not winning and changes nothing.
  pub claim_decided :
      Chain C n s
      → C.history.get s.history v.oracle_block ≡ some rand
      → Later C n s m t
      → m < v.oracle_block + epoch_length
      → v.no_redeem_before_block ≤ m
      → parse C voucher ≡ ok v
      → C.ensure_signed origin ≡ some who
      → v.recipient_pk ≡ who
      → C.verify v.signature (take 128 voucher) v.sender_pk ≡ true
      → 0 < v.difficulty
      → ((ticket C voucher rand < u256_max / v.difficulty)
          × (claim C origin voucher t ≡ (ok tt, redeemed C origin voucher t who v)))
        ⊎ ((u256_max / v.difficulty ≤ ticket C voucher rand)
            × (claim C origin voucher t ≡ (err (module_error voucher_did_not_win), t)))
  claim_decided r drawn l fresh due parsed signed addressed genuine staked =
      let past = (window_entry C (Chain-IsValid C L r).window v.oracle_block drawn).1 in
      let reached = Later-Chain C r l in
      let sized = Chain-IsSized C L reached in
      let clock = (Chain-IsValid C L reached).clock in
      let a : IsAdmissible C origin voucher t who v rand = record {
        signed = signed;
        parsed = parsed;
        addressed = addressed;
        due = omega arith;
        genuine = genuine;
        drawn = draw_stable C L v.oracle_block past drawn l fresh;
      } in
      claim-settled C origin voucher t L sized a staked

module _ (C : Config) (L : IsLawful C) (origin payee : C.Origin) (voucher : Bytes) {n m : ℕ}
    {s t : State C} where
  -- A voucher that a claim in a reachable state is refused for not winning is never redeemed
  -- afterwards, by whoever claims it, whatever blocks, claims and steps of other pallets follow.
  pub lost_for_good :
      Chain C n s
      → (claim C origin voucher s).0 ≡ err (module_error voucher_did_not_win)
      → Later C n s m t
      → (claim C payee voucher t).0 ≢ ok tt
  lost_for_good r refusal l h =
      let valid = Chain-IsValid C L r in
      let reached = Later-Chain C r l in
      let (who, v, rand, a, short) =
        claim-eq_lost C L origin voucher s (Chain-IsSized C L r) refusal in
      let (whom, u, draw, b, staked, won, _) =
        claim-eq_ok C payee voucher t L (Chain-IsSized C L reached) h in
      let same : u ≡ v = ok_inj (sym b.parsed ∙ a.parsed) in
      let found : C.history.get t.history v.oracle_block ≡ some draw =
        ap (λ y. C.history.get t.history y.oracle_block) (sym same) ∙ b.drawn in
      let past = (window_entry C valid.window v.oracle_block a.drawn).1 in
      let fresh = (window_entry C (Chain-IsValid C L reached).window v.oracle_block found).2 in
      let kept = draw_stable C L v.oracle_block past a.drawn l fresh in
      let same_draw : draw ≡ rand = some_inj (sym found ∙ kept) in
      omega (arith, ap (ticket C voucher) same_draw, ap (λ y. u256_max / y.difficulty) same)
