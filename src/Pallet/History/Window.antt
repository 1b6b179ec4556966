-- ===== src/Pallet/History/Window.antt =====
-- What `on_initialize` leaves in the history, and the window of blocks that it keeps.
use guillotine.Base.{
  ℕ, ◌+◌, ◌-◌, ◌≤◌, ◌<◌, ◌≡◌, ◌≢◌, ◌∙◌, ◌&&◌, none, some, Option, Bytes, length, arith, ltb, ◌==◌,
  if◌then◌else◌,
}
use native.Mathlib.Decide.{ℕ_discrete}
use guillotine.Pallet.Config.{Config, IsLawful, State, epoch_length}
use guillotine.Pallet.History.{topic, on_initialize}

-- The history at block `n`: the blocks of the last epoch have 32 bytes each, no other has any.
pub record IsWindow (C : Config) (n : ℕ) (s : State C) : Type 0 where
  pub recent :
      (b : ℕ)
      → 0 < b
      → b ≤ n
      → n < b + epoch_length
      → (rand : Bytes) × (C.history.get s.history b ≡ some rand) × (length rand ≡ 32)
  pub expired : (b : ℕ) → b + epoch_length ≤ n → C.history.get s.history b ≡ none
  pub genesis : C.history.get s.history 0 ≡ none
  pub future : (b : ℕ) → n < b → C.history.get s.history b ≡ none

module _ (C : Config) (n : ℕ) (s : State C) where
  -- After the hook of block n the entry of n is the randomness drawn for it, the entry 1024
  -- blocks back is removed unless it is block 0, and every other entry is as before.
  pub get-on_initialize :
      (b : ℕ)
      → C.history.get (on_initialize C n s).1.history b ≡ (
          if ltb 0 b && (b + epoch_length) == n
          then none
          else if b == n
          then some (C.random s.system (topic n))
          else C.history.get s.history b)
  unfolding on_initialize
  get-on_initialize b = ground (
    arith,
    C.history.get-set s.history n (some (C.random s.system (topic n))) b,
    C.history.get-set (C.history.set s.history n (some (C.random s.system (topic n))))
        (n - epoch_length) none b,
  )

module _ (C : Config) (L : IsLawful C) (n : ℕ) (s : State C) (w : IsWindow C n s) where
  after : (b : ℕ) → Option Bytes
  after b = C.history.get (on_initialize C (n + 1) s).1.history b

  abbrev drawn_now : Bytes
  drawn_now = C.random s.system (topic (n + 1))

  step-current : after (n + 1) ≡ some drawn_now
  unfolding after
  step-current = rw get-on_initialize (ground arith)

  step-old : (b : ℕ) → b + epoch_length ≤ n + 1 → after b ≡ none
  unfolding after
  step-old b h = rw get-on_initialize (ground (arith, w.expired b, w.genesis))

  step-kept : (b : ℕ) → b ≢ n + 1 → n + 1 < b + epoch_length → after b ≡ C.history.get s.history b
  unfolding after
  step-kept b h k = rw get-on_initialize (ground arith)

  step-recent :
      (b : ℕ)
      → 0 < b
      → b ≤ n + 1
      → n + 1 < b + epoch_length
      → (rand : Bytes) × (after b ≡ some rand) × (length rand ≡ 32)
  step-recent b pos le lt = elim (ℕ_discrete b (n + 1)) [
    | yes e ↦ (drawn_now, rw e step-current, L.length-random _ _)
    | no ne ↦ rw (step-kept b ne lt) (w.recent b pos (omega arith) (omega arith))
  ]

  step-genesis : after 0 ≡ none
  unfolding after
  step-genesis = rw get-on_initialize (ground (arith, w.genesis))

  -- Initialising the next block moves the window by one block.
  pub on_initialize-IsWindow : IsWindow C (n + 1) (on_initialize C (n + 1) s).1
  unfolding after
  on_initialize-IsWindow = record {
    recent = step-recent;
    expired = step-old;
    genesis = step-genesis;
    future = λ b h. step-kept b (omega arith) (omega arith) ∙ w.future b (omega arith);
  }
