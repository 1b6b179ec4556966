-- ===== src/Node/Trace.antt =====
-- Programs that are the sequence of calls they make: each call may fail, and what follows a failed
-- call is not run.
pub mod Emits
use Prim.Native.String.{String}
use guillotine.Base.{◌≡◌, refl, Bool, true, false, List, [], ◌∷◌, ◌++◌, Result, ok, err, panic}

-- A program over the calls `S` carries the calls made so far.
abbrev pub Run : Type 0 → Type 0 → Type 0
Run S A = List S → Result String A × List S

-- Goes on with what a program returned, or stops.
abbrev pub go_on : {S A B : Type 0} → Result String A → (A → Run S B) → Run S B
go_on (ok a) f made = f a made
go_on (err e) f made = (err e, made)
go_on panic f made = (panic, made)

infixl 5 ◌>>=◌ ◌>>◌
abbrev pub ◌>>=◌ : {S A B : Type 0} → Run S A → (A → Run S B) → Run S B
◌>>=◌ m f made = go_on (m made).0 f (m made).1

abbrev pub ◌>>◌ : {S B : Type 0} → Run S (Unit {0}) → Run S B → Run S B
m >> k = m >>= λ _. k

abbrev pub fail : {S A : Type 0} → String → Run S A
fail message made = (err message, made)

abbrev pub skip : {S : Type 0} → Run S (Unit {0})
skip made = (ok tt, made)

-- What a call answers: success, an error, or a panic.
pub data Answer : Type 0 where
  success : Answer
  failure : String → Answer
  crash : Answer

abbrev pub answered : Answer → Result String (Unit {0})
answered success = ok tt
answered (failure e) = err e
answered crash = panic

-- Makes one call.
abbrev pub perform : {S : Type 0} → (S → Answer) → S → Run S (Unit {0})
perform answer s made = (answered (answer s), made ++ s ∷ [])

-- Makes a call that cannot fail.
abbrev pub did : {S : Type 0} → S → Run S (Unit {0})
did s made = (ok tt, made ++ s ∷ [])

abbrev pub expected : Answer → Result String (Unit {0})
expected success = ok tt
expected (failure _) = panic
expected crash = panic

-- Makes one call, and panics if it fails.
abbrev pub expect : {S : Type 0} → (S → Answer) → S → Run S (Unit {0})
expect answer s made = (expected (answer s), made ++ s ∷ [])

abbrev pub when : {S : Type 0} → Bool → Run S (Unit {0}) → Run S (Unit {0})
when true m = m
when false m = skip

abbrev pub Every : {S : Type 0} → (S → Type 0) → List S → Type 0
Every P [] = Unit
Every P (s ∷ ss) = P s × Every P ss

pub Every-append :
    {S : Type 0} (P : S → Type 0) (made : List S) (s : S)
    → Every P made
    → P s
    → Every P (made ++ s ∷ [])
Every-append P [] s h p = (p, tt)
Every-append P (x ∷ made) s h p = (h.0, Every-append P made s h.1 p)
