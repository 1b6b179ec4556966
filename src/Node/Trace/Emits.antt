-- ===== src/Node/Trace/Emits.antt =====
-- Programs that make only calls with a property.
use Prim.Native.String.{String}
use guillotine.Base.{◌≡◌, refl, Bool, true, false, List, Result, ok, err, panic}
use guillotine.Node.Trace.{
  Run, go_on, ◌>>=◌, ◌>>◌, skip, Answer, perform, did, expect, when, Every, Every-append,
}

-- The program adds only calls with the property.
pub record Emits {S A : Type 0} (P : S → Type 0) (m : Run S A) : Type 0 where
  pub apply : (made : List S) → Every P made → Every P (m made).1

module _ {S : Type 0} (P : S → Type 0) where
  pub Emits-perform : (answer : S → Answer) (s : S) → P s → Emits P (perform answer s)
  Emits-perform answer s p = record { apply = λ made h. Every-append P made s h p }

  pub Emits-did : (s : S) → P s → Emits P (did s)
  Emits-did s p = record { apply = λ made h. Every-append P made s h p }

  pub Emits-expect : (answer : S → Answer) (s : S) → P s → Emits P (expect answer s)
  Emits-expect answer s p = record { apply = λ made h. Every-append P made s h p }

  pub Emits-skip : Emits P skip
  Emits-skip = record { apply = λ made h. h }

  pub Emits-when : (b : Bool) (m : Run S (Unit {0})) → Emits P m → Emits P (when b m)
  Emits-when true m e = e
  Emits-when false m e = Emits-skip

  pub Emits-when_true :
      (b : Bool) (m : Run S (Unit {0})) → (b ≡ true → Emits P m) → Emits P (when b m)
  Emits-when_true true m e = e refl
  Emits-when_true false m e = Emits-skip

  go_on-emits :
      {A B : Type 0} (r : Result String A) (f : A → Run S B) (made : List S)
      → ((a : A) → Emits P (f a))
      → Every P made
      → Every P (go_on r f made).1
  go_on-emits (ok a) f made g h = (g a).apply made h
  go_on-emits (err e) f made g h = h
  go_on-emits panic f made g h = h

  pub Emits-bind :
      {A B : Type 0} (m : Run S A) (f : A → Run S B)
      → Emits P m
      → ((a : A) → Emits P (f a))
      → Emits P (m >>= f)
  Emits-bind m f e g = record {
    apply = λ made h. go_on-emits (m made).0 f (m made).1 g (e.apply made h);
  }

  pub Emits-then :
      {B : Type 0} (m : Run S (Unit {0})) (k : Run S B) → Emits P m → Emits P k → Emits P (m >> k)
  Emits-then m k e g = Emits-bind m (λ _. k) e (λ _. g)
