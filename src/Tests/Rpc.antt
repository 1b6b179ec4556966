-- ===== src/Tests/Rpc.antt =====
-- The theorems on the RPC module at concrete data.
use Prim.Native.String.{String}
use guillotine.Base.{ℕ, ◌≡◌, refl, sym, ◌∙◌, ◌⊎◌, inl, inr, ◌↔◌, Bool, true, false, Result, ok, err}
use guillotine.Node.Rpc.{Extensions, FullDeps, create_full}
use guillotine.Node.Rpc.Laws.{IsLawful, Shared, SystemHas, PaymentHas, create_full-cases}

-- A module remembers which of the two extensions it has; `false` stands for the system's methods.
abbrev add : Bool × Bool → Bool → Result String (Bool × Bool)
add (true, p) false = err "system"
add (false, p) false = ok (true, p)
add (s, true) true = err "payment"
add (s, false) true = ok (s, true)

abbrev extensions : Extensions
extensions = record {
  Client = ℕ;
  Pool = ℕ;
  DenyUnsafe = Bool;
  RpcModule = Bool × Bool;
  Methods = Bool;
  RegisterError = String;
  new = (false, false);
  merge = add;
  system = λ client pool deny_unsafe. false;
  transaction_payment = λ client. true;
}

abbrev Named : Bool → String → Type 0
Named false name = name ≡ "system_health"
Named true name = name ≡ "payment_queryInfo"

abbrev Served : Bool × Bool → String → Type 0
Served (s, p) name = ((s ≡ true) × Named false name) ⊎ ((p ≡ true) × Named true name)

none-Served : (name : String) → Served (false, false) name → ⊥
none-Served name (inl (e, _)) = cc
none-Served name (inr (e, _)) = cc

-- Adding one extension adds its names.
add-system :
    (p : Bool) (name : String) → Served (true, p) name ↔ (Served (false, p) name ⊎ Named false name)
add-system p name = (forth, back)
  where
    forth : Served (true, p) name → Served (false, p) name ⊎ Named false name
    forth (inl (_, h)) = inr h
    forth (inr h) = inl (inr h)

    back : Served (false, p) name ⊎ Named false name → Served (true, p) name
    back (inl (inl (e, h))) = inl (refl, h)
    back (inl (inr h)) = inr h
    back (inr h) = inl (refl, h)

add-payment :
    (s : Bool) (name : String) → Served (s, true) name ↔ (Served (s, false) name ⊎ Named true name)
add-payment s name = (forth, back)
  where
    forth : Served (s, true) name → Served (s, false) name ⊎ Named true name
    forth (inl h) = inl (inl h)
    forth (inr (_, h)) = inr h

    back : Served (s, false) name ⊎ Named true name → Served (s, true) name
    back (inl (inl h)) = inl h
    back (inl (inr (e, h))) = inr (refl, h)
    back (inr h) = inr (refl, h)

names_differ : (name : String) → Named false name → Named true name → ⊥
names_differ name h k =
    let e : ◌≡◌ {A = String} "system_health" "payment_queryInfo" = sym h ∙ k in cc

add-ok :
    (m : Bool × Bool) (ms : Bool)
    → ((name : String) → Served m name → Named ms name → ⊥)
    → (m' : Bool × Bool) × (add m ms ≡ ok m')
      × ((name : String) → Served m' name ↔ (Served m name ⊎ Named ms name))
add-ok (true, p) false apart = absurd (apart "system_health" (inl (refl, refl)) refl)
add-ok (false, p) false apart = ((true, p), refl, add-system p)
add-ok (s, true) true apart = absurd (apart "payment_queryInfo" (inr (refl, refl)) refl)
add-ok (s, false) true apart = ((s, true), refl, add-payment s)

add-err :
    (m : Bool × Bool) (ms : Bool) (name : String)
    → Served m name
    → Named ms name
    → (e : String) × (add m ms ≡ err e)
add-err (true, p) false name s h = ("system", refl)
add-err (false, p) false name (inl (e, _)) h = cc
add-err (false, p) false name (inr (_, e)) h = absurd (names_differ name h e)
add-err (s, true) true name _ h = ("payment", refl)
add-err (s, false) true name (inl (_, e)) h = absurd (names_differ name e h)
add-err (s, false) true name (inr (e, _)) h = cc

extensions-IsLawful : IsLawful extensions
extensions-IsLawful = record {
  Serves = Served;
  Has = Named;
  new_serves = none-Served;
  merge-ok = add-ok;
  merge-err = add-err;
}

abbrev deps : FullDeps extensions
deps = record { client = 1; pool = 2; deny_unsafe = true }

create_full-cases_example :
    ((e : String) × Shared extensions extensions-IsLawful deps
      × (create_full extensions deps ≡ err e))
    ⊎ ((m : Bool × Bool) × (Shared extensions extensions-IsLawful deps → ⊥)
        × (create_full extensions deps ≡ ok m)
        × ((name : String)
            → Served m name ↔ (
                SystemHas extensions extensions-IsLawful deps name
                ⊎ PaymentHas extensions extensions-IsLawful deps name)))
unfolding extensions-IsLawful
create_full-cases_example =
    create_full-cases extensions extensions-IsLawful deps
      (inr (λ (name, h, k). names_differ name h k))
