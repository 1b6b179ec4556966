-- ===== src/Node/Rpc/Laws.antt =====
-- Which methods the node serves.
use Prim.Native.String.{String}
use guillotine.Base.{◌≡◌, ◌⊎◌, ◌↔◌, inl, inr, ok, err}
use guillotine.Node.Rpc.{Extensions, FullDeps, create_full}

-- What jsonrpsee says of `merge`: it registers the methods if no name is taken, and fails if one
-- is.
pub record IsLawful (X : Extensions) : Type 1 where
  pub Serves : X.RpcModule → String → Type 0
  pub Has : X.Methods → String → Type 0
  pub new_serves : (name : String) → Serves X.new name → ⊥
  pub merge-ok :
      (m : X.RpcModule) (ms : X.Methods)
      → ((name : String) → Serves m name → Has ms name → ⊥)
      → (m' : X.RpcModule) × (X.merge m ms ≡ ok m')
        × ((name : String) → Serves m' name ↔ (Serves m name ⊎ Has ms name))
  pub merge-err :
      (m : X.RpcModule) (ms : X.Methods) (name : String)
      → Serves m name
      → Has ms name
      → (e : X.RegisterError) × (X.merge m ms ≡ err e)

join : {A B D : Type 0} → (A → D) → A ⊎ B → D ⊎ B
join f (inl a) = inl (f a)
join f (inr b) = inr b

the_right : {A B : Type 0} → (A → ⊥) → A ⊎ B → B
the_right n (inl a) = absurd (n a)
the_right n (inr b) = b

module _ (X : Extensions) (L : IsLawful X) (deps : FullDeps X) where
  abbrev pub SystemHas : String → Type 0
  SystemHas name = L.Has (X.system deps.client deps.pool deps.deny_unsafe) name

  abbrev pub PaymentHas : String → Type 0
  PaymentHas name = L.Has (X.transaction_payment deps.client) name

  -- Two extensions share a name, or they do not.
  abbrev pub Shared : Type 0
  Shared = (name : String) × SystemHas name × PaymentHas name

  -- If the two RPC extensions share a method name, making the RPC module fails; if they share
  -- none, it succeeds, and the module serves exactly the methods of both.
  pub create_full-cases :
      Shared ⊎ (Shared → ⊥)
      → ((e : X.RegisterError) × Shared × (create_full X deps ≡ err e))
        ⊎ ((m : X.RpcModule) × (Shared → ⊥)
            × (create_full X deps ≡ ok m)
            × ((name : String) → L.Serves m name ↔ (SystemHas name ⊎ PaymentHas name)))
  unfolding create_full
  create_full-cases shared =
      let (m, first, serves) =
        L.merge-ok X.new (X.system deps.client deps.pool deps.deny_unsafe)
          (λ name s _. L.new_serves name s) in
      elim shared [
        | inl (name, s, p) ↦
            let (e, second) =
              L.merge-err m (X.transaction_payment deps.client) name ((serves name).1 (inr s)) p in
            inl (e, (name, s, p), rw (first, second))
        | inr apart ↦
            let in_system = λ (name : String) (h : L.Serves m name).
              the_right (L.new_serves name) ((serves name).0 h) in
            let (m', second, all) =
              L.merge-ok m (X.transaction_payment deps.client)
                (λ name s p. apart (name, in_system name s, p)) in
            inr (
              m',
              apart,
              rw (first, second),
              λ name. (
                λ h. join (in_system name) ((all name).0 h),
                λ h. (all name).1 (join (λ s. (serves name).1 (inr s)) h),
              ),
            )
      ]
