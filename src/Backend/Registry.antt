-- ===== src/Backend/Registry.antt =====
-- src/backend_registry.rs: what a registry supports after a registration, and which backend it
-- executes.
use trust_system.Prelude.{
  ◌≡◌, refl, sym, ◌≢◌, inl, inr, true, none, some, List, arith, All, In, ok, err, Result-cases,
  Option-cases, Bool-cases,
}
use trust_system.Prelude.Text.{Text, text_dec}
use trust_system.Prelude.Order.{list_cmp}
use trust_system.Prelude.BTreeMap
use trust_system.Prelude.BTreeMap.{list_cmp-IsKeyOrder, get-insert_self, get-insert_ne}
use trust_system.Prelude.Keys.{All-insert, All-get}
use trust_system.Prelude.Distinct.{In-All}
use trust_system.Prelude.Float.{Floats}
use trust_system.Kv.{ModelReference, KvStrategy}
use trust_system.Backend.{
  BackendRequest, BackendDescriptor, declares, unknown_backend, validate, BackendResult,
  InferenceBackend, RegisteredBackend, BackendRegistry, empty_registry, register, supports, execute,
}

module _ ⦃f : Floats⦄ where
  -- An entry under its own name, whose descriptor is valid and names the backend.
  abbrev pub Named : Text → RegisteredBackend → Type 0
  Named id x = (x.descriptor.id ≡ id) × (x.backend.name ≡ id) × (validate x.descriptor ≡ ok tt)

  -- The registries that registrations build.
  pub data Built : BackendRegistry → Type 0 where
    empty : Built empty_registry
    more :
        {r r' : BackendRegistry} (d : BackendDescriptor) (b : InferenceBackend)
        → Built r
        → register r d b ≡ ok r'
        → Built r'

  register_steps :
      (r r' : BackendRegistry) (d : BackendDescriptor) (b : InferenceBackend)
      → register r d b ≡ ok r'
      → (validate d ≡ ok tt)
        × (d.id ≡ b.name)
        × (BTreeMap.get list_cmp d.id r.entries ≡ none)
        × (r'.entries
            ≡ BTreeMap.insert list_cmp d.id (record { descriptor = d; backend = b }) r.entries)
  unfolding register
  register_steps r r' d b e = elim (Result-cases (validate d)) [
    | inl (_, v) ↦ absurd (ground arith)
    | inr (tt, v) ↦ elim (text_dec d.id b.name) [
      | no n ↦ absurd (ground arith)
      | yes p ↦ elim (Option-cases (BTreeMap.get list_cmp d.id r.entries)) [
        | inl g ↦ (v, p, g, ground arith)
        | inr (_, g) ↦ absurd (ground arith)
      ]
    ]
  ]

  Built-Named : (r : BackendRegistry) → Built r → All (λ e. Named e.0 e.1) r.entries
  Built-Named _ empty = tt
  Built-Named r' (more {r} d b h e) =
      let (v, p, _, q) = register_steps r r' d b e in
      rw q (
        All-insert list_cmp-IsKeyOrder Named d.id (record { descriptor = d; backend = b }) r.entries
          (refl, sym p, v) (Built-Named r h))

  get-In :
      (id : Text) (x : RegisteredBackend) (m : List (Text × RegisteredBackend))
      → BTreeMap.get list_cmp id m ≡ some x
      → In (id, x) m
  get-In id x m g = All-get list_cmp-IsKeyOrder (λ k v. In (k, v) m) id x m (In-All m (λ a i. i)) g

  execute_steps :
      (r : BackendRegistry) (id : Text) (request : BackendRequest) (out : BackendResult)
      → execute r id request ≡ ok out
      → (x : RegisteredBackend) × (BTreeMap.get list_cmp id r.entries ≡ some x)
        × (declares x.descriptor request.model request.strategy ≡ true)
        × (out ≡ x.backend.execute request)
  unfolding execute
  execute_steps r id request out e = elim (Option-cases (BTreeMap.get list_cmp id r.entries)) [
    | inl g ↦ absurd (ground arith)
    | inr (x, g) ↦ elim (Bool-cases (declares x.descriptor request.model request.strategy)) [
      | inl t ↦ (x, g, t, ground arith)
      | inr t ↦ absurd (ground arith)
    ]
  ]

  -- In a registry that registrations build, a request that is answered was answered by the entry
  -- that the registry holds under the name asked for: its backend was called with the request, and
  -- the answer is what it gave. The entry's descriptor is valid, bears that name and declares the
  -- request's model and strategy; and `supports` says so too.
  pub execute-Declared :
      (r : BackendRegistry) (id : Text) (request : BackendRequest) (out : BackendResult)
      → Built r
      → execute r id request ≡ ok out
      → (x : RegisteredBackend) × In (id, x) r.entries
        × (BTreeMap.get list_cmp id r.entries ≡ some x)
        × Named id x
        × (declares x.descriptor request.model request.strategy ≡ true)
        × (out ≡ x.backend.execute request)
        × (supports r id request.model request.strategy ≡ ok true)
  unfolding supports
  execute-Declared r id request out h e =
      let (x, g, t, o) = execute_steps r id request out e in
      (
        x,
        get-In id x r.entries g,
        g,
        All-get list_cmp-IsKeyOrder Named id x r.entries (Built-Named r h) g,
        t,
        o,
        rw (g, t) refl,
      )

  -- A backend that is registered was unknown before, supports afterwards what its descriptor
  -- declares, and changes nothing for the other names.
  pub register-supports :
      (r r' : BackendRegistry) (d : BackendDescriptor) (b : InferenceBackend)
      → register r d b ≡ ok r'
      → ((m : ModelReference) (s : KvStrategy)
          → (supports r d.id m s ≡ err (unknown_backend d.id))
            × (supports r' d.id m s ≡ ok (declares d m s)))
        × ((j : Text) (m : ModelReference) (s : KvStrategy)
            → j ≢ d.id
            → supports r' j m s ≡ supports r j m s)
  unfolding supports
  register-supports r r' d b e =
      let (_, _, g, q) = register_steps r r' d b e in
      let x : RegisteredBackend = record { descriptor = d; backend = b } in
      (
        (λ m s. (
          rw g refl,
          rw (q, get-insert_self list_cmp list_cmp-IsKeyOrder d.id x r.entries) refl,
        )),
        (λ j m s n. rw (q, get-insert_ne list_cmp list_cmp-IsKeyOrder d.id j x r.entries n) refl),
      )
