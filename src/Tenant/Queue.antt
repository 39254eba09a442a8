-- ===== src/Tenant/Queue.antt =====
-- The queue of the cache when a key is moved to its end.
use trust_system.Prelude.{◌≡◌, ◌⊎◌, inl, inr, true, not, List, [], ◌∷◌, ◌++◌, arith, holds, In}
use trust_system.Prelude.Distinct.{
  IsDistinct, In-append_left, In-append_right, In-append, In-keep, keep-In, keep-IsDistinct,
  snoc-IsDistinct,
}
use trust_system.Prelude.Float.{Floats}
use trust_system.Tenant.{RouteKey, key_dec, without}

module _ ⦃f : Floats⦄ where
  not_kept : (k : RouteKey) → ¬ (not (holds (key_dec k k)) ≡ true)
  not_kept k e = ground arith

  -- The queue after a key is moved to its end.
  pub moved-IsDistinct :
      (k : RouteKey) (order : List RouteKey)
      → IsDistinct order
      → IsDistinct (without k order ++ k ∷ [])
  moved-IsDistinct k order h =
      snoc-IsDistinct k (without k order) (keep-IsDistinct _ order h)
        (λ i. not_kept k (keep-In _ k order i).1)

  pub In-moved :
      (k j : RouteKey) (order : List RouteKey)
      → In j order ⊎ (j ≡ k)
      → In j (without k order ++ k ∷ [])
  In-moved k j order h = elim (key_dec j k) [
    | yes e ↦ In-append_right j (without k order) (k ∷ []) (inl e)
    | no n ↦ elim h [
      | inr e ↦ absurd (n e)
      | inl i ↦ In-append_left j (without k order) (k ∷ []) (In-keep _ j order (ground arith) i)
    ]
  ]

  pub moved-In :
      (k j : RouteKey) (order : List RouteKey)
      → In j (without k order ++ k ∷ [])
      → In j order ⊎ (j ≡ k)
  moved-In k j order i = elim (In-append j (without k order) (k ∷ []) i) [
    | inl h ↦ inl (keep-In _ j order h).0
    | inr (inl e) ↦ inr e
    | inr (inr h) ↦ absurd h
  ]
