-- ===== src/Prelude/Distinct.antt =====
-- Lists without repetition, and membership under `retain`.
use mathlib.Core.Path.{◌≡◌, refl, sym}
use mathlib.Core.Logic.{◌⊎◌, inl, inr}
use mathlib.Core.Bool.{Bool, true}
use mathlib.Core.List.{List, [], ◌∷◌, ◌++◌}
use trust_system.Prelude.Tests.{Bool-cases}
use trust_system.Prelude.Lists.{All, In, keep}

abbrev pub IsDistinct : {A : Type 0} → List A → Type 0
IsDistinct [] = Unit
IsDistinct (x ∷ xs) = (¬ In x xs) × IsDistinct xs

module _ {A : Type 0} where
  pub In-append_left : (a : A) (xs ys : List A) → In a xs → In a (xs ++ ys)
  In-append_left a [] ys i = absurd i
  In-append_left a (x ∷ xs) ys (inl e) = inl e
  In-append_left a (x ∷ xs) ys (inr i) = inr (In-append_left a xs ys i)

  pub In-append_right : (a : A) (xs ys : List A) → In a ys → In a (xs ++ ys)
  In-append_right a [] ys i = i
  In-append_right a (x ∷ xs) ys i = inr (In-append_right a xs ys i)

  pub In-append : (a : A) (xs ys : List A) → In a (xs ++ ys) → In a xs ⊎ In a ys
  In-append a [] ys i = inr i
  In-append a (x ∷ xs) ys (inl e) = inl (inl e)
  In-append a (x ∷ xs) ys (inr i) = elim (In-append a xs ys i) [
    | inl j ↦ inl (inr j)
    | inr j ↦ inr j
  ]

  module _ (p : A → Bool) where
    pub In-keep : (a : A) (xs : List A) → p a ≡ true → In a xs → In a (keep p xs)
    In-keep a [] h i = absurd i
    In-keep a (x ∷ xs) h (inl e) = let hx : p x ≡ true = rw (sym e) h in rw (In, hx, e) (inl refl)
    In-keep a (x ∷ xs) h (inr i) = elim (Bool-cases (p x)) [
      | inl e ↦ rw (In, e) (inr (In-keep a xs h i))
      | inr e ↦ rw (In, e) (In-keep a xs h i)
    ]

    pub keep-In : (a : A) (xs : List A) → In a (keep p xs) → In a xs × (p a ≡ true)
    keep-In a [] i = absurd i
    keep-In a (x ∷ xs) i = elim (Bool-cases (p x)) [
      | inl e ↦ elim (rw (In, e) at i) [
        | inl q ↦ (inl q, rw q e)
        | inr j ↦ (inr (keep-In a xs j).0, (keep-In a xs j).1)
      ]
      | inr e ↦ let j = keep-In a xs (rw (In, e) at i) in (inr j.0, j.1)
    ]

    pub keep-IsDistinct : (xs : List A) → IsDistinct xs → IsDistinct (keep p xs)
    keep-IsDistinct [] h = tt
    keep-IsDistinct (x ∷ xs) h = elim (Bool-cases (p x)) [
      | inl e ↦ rw (IsDistinct, e) ((λ i. h.0 (keep-In x xs i).0), keep-IsDistinct xs h.1)
      | inr e ↦ rw (IsDistinct, e) (keep-IsDistinct xs h.1)
    ]

    pub All-keep : (xs : List A) → All (λ x. p x ≡ true) (keep p xs)
    All-keep [] = tt
    All-keep (x ∷ xs) = elim (Bool-cases (p x)) [
      | inl e ↦ rw (All, e) (e, All-keep xs)
      | inr e ↦ rw (All, e) (All-keep xs)
    ]

  pub snoc-IsDistinct :
      (x : A) (xs : List A) → IsDistinct xs → ¬ In x xs → IsDistinct (xs ++ x ∷ [])
  snoc-IsDistinct x [] h n = (λ i. i, tt)
  snoc-IsDistinct x (y ∷ xs) h n = (
    (λ i. elim (In-append y xs (x ∷ []) i) [
      | inl j ↦ h.0 j
      | inr (inl e) ↦ n (inl (sym e))
      | inr (inr j) ↦ j
    ]),
    snoc-IsDistinct x xs h.1 (λ i. n (inr i)),
  )

  pub In-All : {P : A → Type 0} → (xs : List A) → ((a : A) → In a xs → P a) → All P xs
  In-All [] h = tt
  In-All (x ∷ xs) h = (h x (inl refl), In-All xs (λ a i. h a (inr i)))
