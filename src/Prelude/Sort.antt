-- ===== src/Prelude/Sort.antt =====
-- `slice::sort_by`: a stable sort. The result of a stable sort is determined by the order, so an
-- insertion sort stands for it.
use Prim.Native.Nat.{Ordering}
use mathlib.Core.Path.{◌≡◌, refl}
use mathlib.Core.Logic.{◌≢◌, ◌⊎◌, inl, inr}
use mathlib.Core.List.{List, [], ◌∷◌, Perm}
use mathlib.Core.List.Perm
use native.Mathlib.Omega.{arith}
use trust_system.Prelude.Lists.{All, All-map, In, length}
use trust_system.Prelude.Order.{IsTotalOrder}

pub Ordering-cases : (o : Ordering) → (o ≡ Ordering.gt) ⊎ (o ≢ Ordering.gt)
Ordering-cases Ordering.lt = inr (λ e. cc)
Ordering-cases Ordering.eq = inr (λ e. cc)
Ordering-cases Ordering.gt = inl refl

module _ {ℓ} {A : Type ℓ} (cmp : A → A → Ordering) where
  unfoldable pub insert_sorted : A → List A → List A
  insert_sorted x [] = x ∷ []
  insert_sorted x (y ∷ ys) = elim (cmp x y) [
    | Ordering.gt ↦ y ∷ insert_sorted x ys
    | _ ↦ x ∷ y ∷ ys
  ]

  unfoldable pub sort_by : List A → List A
  unfolding insert_sorted
  sort_by [] = []
  sort_by (x ∷ xs) = insert_sorted x (sort_by xs)

  insert_sorted_gt :
      (x y : A) (ys : List A)
      → cmp x y ≡ Ordering.gt
      → insert_sorted x (y ∷ ys) ≡ y ∷ insert_sorted x ys
  unfolding insert_sorted
  insert_sorted_gt x y ys e = ground arith

  insert_sorted_le :
      (x y : A) (ys : List A) → cmp x y ≢ Ordering.gt → insert_sorted x (y ∷ ys) ≡ x ∷ y ∷ ys
  unfolding insert_sorted
  insert_sorted_le x y ys e = ground arith

  insert_sorted-perm : (x : A) (ys : List A) → Perm (insert_sorted x ys) (x ∷ ys)
  insert_sorted-perm x [] = unfold insert_sorted in Perm.refl (x ∷ [])
  insert_sorted-perm x (y ∷ ys) = elim (Ordering-cases (cmp x y)) [
    | inl e ↦
        rw (insert_sorted_gt x y ys e)
          (Perm.trans (Perm.cons y (insert_sorted-perm x ys)) (Perm.swap x y ys))
    | inr e ↦ rw (insert_sorted_le x y ys e) (Perm.refl (x ∷ y ∷ ys))
  ]

  -- Sorting loses and makes up nothing.
  pub sort_by-perm : (xs : List A) → Perm (sort_by xs) xs
  unfolding sort_by
  sort_by-perm [] = Perm.refl []
  sort_by-perm (x ∷ xs) =
      Perm.trans (insert_sorted-perm x (sort_by xs)) (Perm.cons x (sort_by-perm xs))

  pub length-insert_sorted : (x : A) (ys : List A) → length (insert_sorted x ys) ≡ length (x ∷ ys)
  unfolding insert_sorted
  length-insert_sorted x [] = refl
  length-insert_sorted x (y ∷ ys) = ground (arith, length-insert_sorted x ys)

  pub length-sort_by : (xs : List A) → length (sort_by xs) ≡ length xs
  unfolding sort_by
  length-sort_by [] = refl
  length-sort_by (x ∷ xs) = ground (arith, length-insert_sorted x (sort_by xs), length-sort_by xs)

  module _ {μ} (P : A → Type μ) where
    All-insert_sorted : (x : A) (ys : List A) → P x → All P ys → All P (insert_sorted x ys)
    All-insert_sorted x [] p h = unfold insert_sorted in (p, tt)
    All-insert_sorted x (y ∷ ys) p h = elim (Ordering-cases (cmp x y)) [
      | inl e ↦ rw (insert_sorted_gt x y ys e) (h.0, All-insert_sorted x ys p h.1)
      | inr e ↦ rw (insert_sorted_le x y ys e) (p, h)
    ]

    pub All-sort_by : (xs : List A) → All P xs → All P (sort_by xs)
    unfolding sort_by
    All-sort_by [] h = tt
    All-sort_by (x ∷ xs) h = All-insert_sorted x (sort_by xs) h.0 (All-sort_by xs h.1)

module _ {A : Type 0} (cmp : A → A → Ordering) where
  In-insert_sorted : (a x : A) (ys : List A) → In a (x ∷ ys) → In a (insert_sorted cmp x ys)
  In-insert_sorted a x [] i = unfold insert_sorted in i
  In-insert_sorted a x (y ∷ ys) i = elim (Ordering-cases (cmp x y)) [
    | inl e ↦ rw (insert_sorted_gt cmp x y ys e) (elim i [
      | inl p ↦ inr (In-insert_sorted a x ys (inl p))
      | inr (inl p) ↦ inl p
      | inr (inr j) ↦ inr (In-insert_sorted a x ys (inr j))
    ])
    | inr e ↦ rw (insert_sorted_le cmp x y ys e) i
  ]

  pub In-sort_by : (a : A) (xs : List A) → In a xs → In a (sort_by cmp xs)
  unfolding sort_by
  In-sort_by a [] i = absurd i
  In-sort_by a (x ∷ xs) (inl e) = In-insert_sorted a x (sort_by cmp xs) (inl e)
  In-sort_by a (x ∷ xs) (inr i) = In-insert_sorted a x (sort_by cmp xs) (inr (In-sort_by a xs i))

-- Every element is at most those behind it.
abbrev pub IsSorted {ℓ} : {A : Type ℓ} → (A → A → Ordering) → List A → Type ℓ
IsSorted cmp [] = Unit
IsSorted cmp (x ∷ xs) = All (λ y. cmp x y ≢ Ordering.gt) xs × IsSorted cmp xs

module _ {ℓ} {A : Type ℓ} {cmp : A → A → Ordering} (t : IsTotalOrder cmp) where
  below-flip : (x y : A) → cmp x y ≡ Ordering.gt → cmp y x ≢ Ordering.gt
  below-flip x y e = ground (arith, t.swapped x y)

  insert_sorted-IsSorted :
      (x : A) (ys : List A) → IsSorted cmp ys → IsSorted cmp (insert_sorted cmp x ys)
  insert_sorted-IsSorted x [] h = unfold insert_sorted in (tt, tt)
  insert_sorted-IsSorted x (y ∷ ys) h = elim (Ordering-cases (cmp x y)) [
    | inl e ↦ rw (insert_sorted_gt cmp x y ys e) (
      All-insert_sorted cmp (λ z. cmp y z ≢ Ordering.gt) x ys (below-flip x y e) h.0,
      insert_sorted-IsSorted x ys h.1,
    )
    | inr e ↦ rw (insert_sorted_le cmp x y ys e) ((e, All-map (λ z q. t.trans x y z e q) ys h.0), h)
  ]

  pub sort_by-IsSorted : (xs : List A) → IsSorted cmp (sort_by cmp xs)
  unfolding sort_by
  sort_by-IsSorted [] = tt
  sort_by-IsSorted (x ∷ xs) = insert_sorted-IsSorted x (sort_by cmp xs) (sort_by-IsSorted xs)
