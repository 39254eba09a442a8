-- ===== src/Prelude/First.antt =====
-- Membership under `map`, and the first element of a list.
use mathlib.Core.Path.{◌≡◌, refl, sym, ap}
use mathlib.Core.Logic.{◌≢◌, inl, inr}
use mathlib.Core.Option.{some}
use mathlib.Core.List.{List, [], ◌∷◌, map}
use native.Mathlib.Omega.{arith}
use Prim.Native.Nat.{Ordering}
use trust_system.Prelude.Lists.{All, In, All-In, first?}
use trust_system.Prelude.Order.{IsTotalOrder}
use trust_system.Prelude.Sort.{IsSorted}

pub All-map_of :
    {A B : Type 0} (P : B → Type 0) (g : A → B) (xs : List A)
    → ((a : A) → In a xs → P (g a))
    → All P (map g xs)
All-map_of P g [] h = tt
All-map_of P g (x ∷ xs) h = (h x (inl refl), All-map_of P g xs (λ a i. h a (inr i)))

pub In-map : {A B : Type 0} (g : A → B) (a : A) (xs : List A) → In a xs → In (g a) (map g xs)
In-map g a [] i = absurd i
In-map g a (x ∷ xs) (inl e) = inl (ap g e)
In-map g a (x ∷ xs) (inr i) = inr (In-map g a xs i)

pub map-In :
    {A B : Type 0} (g : A → B) (b : B) (xs : List A)
    → In b (map g xs)
    → (a : A) × In a xs × (g a ≡ b)
map-In g b [] i = absurd i
map-In g b (x ∷ xs) (inl e) = (x, inl refl, sym e)
map-In g b (x ∷ xs) (inr i) = let (a, j, e) = map-In g b xs i in (a, inr j, e)

pub IsTotalOrder-self :
    {A : Type 0} {cmp : A → A → Ordering} → IsTotalOrder cmp → (x : A) → cmp x x ≢ Ordering.gt
IsTotalOrder-self t x e = ground (arith, t.swapped x x)

pub first-In : {A : Type 0} (a : A) (xs : List A) → In a xs → (b : A) × (first? xs ≡ some b)
first-In a [] i = absurd i
first-In a (x ∷ xs) i = (x, refl)

pub In-first : {A : Type 0} (b : A) (xs : List A) → first? xs ≡ some b → In b xs
In-first b [] e = absurd (ground arith)
In-first b (x ∷ xs) e = inl (ground arith)

pub first-least :
    {A : Type 0} (cmp : A → A → Ordering) (b a : A) (xs : List A)
    → ((x : A) → cmp x x ≢ Ordering.gt)
    → IsSorted cmp xs
    → first? xs ≡ some b
    → In a xs
    → cmp b a ≢ Ordering.gt
first-least cmp b a [] r h e i = absurd i
first-least cmp b a (x ∷ xs) r h e i =
    let q : x ≡ b = ground arith in
    elim i [
      | inl p ↦ rw (sym q, p) (r x)
      | inr j ↦ rw (sym q) (All-In (λ y. cmp x y ≢ Ordering.gt) a xs h.0 j)
    ]
