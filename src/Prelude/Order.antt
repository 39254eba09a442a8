-- ===== src/Prelude/Order.antt =====
-- `Ordering`, `cmp` and `then_with`: total preorders and their lexicographic products.
use Prim.Native.Nat.{ℕ, compare, Ordering}
use mathlib.Core.Path.{◌≡◌}
use mathlib.Core.Logic.{◌≢◌}
use mathlib.Core.List.{List, [], ◌∷◌}
use native.Mathlib.Omega.{arith}

abbrev pub flip : Ordering → Ordering
flip Ordering.lt = Ordering.gt
flip Ordering.eq = Ordering.eq
flip Ordering.gt = Ordering.lt

-- `a.then_with(|| b)`.
abbrev pub then_with : Ordering → Ordering → Ordering
then_with Ordering.lt o = Ordering.lt
then_with Ordering.eq o = o
then_with Ordering.gt o = Ordering.gt

pub record IsTotalOrder {ℓ} {A : Type ℓ} (cmp : A → A → Ordering) : Type ℓ where
  pub swapped : (a b : A) → cmp b a ≡ flip (cmp a b)
  pub trans : (a b c : A) → cmp a b ≢ Ordering.gt → cmp b c ≢ Ordering.gt → cmp a c ≢ Ordering.gt

-- The order of a field, and one order after another.
abbrev pub by {ℓ κ} : {A : Type ℓ} {B : Type κ} → (A → B) → (B → B → Ordering) → A → A → Ordering
by f cmp a b = cmp (f a) (f b)

abbrev pub lex {ℓ} : {A : Type ℓ} → (A → A → Ordering) → (A → A → Ordering) → A → A → Ordering
lex c d a b = then_with (c a b) (d a b)

abbrev pub list_cmp : List ℕ → List ℕ → Ordering
list_cmp [] [] = Ordering.eq
list_cmp [] (b ∷ s) = Ordering.lt
list_cmp (a ∷ r) [] = Ordering.gt
list_cmp (a ∷ r) (b ∷ s) = then_with (compare a b) (list_cmp r s)

pub compare-IsTotalOrder : IsTotalOrder {A = ℕ} compare
compare-IsTotalOrder = record { swapped = λ a b. ground arith; trans = λ a b c p q. ground arith }

pub by-IsTotalOrder {ℓ κ} :
    {A : Type ℓ} {B : Type κ} (f : A → B) {cmp : B → B → Ordering}
    → IsTotalOrder cmp
    → IsTotalOrder (by f cmp)
by-IsTotalOrder f t = record {
  swapped = λ a b. t.swapped (f a) (f b);
  trans = λ a b c. t.trans (f a) (f b) (f c);
}

pub lex-IsTotalOrder {ℓ} :
    {A : Type ℓ} {c d : A → A → Ordering} → IsTotalOrder c → IsTotalOrder d → IsTotalOrder (lex c d)
lex-IsTotalOrder {c} {d} s t = record {
  swapped = λ x y. ground (arith, s.swapped x y, t.swapped x y);
  trans = λ x y z p q. ground (
    arith,
    s.trans x y z,
    s.trans y z x,
    s.trans z x y,
    s.swapped x y,
    s.swapped y z,
    s.swapped x z,
    t.trans x y z,
  );
}
