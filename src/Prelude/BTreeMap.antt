-- ===== src/Prelude/BTreeMap.antt =====
-- A `BTreeMap` as its entries in the order of their keys, and a `BTreeSet` as such a map to units.
use Prim.Native.Nat.{ℕ, compare, Ordering}
use mathlib.Core.Path.{◌≡◌, refl}
use mathlib.Core.Logic.{◌≢◌, ◌↔◌}
use mathlib.Core.Bool.{Bool, true, false}
use mathlib.Core.Option.{Option, none, some}
use mathlib.Core.List.{List, [], ◌∷◌}
use native.Mathlib.Omega.{arith}
use trust_system.Prelude.Order.{flip, list_cmp, IsTotalOrder}

-- A key type: `Ord` whose `Equal` is equality.
pub record IsKeyOrder {ℓ} {K : Type ℓ} (cmp : K → K → Ordering) : Type ℓ where
  pub eq_iff : (a b : K) → (cmp a b ≡ Ordering.eq) ↔ (a ≡ b)
  pub swapped : (a b : K) → cmp b a ≡ flip (cmp a b)
  pub lt_trans : (a b c : K) → cmp a b ≡ Ordering.lt → cmp b c ≡ Ordering.lt → cmp a c ≡ Ordering.lt

module _ {ℓ} {K V : Type ℓ} (cmp : K → K → Ordering) where
  unfoldable pub get : K → List (K × V) → Option V
  get k [] = none
  get k ((j, v) ∷ m) = elim (cmp k j) [ Ordering.eq ↦ some v | _ ↦ get k m ]

  unfoldable pub insert : K → V → List (K × V) → List (K × V)
  insert k v [] = (k, v) ∷ []
  insert k v ((j, w) ∷ m) = elim (cmp k j) [
    | Ordering.lt ↦ (k, v) ∷ (j, w) ∷ m
    | Ordering.eq ↦ (j, v) ∷ m
    | Ordering.gt ↦ (j, w) ∷ insert k v m
  ]

  unfoldable pub remove : K → List (K × V) → List (K × V)
  remove k [] = []
  remove k ((j, w) ∷ m) = elim (cmp k j) [ Ordering.eq ↦ m | _ ↦ (j, w) ∷ remove k m ]

  abbrev pub contains_key : K → List (K × V) → Bool
  contains_key k m = elim (get k m) [ none ↦ false | some _ ↦ true ]

  pub get-insert_self :
      IsKeyOrder cmp → (k : K) (v : V) (m : List (K × V)) → get k (insert k v m) ≡ some v
  unfolding get insert
  get-insert_self o k v [] = ground (arith, o.eq_iff k k)
  get-insert_self o k v ((j, w) ∷ m) = ground (arith, o.eq_iff k k, get-insert_self o k v m)

  pub get-insert_ne :
      IsKeyOrder cmp → (k j : K) (v : V) (m : List (K × V)) → j ≢ k → get j (insert k v m) ≡ get j m
  unfolding get insert
  get-insert_ne o k j v [] h = ground (arith, o.eq_iff j k)
  get-insert_ne o k j v ((i, w) ∷ m) h =
      ground (arith, o.eq_iff j k, o.eq_iff k i, o.eq_iff j i, get-insert_ne o k j v m)

-- Each key is less than those behind it.
abbrev pub KeysFrom {ℓ} : {K V : Type ℓ} → (K → K → Ordering) → K → List (K × V) → Type ℓ
KeysFrom cmp k [] = Unit
KeysFrom cmp k ((j, v) ∷ m) = (cmp k j ≡ Ordering.lt) × KeysFrom cmp k m

abbrev pub Sorted {ℓ} : {K V : Type ℓ} → (K → K → Ordering) → List (K × V) → Type ℓ
Sorted cmp [] = Unit
Sorted cmp ((k, v) ∷ m) = KeysFrom cmp k m × Sorted cmp m

module _ {ℓ} {K V : Type ℓ} {cmp : K → K → Ordering} (o : IsKeyOrder cmp) where
  pub KeysFrom-trans :
      (k j : K) (m : List (K × V)) → cmp k j ≡ Ordering.lt → KeysFrom cmp j m → KeysFrom cmp k m
  KeysFrom-trans k j [] e h = tt
  KeysFrom-trans k j ((i, v) ∷ m) e h = (o.lt_trans k j i e h.0, KeysFrom-trans k j m e h.1)

  pub get-KeysFrom : (k : K) (m : List (K × V)) → KeysFrom cmp k m → get cmp k m ≡ none
  unfolding get
  get-KeysFrom k [] h = refl
  get-KeysFrom k ((j, v) ∷ m) h = ground (arith, get-KeysFrom k m h.1)

  KeysFrom-insert :
      (j k : K) (v : V) (m : List (K × V))
      → cmp j k ≡ Ordering.lt
      → KeysFrom cmp j m
      → KeysFrom cmp j (insert cmp k v m)
  unfolding insert
  KeysFrom-insert j k v [] e h = (e, tt)
  KeysFrom-insert j k v ((i, w) ∷ m) e h = ground (arith, KeysFrom-insert j k v m e h.1)

  pub insert-Sorted :
      (k : K) (v : V) (m : List (K × V)) → Sorted cmp m → Sorted cmp (insert cmp k v m)
  unfolding insert
  insert-Sorted k v [] h = (tt, tt)
  insert-Sorted k v ((j, w) ∷ m) h =
      ground (
        arith,
        insert-Sorted k v m h.1,
        KeysFrom-trans k j m,
        KeysFrom-insert j k v m,
        o.swapped k j,
      )

  KeysFrom-remove :
      (j k : K) (m : List (K × V)) → KeysFrom cmp j m → KeysFrom cmp j (remove cmp k m)
  unfolding remove
  KeysFrom-remove j k [] h = tt
  KeysFrom-remove j k ((i, w) ∷ m) h = ground (arith, KeysFrom-remove j k m h.1)

  pub remove-Sorted : (k : K) (m : List (K × V)) → Sorted cmp m → Sorted cmp (remove cmp k m)
  unfolding remove
  remove-Sorted k [] h = tt
  remove-Sorted k ((j, w) ∷ m) h = ground (arith, remove-Sorted k m h.1, KeysFrom-remove j k m h.0)

  pub get-remove_self :
      (k : K) (m : List (K × V)) → Sorted cmp m → get cmp k (remove cmp k m) ≡ none
  unfolding get remove
  get-remove_self k [] h = refl
  get-remove_self k ((j, w) ∷ m) h =
      ground (arith, o.eq_iff k j, get-remove_self k m h.1, get-KeysFrom j m h.0)

  pub get-remove_ne :
      (k j : K) (m : List (K × V)) → j ≢ k → get cmp j (remove cmp k m) ≡ get cmp j m
  unfolding get remove
  get-remove_ne k j [] h = refl
  get-remove_ne k j ((i, w) ∷ m) h =
      ground (arith, o.eq_iff k i, o.eq_iff j i, get-remove_ne k j m h)

pub compare-IsKeyOrder : IsKeyOrder {K = ℕ} compare
compare-IsKeyOrder = record {
  eq_iff = λ a b. ground arith;
  swapped = λ a b. ground arith;
  lt_trans = λ a b c p q. ground arith;
}

list_cmp_refl : (a : List ℕ) → list_cmp a a ≡ Ordering.eq
list_cmp_refl [] = refl
list_cmp_refl (x ∷ a) = ground (arith, list_cmp_refl a)

list_cmp_eq : (a b : List ℕ) → list_cmp a b ≡ Ordering.eq → a ≡ b
list_cmp_eq [] [] h = refl
list_cmp_eq [] (y ∷ b) h = absurd (cc)
list_cmp_eq (x ∷ a) [] h = absurd (cc)
list_cmp_eq (x ∷ a) (y ∷ b) h = ground (arith, list_cmp_eq a b)

list_cmp_swapped : (a b : List ℕ) → list_cmp b a ≡ flip (list_cmp a b)
list_cmp_swapped [] [] = refl
list_cmp_swapped [] (y ∷ b) = refl
list_cmp_swapped (x ∷ a) [] = refl
list_cmp_swapped (x ∷ a) (y ∷ b) = ground (arith, list_cmp_swapped a b)

not_lt_nil : (b : List ℕ) → ¬ (list_cmp b [] ≡ Ordering.lt)
not_lt_nil [] e = cc
not_lt_nil (y ∷ b) e = cc

list_cmp_lt_trans :
    (a b c : List ℕ)
    → list_cmp a b ≡ Ordering.lt
    → list_cmp b c ≡ Ordering.lt
    → list_cmp a c ≡ Ordering.lt
list_cmp_lt_trans [] b [] p q = absurd (not_lt_nil b q)
list_cmp_lt_trans [] b (z ∷ c) p q = refl
list_cmp_lt_trans (x ∷ a) [] c p q = absurd (cc)
list_cmp_lt_trans (x ∷ a) (y ∷ b) [] p q = absurd (cc)
list_cmp_lt_trans (x ∷ a) (y ∷ b) (z ∷ c) p q = ground (arith, list_cmp_lt_trans a b c)

pub list_cmp-IsKeyOrder : IsKeyOrder list_cmp
list_cmp-IsKeyOrder = record {
  eq_iff = λ a b. (list_cmp_eq a b, λ e. ground (arith, list_cmp_refl a));
  swapped = list_cmp_swapped;
  lt_trans = list_cmp_lt_trans;
}

pub key-IsTotalOrder {ℓ} : {K : Type ℓ} {cmp : K → K → Ordering} → IsKeyOrder cmp → IsTotalOrder cmp
key-IsTotalOrder o = record {
  swapped = o.swapped;
  trans = λ a b c p q. ground (arith, o.eq_iff a b, o.eq_iff b c, o.lt_trans a b c, o.eq_iff a c);
}
