-- ===== src/Prelude/HashMap.antt =====
-- A `HashMap` as an association list: a key stands once, and an update keeps its place. The
-- iteration order of the program's map is unspecified; the one here is the order of insertion.
use Prim.Native.Nat.{◌+◌, ◌≤◌}
use mathlib.Core.Path.{◌≡◌, refl, subst}
use mathlib.Core.Logic.{ite, if_pos, if_neg}
use mathlib.Core.Bool.{Bool, true, false}
use mathlib.Core.Option.{Option, none, some, none-ne-some, some-injective}
use mathlib.Core.List.{List, [], ◌∷◌, map}
use native.Mathlib.Omega.{arith}
use trust_system.Prelude.Tests.{if◌then◌else◌}
use trust_system.Prelude.Lists.{All, length}

abbrev pub Map {ℓ} : Type ℓ → Type ℓ → Type ℓ
Map K V = List (K × V)

module _ {ℓ} {K V : Type ℓ} where
  abbrev pub keys : Map K V → List K
  keys = map (λ e. e.0)

  abbrev pub retain : (K → V → Bool) → Map K V → Map K V
  retain p [] = []
  retain p ((k, v) ∷ m) = if p k v then (k, v) ∷ retain p m else retain p m

  pub length-retain-le : (p : K → V → Bool) (m : Map K V) → length (retain p m) ≤ length m
  length-retain-le p [] = omega arith
  length-retain-le p ((k, v) ∷ m) = ground (arith, length-retain-le p m)

module _ {ℓ} {K V : Type ℓ} (dec : Discrete K) where
  unfoldable pub lookup : K → Map K V → Option V
  lookup k [] = none
  lookup k ((j, v) ∷ m) = ite (dec j k) (some v) (lookup k m)

  unfoldable pub insert : K → V → Map K V → Map K V
  insert k v [] = (k, v) ∷ []
  insert k v ((j, w) ∷ m) = ite (dec j k) ((j, v) ∷ m) ((j, w) ∷ insert k v m)

  unfoldable pub remove : K → Map K V → Map K V
  remove k [] = []
  remove k ((j, w) ∷ m) = ite (dec j k) (remove k m) ((j, w) ∷ remove k m)

  abbrev pub contains_key : K → Map K V → Bool
  contains_key k m = elim (lookup k m) [ none ↦ false | some _ ↦ true ]

  abbrev pub get_or_default : K → V → Map K V → V
  get_or_default k d m = elim (lookup k m) [ none ↦ d | some v ↦ v ]

  pub lookup-insert :
      (k j : K) (v : V) (m : Map K V)
      → lookup j (insert k v m) ≡ ite (dec k j) (some v) (lookup j m)
  unfolding lookup insert
  lookup-insert k j v [] = refl
  lookup-insert k j v ((i, w) ∷ m) = ground (arith, lookup-insert k j v m)

  pub lookup-remove :
      (k j : K) (m : Map K V) → lookup j (remove k m) ≡ ite (dec k j) none (lookup j m)
  unfolding lookup remove
  lookup-remove k j [] = ground arith
  lookup-remove k j ((i, w) ∷ m) = ground (arith, lookup-remove k j m)

  pub length-insert-le : (k : K) (v : V) (m : Map K V) → length (insert k v m) ≤ length m + 1
  unfolding insert
  length-insert-le k v [] = omega arith
  length-insert-le k v ((j, w) ∷ m) = ground (arith, length-insert-le k v m)

  pub length-remove-le : (k : K) (m : Map K V) → length (remove k m) ≤ length m
  unfolding remove
  length-remove-le k [] = omega arith
  length-remove-le k ((j, w) ∷ m) = ground (arith, length-remove-le k m)

  module _ {μ} (P : V → Type μ) where
    -- What holds of every value of a map holds of a value that is found, and is kept by each update.
    pub All-lookup : (k : K) (m : Map K V) (v : V) → All (λ e. P e.1) m → lookup k m ≡ some v → P v
    unfolding lookup
    All-lookup k [] v h e = absurd (none-ne-some v e)
    All-lookup k ((j, w) ∷ m) v h e = elim (dec j k) [
      | yes p ↦ subst P (some-injective w v (rw (if_pos _ p) at e)) h.0
      | no p ↦ All-lookup k m v h.1 (rw (if_neg _ p) at e)
    ]

    pub All-insert :
        (k : K) (m : Map K V) (v : V) → All (λ e. P e.1) m → P v → All (λ e. P e.1) (insert k v m)
    unfolding insert
    All-insert k [] v h p = (p, tt)
    All-insert k ((j, w) ∷ m) v h p = elim (dec j k) [
      | yes q ↦ rw (if_pos _ q) (p, h.1)
      | no q ↦ rw (if_neg _ q) (h.0, All-insert k m v h.1 p)
    ]

    pub All-remove : (k : K) (m : Map K V) → All (λ e. P e.1) m → All (λ e. P e.1) (remove k m)
    unfolding remove
    All-remove k [] h = tt
    All-remove k ((j, w) ∷ m) h = elim (dec j k) [
      | yes q ↦ rw (if_pos _ q) (All-remove k m h.1)
      | no q ↦ rw (if_neg _ q) (h.0, All-remove k m h.1)
    ]
