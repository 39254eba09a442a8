-- ===== src/Prelude/Entries.antt =====
-- More of `HashMap`: what holds of every entry, and the number of entries.
use Prim.Native.Nat.{◌≤◌, ◌<◌}
use mathlib.Core.Path.{◌≡◌, sym, subst}
use mathlib.Core.Logic.{◌≢◌, ◌⊎◌, inl, inr, if_pos, if_neg}
use mathlib.Core.Bool.{Bool, true}
use mathlib.Core.List.{[], ◌∷◌}
use native.Mathlib.Omega.{arith}
use trust_system.Prelude.Tests.{Bool-cases}
use trust_system.Prelude.Lists.{All, All-map, length}
use trust_system.Prelude.HashMap.{
  Map, lookup, insert, remove, retain, contains_key, lookup-insert, lookup-remove,
}

module _ {K V : Type 0} (dec : Discrete K) where
  pub contains-insert :
      (k j : K) (v : V) (m : Map K V)
      → (contains_key dec j m ≡ true) ⊎ (j ≡ k)
      → contains_key dec j (insert dec k v m) ≡ true
  contains-insert k j v m h = ground (arith, lookup-insert dec k j v m)

  pub contains-remove :
      (k j : K) (m : Map K V)
      → contains_key dec j m ≡ true
      → j ≢ k
      → contains_key dec j (remove dec k m) ≡ true
  contains-remove k j m h n = ground (arith, lookup-remove dec k j m)

  pub contains-cons :
      (j k : K) (w : V) (m : Map K V)
      → contains_key dec j m ≡ true
      → contains_key dec j ((k, w) ∷ m) ≡ true
  unfolding lookup
  contains-cons j k w m h = ground arith

  -- A map contains the keys of its entries.
  pub entries-contained : (m : Map K V) → All (λ e. contains_key dec e.0 m ≡ true) m
  unfolding lookup
  entries-contained [] = tt
  entries-contained ((k, w) ∷ m) =
      (ground arith, All-map (λ e h. contains-cons e.0 k w m h) m (entries-contained m))

  pub length-insert_present :
      (k : K) (v : V) (m : Map K V)
      → contains_key dec k m ≡ true
      → length (insert dec k v m) ≡ length m
  unfolding insert lookup
  length-insert_present k v [] h = absurd (cc)
  length-insert_present k v ((j, w) ∷ m) h = ground (arith, length-insert_present k v m)

  pub length-remove_le : (k : K) (m : Map K V) → length (remove dec k m) ≤ length m
  unfolding remove
  length-remove_le k [] = omega arith
  length-remove_le k ((j, w) ∷ m) = ground (arith, length-remove_le k m)

  pub length-remove_present :
      (k : K) (m : Map K V) → contains_key dec k m ≡ true → length (remove dec k m) < length m
  unfolding remove lookup
  length-remove_present k [] h = absurd (cc)
  length-remove_present k ((j, w) ∷ m) h =
      ground (arith, length-remove_present k m, length-remove_le k m)

  module _ (P : K → V → Type 0) where
    pub All-insert_entry :
        (k : K) (m : Map K V) (v : V)
        → All (λ e. P e.0 e.1) m
        → P k v
        → All (λ e. P e.0 e.1) (insert dec k v m)
    unfolding insert
    All-insert_entry k [] v h p = (p, tt)
    All-insert_entry k ((j, w) ∷ m) v h p = elim (dec j k) [
      | yes q ↦ rw (if_pos _ q) (subst (λ i. P i v) (sym q) p, h.1)
      | no q ↦ rw (if_neg _ q) (h.0, All-insert_entry k m v h.1 p)
    ]

    pub All-remove_entry :
        (k : K) (m : Map K V)
        → All (λ e. P e.0 e.1) m
        → All (λ e. P e.0 e.1 × (e.0 ≢ k)) (remove dec k m)
    unfolding remove
    All-remove_entry k [] h = tt
    All-remove_entry k ((j, w) ∷ m) h = elim (dec j k) [
      | yes q ↦ rw (if_pos _ q) (All-remove_entry k m h.1)
      | no q ↦ rw (if_neg _ q) ((h.0, q), All-remove_entry k m h.1)
    ]

module _ {K V : Type 0} (p : K → V → Bool) where
  pub All-retain :
      (P : K × V → Type 0) (m : Map K V)
      → All P m
      → All (λ e. P e × (p e.0 e.1 ≡ true)) (retain p m)
  All-retain P [] h = tt
  All-retain P ((k, v) ∷ m) h = elim (Bool-cases (p k v)) [
    | inl e ↦ rw (All, e) ((h.0, e), All-retain P m h.1)
    | inr e ↦ rw (All, e) (All-retain P m h.1)
  ]
