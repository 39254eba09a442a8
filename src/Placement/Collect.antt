-- ===== src/Placement/Collect.antt =====
-- `collect` into a `BTreeMap` or a `BTreeSet`: the entries are inserted in their order.
use trust_system.Prelude.{
  ◌≡◌, ◌∙◌, ◌≢◌, sym, ap, subst, ◌⊎◌, inl, inr, some, none, List, [], ◌∷◌, In, Ordering,
}
use mathlib.Core.Option.{some-injective, none-ne-some}
use trust_system.Prelude.BTreeMap
use trust_system.Prelude.BTreeMap.{IsKeyOrder, get-insert_self, get-insert_ne}

module _ {K V : Type 0} (cmp : K → K → Ordering) where
  unfoldable pub collect_into : List (K × V) → List (K × V) → List (K × V)
  collect_into m [] = m
  collect_into m ((k, v) ∷ xs) = collect_into (BTreeMap.insert cmp k v m) xs

  abbrev pub collect : List (K × V) → List (K × V)
  collect xs = collect_into [] xs

  module _ (dec : Discrete K) (o : IsKeyOrder cmp) where
    get_one :
        (k j : K) (v w : V) (m : List (K × V))
        → BTreeMap.get cmp k (BTreeMap.insert cmp j w m) ≡ some v
        → (◌≡◌ {A = K × V} (k, v) (j, w)) ⊎ (BTreeMap.get cmp k m ≡ some v)
    get_one k j v w m h = elim (dec k j) [
      | yes e ↦
          let q : some w ≡ some v =
            sym (get-insert_self cmp o j w m)
            ∙ subst (λ x. BTreeMap.get cmp x (BTreeMap.insert cmp j w m) ≡ some v) e h in
          inl (λ i. (e i, some-injective v w (sym q) i))
      | no n ↦ inr (sym (get-insert_ne cmp o j k w m n) ∙ h)
    ]

    -- What is found was among the entries.
    collect_into-In :
        (k : K) (v : V) (m xs : List (K × V))
        → BTreeMap.get cmp k (collect_into m xs) ≡ some v
        → In (k, v) xs ⊎ (BTreeMap.get cmp k m ≡ some v)
    unfolding collect_into
    collect_into-In k v m [] h = inr h
    collect_into-In k v m ((j, w) ∷ xs) h =
        elim (collect_into-In k v (BTreeMap.insert cmp j w m) xs h) [
          | inl i ↦ inl (inr i)
          | inr g ↦ elim (get_one k j v w m g) [ inl e ↦ inl (inl e) | inr g' ↦ inr g' ]
        ]

    pub collect-In :
        (k : K) (v : V) (xs : List (K × V))
        → BTreeMap.get cmp k (collect xs) ≡ some v
        → In (k, v) xs
    unfolding BTreeMap.get
    collect-In k v xs h = elim (collect_into-In k v [] xs h) [
      | inl i ↦ i
      | inr e ↦ absurd (none-ne-some v e)
    ]

    get-insert-some :
        (k j : K) (w : V) (m : List (K × V))
        → BTreeMap.get cmp k m ≢ none
        → BTreeMap.get cmp k (BTreeMap.insert cmp j w m) ≢ none
    get-insert-some k j w m h = elim (dec k j) [
      | yes e ↦ λ q. none-ne-some w (sym q ∙ rw e (get-insert_self cmp o j w m))
      | no n ↦ λ q. h (sym (get-insert_ne cmp o j k w m n) ∙ q)
    ]

    collect_into-keeps :
        (k : K) (m xs : List (K × V))
        → BTreeMap.get cmp k m ≢ none
        → BTreeMap.get cmp k (collect_into m xs) ≢ none
    unfolding collect_into
    collect_into-keeps k m [] h = h
    collect_into-keeps k m ((j, w) ∷ xs) h =
        collect_into-keeps k (BTreeMap.insert cmp j w m) xs (get-insert-some k j w m h)

    collect_into-finds :
        (k : K) (v : V) (m xs : List (K × V))
        → In (k, v) xs
        → BTreeMap.get cmp k (collect_into m xs) ≢ none
    unfolding collect_into
    collect_into-finds k v m [] i = absurd i
    collect_into-finds k v m ((j, w) ∷ xs) (inl e) =
        let q : k ≡ j = ap (λ x. x.0) e in
        collect_into-keeps k (BTreeMap.insert cmp j w m) xs
          (λ n. none-ne-some w (sym n ∙ rw q (get-insert_self cmp o j w m)))
    collect_into-finds k v m ((j, w) ∷ xs) (inr i) =
        collect_into-finds k v (BTreeMap.insert cmp j w m) xs i

    pub collect-finds :
        (k : K) (v : V) (xs : List (K × V)) → In (k, v) xs → BTreeMap.get cmp k (collect xs) ≢ none
    collect-finds k v xs i = collect_into-finds k v [] xs i
