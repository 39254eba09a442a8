-- ===== src/Prelude/Keys.antt =====
-- More of `BTreeMap`: the keys of several fields, and what holds of every entry.
use Prim.Native.Nat.{Ordering}
use mathlib.Core.Path.{◌≡◌, refl, sym, subst}
use mathlib.Core.Logic.{◌⊎◌, inl, inr}
use mathlib.Core.Option.{some, none-ne-some, some-injective}
use mathlib.Core.List.{List, [], ◌∷◌}
use native.Mathlib.Omega.{arith}
use trust_system.Prelude.Lists.{All}
use trust_system.Prelude.Order.{by, lex}
use trust_system.Prelude.BTreeMap.{IsKeyOrder, get, insert}

-- Two fields that make up a key are ordered one after the other.
pub lex-IsKeyOrder {ℓ} :
    {K A B : Type ℓ} (p : K → A) (q : K → B) {c : A → A → Ordering} {d : B → B → Ordering}
    → ((x y : K) → p x ≡ p y → q x ≡ q y → x ≡ y)
    → IsKeyOrder c
    → IsKeyOrder d
    → IsKeyOrder (lex (by p c) (by q d))
lex-IsKeyOrder p q inj s t = record {
  eq_iff = λ x y. (
    λ e. inj x y (ground (arith, s.eq_iff (p x) (p y))) (ground (arith, t.eq_iff (q x) (q y))),
    λ e. rw e (ground (arith, s.eq_iff (p y) (p y), t.eq_iff (q y) (q y))),
  );
  swapped = λ x y. ground (arith, s.swapped (p x) (p y), t.swapped (q x) (q y));
  lt_trans = λ x y z g h. ground (
    arith,
    s.lt_trans (p x) (p y) (p z),
    t.lt_trans (q x) (q y) (q z),
    s.eq_iff (p x) (p y),
    s.eq_iff (p y) (p z),
    s.eq_iff (p x) (p z),
  );
}

three_ways : (c : Ordering) → (c ≡ Ordering.lt) ⊎ ((c ≡ Ordering.eq) ⊎ (c ≡ Ordering.gt))
three_ways Ordering.lt = inl refl
three_ways Ordering.eq = inr (inl refl)
three_ways Ordering.gt = inr (inr refl)

module _ {ℓ κ} {K V : Type ℓ} {cmp : K → K → Ordering} (o : IsKeyOrder cmp)
    (P : K → V → Type κ) where
  pub All-insert :
      (k : K) (v : V) (m : List (K × V))
      → P k v
      → All (λ e. P e.0 e.1) m
      → All (λ e. P e.0 e.1) (insert cmp k v m)
  unfolding insert
  All-insert k v [] p h = unfold insert in (p, tt)
  All-insert k v ((j, w) ∷ m) p h = elim (three_ways (cmp k j)) [
    | inl e ↦ rw (All, insert, e) (p, h)
    | inr (inl e) ↦ rw (All, insert, e) (subst (λ i. P i v) ((o.eq_iff k j).0 e) p, h.1)
    | inr (inr e) ↦ rw (All, insert, e) (h.0, All-insert k v m p h.1)
  ]

  pub All-get :
      (k : K) (v : V) (m : List (K × V)) → All (λ e. P e.0 e.1) m → get cmp k m ≡ some v → P k v
  unfolding get
  All-get k v [] h e = unfold get in absurd (none-ne-some v e)
  All-get k v ((j, w) ∷ m) h e = elim (three_ways (cmp k j)) [
    | inl c ↦ All-get k v m h.1 (rw (get, c) at e)
    | inr (inl c) ↦
        subst (P k) (some-injective w v (rw (get, c) at e))
          (subst (λ i. P i w) (sym ((o.eq_iff k j).0 c)) h.0)
    | inr (inr c) ↦ All-get k v m h.1 (rw (get, c) at e)
  ]
