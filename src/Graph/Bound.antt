-- ===== src/Graph/Bound.antt =====
-- Why the search may stop at the goal: the edges out of expanded nodes are accounted for, and each
-- node that is not settled is far or has an entry in the heap, so that no walk beats the heap.
use trust_system.Prelude.{
  ℕ, ◌<◌, ◌≡◌, refl, sym, subst, ◌∙◌, ◌≢◌, ◌⊎◌, inl, inr, true, false, some, List, [], ◌∷◌, arith,
  ◌==◌, length, get_elem?, set, All, All-In, In, Bool-cases,
}
use trust_system.Prelude.Text.{Text}
use trust_system.Prelude.HashMap.{Map}
use trust_system.Prelude.Float.{Floats, Num, ◌<ᶠ◌, ◌≤ᶠ◌, ◌+ᶠ◌, zero_f, infinity, IsIeee}
use trust_system.Health.{HealthTracker}
use trust_system.Cost.{TenantCostModel}
use trust_system.Graph.{ToolGraph, SearchState, pop}
use trust_system.Graph.Walk.{EdgeTo, Walk, begin, go}
use trust_system.Graph.Heap.{pop_shape, pop-none, le_refl}
use trust_system.Graph.Potential.{Flags, mark}
use trust_system.Graph.Order.{get-set_self, get-set_ne}
use trust_system.Graph.Links.{get-lt, get-some}

module _ ⦃f : Floats⦄ where
  pub pop-In :
      (h : List SearchState) (t : SearchState) (o : List SearchState) (x : SearchState)
      → pop h ≡ some (t, o)
      → In x h
      → (x ≡ t) ⊎ In x o
  pop-In [] t o x e i = absurd i
  pop-In (y ∷ h) t o x e i = elim (pop_shape y h t o e) [
    | inl (n, p, q) ↦ elim i [
      | inl k ↦ inl (k ∙ sym p)
      | inr k ↦ absurd (subst (In x) (pop-none h n) k)
    ]
    | inr (z, zs, r, inl (_, p, q)) ↦ elim i [
      | inl k ↦ inr (subst (In x) (sym q) (inl k))
      | inr k ↦ elim (pop-In h z zs x r k) [
        | inl a ↦ inl (a ∙ sym p)
        | inr a ↦ inr (subst (In x) (sym q) (inr a))
      ]
    ]
    | inr (z, zs, r, inr (_, p, q)) ↦ elim i [
      | inl k ↦ inl (k ∙ sym p)
      | inr k ↦ elim (pop-In h z zs x r k) [
        | inl a ↦ inr (subst (In x) (sym q) (inl a))
        | inr a ↦ inr (subst (In x) (sym q) (inr a))
      ]
    ]
  ]

  module _ (ieee : IsIeee) (g : ToolGraph) (health : Map Text HealthTracker)
      (m : TenantCostModel) where
    -- An edge that no longer shortens the distance of its target.
    abbrev pub Closed : List Num → ℕ → ℕ → Num → Type 0
    Closed ds u v w =
        (du dv : Num) → get_elem? ds u ≡ some du → get_elem? ds v ≡ some dv → (dv ≤ᶠ du +ᶠ w) ≡ true

    pub record Bound (ds : List Num) (heap : List SearchState) (settled expanded : Flags)
        : Type 0 where
      pub expanded_settled : (u : ℕ) → expanded u ≡ true → settled u ≡ true
      pub closed :
          (u v : ℕ) (w : Num) → expanded u ≡ true → EdgeTo g health m u v w → Closed ds u v w
      pub live :
          (v : ℕ) (d : Num)
          → get_elem? ds v ≡ some d
          → settled v ≡ false
          → (d ≡ infinity) ⊎ ((x : SearchState) × In x heap × (x.node ≡ v) × (x.cost ≡ d))

    pub skip-Bound :
        (ds : List Num) (heap : List SearchState) (settled expanded : Flags) (t : SearchState)
        (o : List SearchState) (best : Num)
        → pop heap ≡ some (t, o)
        → get_elem? ds t.node ≡ some best
        → (best <ᶠ t.cost) ≡ true
        → (zero_f ≤ᶠ best) ≡ true
        → Bound ds heap settled expanded
        → Bound ds o settled expanded
    skip-Bound ds heap settled expanded t o best e q b z i = record {
      expanded_settled = i.expanded_settled;
      closed = i.closed;
      live = λ v d k s. elim (i.live v d k s) [
        | inl a ↦ inl a
        | inr (x, j, xv, xd) ↦ elim (pop-In heap t o x e j) [
          | inr j' ↦ inr (x, j', xv, xd)
          | inl same ↦ absurd (ground (arith, ieee.not_le_of_lt best best, le_refl ieee best z))
        ]
      ];
    }

    pub settle-Bound :
        (ds : List Num) (heap : List SearchState) (settled : Flags) (t : SearchState)
        (o : List SearchState)
        → pop heap ≡ some (t, o)
        → Bound ds heap settled settled
        → Bound ds o (mark t.node settled) settled
    settle-Bound ds heap settled t o e i = record {
      expanded_settled = λ u h. ground arith;
      closed = i.closed;
      live = λ v d k s. elim (i.live v d k (ground arith)) [
        | inl a ↦ inl a
        | inr (x, j, xv, xd) ↦ elim (pop-In heap t o x e j) [
          | inr j' ↦ inr (x, j', xv, xd)
          | inl same ↦ absurd (ground arith)
        ]
      ];
    }

    pub improve-Bound :
        (ds : List Num) (heap : List SearchState) (settled expanded : Flags) (target : ℕ)
        (next old : Num)
        → get_elem? ds target ≡ some old
        → (next <ᶠ old) ≡ true
        → settled target ≡ false
        → Bound ds heap settled expanded
        → Bound (set ds target next) (record { node = target; cost = next } ∷ heap) settled expanded
    improve-Bound ds heap settled expanded target next old q l s i = record {
      expanded_settled = i.expanded_settled;
      closed = λ u v w h edge du dv eu ev.
          let nu : u ≢ target = λ r. ground (arith, i.expanded_settled u h) in
          let eu' = sym (get-set_ne ds target u next nu) ∙ eu in
          elim (Bool-cases (v == target)) [
            | inl p ↦
                let r : v ≡ target = ground arith in
                let new : dv ≡ next =
                  get-set_self ds target next dv
                    (subst (λ j. get_elem? (set ds target next) j ≡ some dv) r ev) in
                rw new (
                  ieee.le_trans next old (du +ᶠ w) (ieee.le_of_lt next old l)
                    (i.closed u v w h edge du old eu' (rw r q)))
            | inr p ↦
                let nv : v ≢ target = λ r. ground arith in
                i.closed u v w h edge du dv eu' (sym (get-set_ne ds target v next nv) ∙ ev)
          ];
      live = λ v d k t. elim (Bool-cases (v == target)) [
        | inl p ↦
            let r : v ≡ target = ground arith in
            let new : d ≡ next =
              get-set_self ds target next d
                (subst (λ j. get_elem? (set ds target next) j ≡ some d) r k) in
            inr (record { node = target; cost = next }, inl refl, sym r, sym new)
        | inr p ↦
            let nv : v ≢ target = λ r. ground arith in
            elim (i.live v d (sym (get-set_ne ds target v next nv) ∙ k) t) [
              | inl a ↦ inl a
              | inr (x, j, xv, xd) ↦ inr (x, inr j, xv, xd)
            ]
      ];
    }

    -- No walk to a node that is not settled costs less than every entry of the heap.
    module _ (start : ℕ) (ds : List Num) (heap : List SearchState) (settled : Flags) (c : Num)
        (nonneg : (u v : ℕ) (w : Num) → EdgeTo g health m u v w → (zero_f ≤ᶠ w) ≡ true)
        (dl : length ds ≡ length g.id_to_node) (zc : (zero_f ≤ᶠ c) ≡ true)
        (least : All (λ x. (c ≤ᶠ x.cost) ≡ true) heap)
        (start_zero : get_elem? ds start ≡ some zero_f)
        (dist_nonneg : (v : ℕ) (d : Num) → get_elem? ds v ≡ some d → (zero_f ≤ᶠ d) ≡ true)
        (i : Bound ds heap settled settled) where
      abbrev pub Beaten : ℕ → Num → Type 0
      Beaten v d =
          ((settled v ≡ true) × (dv : Num) × (get_elem? ds v ≡ some dv) × ((dv ≤ᶠ d) ≡ true))
          ⊎ ((c ≤ᶠ d) ≡ true)

      reached_by : (v : ℕ) (dv d : Num) → get_elem? ds v ≡ some dv → (dv ≤ᶠ d) ≡ true → Beaten v d
      reached_by v dv d e l = elim (Bool-cases (settled v)) [
        | inl s ↦ inl (s, dv, e, l)
        | inr s ↦ elim (i.live v dv e s) [
          | inl far ↦ inr (ieee.le_trans c dv d (rw far (ieee.le_infinity c zc)) l)
          | inr (x, j, _, xd) ↦
              inr
                (ieee.le_trans c dv d (subst (λ y. (c ≤ᶠ y) ≡ true) xd (All-In _ x heap least j)) l)
        ]
      ]

      pub Walk-Beaten :
          {v : ℕ} {d : Num} {path : List ℕ} → Walk g health m start v d path → Beaten v d
      Walk-Beaten {v} {d} (begin e z p) =
          reached_by v zero_f d (rw e start_zero) (rw z ieee.zero_le_zero)
      Walk-Beaten {v} {d} (go {u} {c = cu} {w} before edge sum p) = elim (Walk-Beaten before) [
        | inr l ↦ inr (
            rw sum (
              ieee.le_trans c cu (cu +ᶠ w) l
                (ieee.le-add cu w (ieee.le_trans zero_f c cu zc l) (nonneg u v w edge))))
        | inl (s, du, eu, l) ↦
            let (dv, ev) =
              get-some ds v
                (subst (λ n. v < n) (sym dl) (get-lt g.id_to_node v edge.name edge.name_of)) in
            reached_by v dv d ev (
              rw sum (
                ieee.le_trans dv (du +ᶠ w) (cu +ᶠ w) (i.closed u v w s edge du dv eu ev)
                  (ieee.add_mono du cu w (dist_nonneg u du eu) (nonneg u v w edge) l)))
      ]
