-- ===== src/Graph/Links.antt =====
-- The `previous` links of the search: a reached node was reached from a settled one by an edge, and
-- the links lead to nodes that were settled earlier. `level` is the number of nodes that were not
-- settled yet when a node was.
use trust_system.Prelude.{
  ℕ, zero, suc, ◌+◌, ◌≤◌, ◌<◌, ◌≡◌, refl, sym, ◌∙◌, ◌≢◌, ◌⊎◌, inl, inr, true, false, some, List, [],
  ◌∷◌, arith, ◌==◌, if◌then◌else◌, length, get_elem?, set, replicate, All, Bool-cases,
}
use trust_system.Prelude.Text.{Text}
use trust_system.Prelude.Words.{u32_max}
use trust_system.Prelude.HashMap.{Map}
use trust_system.Prelude.Float.{Floats, Num, ◌+ᶠ◌, zero_f}
use trust_system.Health.{HealthTracker}
use trust_system.Cost.{TenantCostModel}
use trust_system.Graph.{ToolGraph, SearchState, pop}
use trust_system.Graph.Walk.{EdgeTo}
use trust_system.Graph.Heap.{pop-All}
use trust_system.Graph.Potential.{
  Flags, mark, unset_sum, unset_sum-mark, unset_count-le, get_elem?-replicate,
}
use trust_system.Graph.Order.{get-set_ne}

pub get-set_here :
    {A : Type 0} (xs : List A) (i : ℕ) (v : A) → i < length xs → get_elem? (set xs i v) i ≡ some v
get-set_here [] i v h = absurd (omega arith)
get-set_here (x ∷ xs) zero v h = refl
get-set_here (x ∷ xs) (suc i) v h = get-set_here xs i v (omega arith)

pub get-some :
    {A : Type 0} (xs : List A) (i : ℕ) → i < length xs → (a : A) × (get_elem? xs i ≡ some a)
get-some [] i h = absurd (omega arith)
get-some (x ∷ xs) zero h = (x, refl)
get-some (x ∷ xs) (suc i) h = get-some xs i (omega arith)

pub get-lt : {A : Type 0} (xs : List A) (i : ℕ) (a : A) → get_elem? xs i ≡ some a → i < length xs
get-lt [] i a e = absurd (cc)
get-lt (x ∷ xs) zero a e = omega arith
get-lt (x ∷ xs) (suc i) a e = omega (arith, get-lt xs i a e)

abbrev pub unset_count : Flags → ℕ → ℕ
unset_count settled n = unset_sum settled (replicate n 1)

pub count-mark :
    (settled : Flags) (n u : ℕ)
    → u < n
    → settled u ≡ false
    → unset_count (mark u settled) n + 1 ≡ unset_count settled n
count-mark settled n u h p =
    unset_sum-mark settled (replicate n 1) u 1 (get_elem?-replicate n u h) p

module _ ⦃f : Floats⦄ (g : ToolGraph) (health : Map Text HealthTracker) (m : TenantCostModel)
    (start : ℕ) where
  pub record Linked (ds : List Num) (previous : List ℕ) (settled : Flags) (level : ℕ → ℕ) (v : ℕ)
      : Type 0 where
    pub before : ℕ
    pub w : Num
    pub far_before : Num
    pub far : Num
    pub previous_of : get_elem? previous v ≡ some before
    pub settled_before : settled before ≡ true
    pub dist_before : get_elem? ds before ≡ some far_before
    pub dist : get_elem? ds v ≡ some far
    pub sum : far ≡ far_before +ᶠ w
    pub edge : EdgeTo g health m before v w
    pub lower : settled v ≡ true → level v < level before

  abbrev pub Unreached : List ℕ → List SearchState → Flags → ℕ → Type 0
  Unreached previous heap settled v =
      (get_elem? previous v ≡ some u32_max) × (settled v ≡ false) × All (λ x. x.node ≢ v) heap

  pub record Links (ds : List Num) (previous : List ℕ) (heap : List SearchState) (settled : Flags)
      (level : ℕ → ℕ) : Type 0 where
    pub start_zero : get_elem? ds start ≡ some zero_f
    pub link :
        (v : ℕ)
        → v < length g.id_to_node
        → v ≢ start
        → Unreached previous heap settled v ⊎ Linked ds previous settled level v
    pub levels :
        (v : ℕ)
        → settled v ≡ true
        → (v < length g.id_to_node)
          × (unset_count settled (length g.id_to_node) ≤ level v)
          × (level v < length g.id_to_node)

  pub pop-Links :
      (ds : List Num) (previous : List ℕ) (heap : List SearchState) (settled : Flags)
      (level : ℕ → ℕ) (t : SearchState) (o : List SearchState)
      → pop heap ≡ some (t, o)
      → Links ds previous heap settled level
      → Links ds previous o settled level
  pop-Links ds previous heap settled level t o e i = record {
    start_zero = i.start_zero;
    link = λ v h n. elim (i.link v h n) [
      | inl (p, s, a) ↦ inl (p, s, (pop-All (λ x. x.node ≢ v) heap t o e a).1)
      | inr l ↦ inr l
    ];
    levels = i.levels;
  }

  abbrev pub level_after : Flags → (ℕ → ℕ) → ℕ → ℕ → ℕ
  level_after settled level u v =
      if v == u then unset_count (mark u settled) (length g.id_to_node) else level v

  pub settle-Links :
      (ds : List Num) (previous : List ℕ) (heap : List SearchState) (settled : Flags)
      (level : ℕ → ℕ) (t : SearchState) (o : List SearchState)
      → pop heap ≡ some (t, o)
      → t.node < length g.id_to_node
      → settled t.node ≡ false
      → Links ds previous heap settled level
      → Links ds previous o (mark t.node settled) (level_after settled level t.node)
  settle-Links ds previous heap settled level t o e b p i =
      let n = length g.id_to_node in
      let counted = count-mark settled n t.node b p in
      record {
        start_zero = i.start_zero;
        link = λ v h k. elim (i.link v h k) [
          | inl (q, s, a) ↦
              let (ne, a') = pop-All (λ x. x.node ≢ v) heap t o e a in
              inl (q, ground (arith, ne), a')
          | inr l ↦
              let old = (i.levels l.before l.settled_before).1 in
              let apart : l.before ≢ t.node = λ q. ground (arith, l.settled_before) in
              inr (record {
                before = l.before;
                w = l.w;
                far_before = l.far_before;
                far = l.far;
                previous_of = l.previous_of;
                settled_before = ground (arith, l.settled_before);
                dist_before = l.dist_before;
                dist = l.dist;
                sum = l.sum;
                edge = l.edge;
                lower = λ s. ground (arith, l.lower, counted, old, apart);
              })
        ];
        levels = λ v s. elim (Bool-cases (v == t.node)) [
          | inl q ↦
              let r : v ≡ t.node = ground arith in
              (rw r b, ground arith, ground (arith, counted, unset_count-le settled n))
          | inr q ↦
              let (x, y, z) = i.levels v (ground arith) in
              (x, ground (arith, counted, y), ground (arith, z))
        ];
      }

  pub improve-Links :
      (ds : List Num) (previous : List ℕ) (heap : List SearchState) (settled : Flags)
      (level : ℕ → ℕ) (u target : ℕ) (cost w old : Num)
      → length ds ≡ length g.id_to_node
      → length previous ≡ length g.id_to_node
      → get_elem? ds target ≡ some old
      → target ≢ start
      → settled target ≡ false
      → settled u ≡ true
      → get_elem? ds u ≡ some cost
      → EdgeTo g health m u target w
      → Links ds previous heap settled level
      → Links
          (set ds target (cost +ᶠ w))
          (set previous target u)
          (record { node = target; cost = cost +ᶠ w } ∷ heap)
          settled
          level
  improve-Links ds previous heap settled level u target cost w old dl pl d ns p su du edge i =
      let room : target < length g.id_to_node = omega (arith, get-lt ds target old d) in
      record {
        start_zero = get-set_ne ds target start (cost +ᶠ w) (λ e. ns (sym e)) ∙ i.start_zero;
        link = λ v h k. elim (Bool-cases (v == target)) [
          | inl q ↦
              let r : v ≡ target = ground arith in
              inr (record {
                before = u;
                w = w;
                far_before = cost;
                far = cost +ᶠ w;
                previous_of = rw r (get-set_here previous target u (omega (arith, room, pl)));
                settled_before = su;
                dist_before = get-set_ne ds target u (cost +ᶠ w) (λ e. ground arith) ∙ du;
                dist = rw r (get-set_here ds target (cost +ᶠ w) (omega (arith, room, dl)));
                sum = refl;
                edge = rw r edge;
                lower = λ s. absurd (ground arith);
              })
          | inr q ↦
              let ne : v ≢ target = λ e. ground arith in
              elim (i.link v h k) [
                | inl (a, s, b) ↦
                    inl (get-set_ne previous target v u ne ∙ a, s, ((λ e. ne (sym e)), b))
                | inr l ↦ inr (record {
                  before = l.before;
                  w = l.w;
                  far_before = l.far_before;
                  far = l.far;
                  previous_of = get-set_ne previous target v u ne ∙ l.previous_of;
                  settled_before = l.settled_before;
                  dist_before =
                      get-set_ne ds target l.before (cost +ᶠ w)
                        (λ e. ground (arith, l.settled_before))
                      ∙ l.dist_before;
                  dist = get-set_ne ds target v (cost +ᶠ w) ne ∙ l.dist;
                  sum = l.sum;
                  edge = l.edge;
                  lower = l.lower;
                })
              ]
        ];
        levels = i.levels;
      }
