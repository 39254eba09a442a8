-- ===== src/Graph/Added.antt =====
-- src/lib.rs, `ToolGraph::add_edge`: what is found in the graph that it leaves.
use trust_system.Prelude.{
  ℕ, zero, suc, ◌+◌, ◌≤◌, ◌≡◌, refl, ap, sym, subst, ◌∙◌, ◌⊎◌, inl, inr, none, some, List, [], ◌∷◌,
  ◌++◌, arith, ◌%◌, ◌^◌, length, get_elem?, ◌==◌, if◌then◌else◌, Option-cases,
}
use mathlib.Core.List.{append-nil}
use mathlib.Core.Option.{some-injective}
use trust_system.Prelude.Text.{Text, text_dec}
use trust_system.Prelude.Words.{u32_max}
use trust_system.Prelude.HashMap
use trust_system.Prelude.HashMap.{lookup-insert}
use trust_system.Prelude.Float.{Floats}
use trust_system.Cost.{Edge}
use trust_system.Cost.Bounds.{index_edge}
use trust_system.Graph.{ToolGraph, empty_graph, push_at, get_or_insert_node, add_edge}
use trust_system.Graph.Links.{get-lt}
use trust_system.Graph.Answer.{IsInterned}
use trust_system.Graph.Intern.{
  push_at-some, Extends, get_or_insert_node-IsInterned, add_edge_steps, add_edge-IsInterned,
}

-- The row of a list of rows, empty out of range.
abbrev pub row {ℓ} : {A : Type ℓ} → List (List A) → ℕ → List A
row [] k = []
row (r ∷ rows) zero = r
row (r ∷ rows) (suc k) = row rows k

-- What is pushed on one row, as seen at each.
abbrev pub pushed : {A : Type 0} → ℕ → A → ℕ → List A
pushed i a k = if k == i then a ∷ [] else []

pushed-suc : {A : Type 0} (i : ℕ) (a : A) (k : ℕ) → pushed (suc i) a (suc k) ≡ pushed i a k
pushed-suc i a k = ground arith

row-below :
    {A : Type 0} (i : ℕ) (a : A) (r : List A) (rows rows' : List (List A)) (k : ℕ)
    → ((j : ℕ) → row rows' j ≡ row rows j ++ pushed i a j)
    → row (r ∷ rows') k ≡ row (r ∷ rows) k ++ pushed (suc i) a k
row-below i a r rows rows' zero h =
    let e : pushed (suc i) a zero ≡ [] = ground arith in rw (e, append-nil) refl
row-below i a r rows rows' (suc k) h = rw (pushed-suc i a k) (h k)

push_at-row :
    {A : Type 0} (i : ℕ) (a : A) (rows rows' : List (List A)) (k : ℕ)
    → push_at i a rows ≡ some rows'
    → row rows' k ≡ row rows k ++ pushed i a k
unfolding push_at
push_at-row i a [] rows' k e = absurd (cc)
push_at-row zero a (r ∷ rows) rows' zero e = rw (← some-injective _ _ e) refl
push_at-row zero a (r ∷ rows) rows' (suc k) e =
    let q : pushed zero a (suc k) ≡ [] = ground arith in
    rw (← some-injective _ _ e, q) (sym (append-nil (row rows k)))
push_at-row (suc i) a (r ∷ rows) rows' k e = elim (Option-cases (push_at i a rows)) [
  | inl n ↦ absurd (ground arith)
  | inr (rs, q) ↦
      let same : r ∷ rs ≡ rows' = ground (arith, e, q) in
      subst (λ l. row l k ≡ row (r ∷ rows) k ++ pushed (suc i) a k) same
        (row-below i a r rows rs k (λ j. push_at-row i a rows rs j q))
]

row-grown : {A : Type 0} (rows : List (List A)) (k : ℕ) → row (rows ++ [] ∷ []) k ≡ row rows k
row-grown [] zero = refl
row-grown [] (suc k) = refl
row-grown (r ∷ rows) zero = refl
row-grown (r ∷ rows) (suc k) = row-grown rows k

-- An entry of a list with one more is one of the list, or the last.
get-grown :
    {A : Type 0} (xs : List A) (a x : A) (i : ℕ)
    → get_elem? (xs ++ a ∷ []) i ≡ some x
    → (get_elem? xs i ≡ some x) ⊎ ((i ≡ length xs) × (x ≡ a))
get-grown [] a x zero e = inr (refl, sym (some-injective a x e))
get-grown [] a x (suc i) e = absurd (cc)
get-grown (y ∷ ys) a x zero e = inl e
get-grown (y ∷ ys) a x (suc i) e = elim (get-grown ys a x i e) [
  | inl q ↦ inl q
  | inr (p, q) ↦ inr (ap suc p, q)
]

module _ ⦃f : Floats⦄ where
  -- Every name of the list of names is found in the map, under its index.
  abbrev pub IsStored : ToolGraph → Type 0
  IsStored g =
      (name : Text) (id : ℕ)
      → get_elem? g.id_to_node id ≡ some name
      → HashMap.lookup text_dec name g.node_to_id ≡ some id

  pub empty-IsStored : IsStored empty_graph
  empty-IsStored name id e = absurd (cc)

  -- The second graph has the names of the first, and at most one more.
  abbrev OnlyNew : ToolGraph → ToolGraph → Text → Type 0
  OnlyNew g g' new =
      (name : Text) (id : ℕ)
      → get_elem? g'.id_to_node id ≡ some name
      → (get_elem? g.id_to_node id ≡ some name) ⊎ (name ≡ new)

  abbrev Interns : ToolGraph → ToolGraph → Text → Type 0
  Interns g g' name =
      IsStored g' × OnlyNew g g' name × ((k : ℕ) → row g'.adjacency k ≡ row g.adjacency k)

  abbrev grow : ToolGraph → Text → ToolGraph
  grow g name = record {
    node_to_id = HashMap.insert text_dec name (length g.id_to_node) g.node_to_id;
    id_to_node = g.id_to_node ++ name ∷ [];
    adjacency = g.adjacency ++ [] ∷ [];
  }

  grow-IsStored :
      (g : ToolGraph) (name : Text)
      → IsStored g
      → HashMap.lookup text_dec name g.node_to_id ≡ none
      → IsStored (grow g name)
  grow-IsStored g name s n x id e =
      let found = lookup-insert text_dec name x (length g.id_to_node) g.node_to_id in
      elim (text_dec name x) [
        | yes q ↦ elim (get-grown g.id_to_node name x id e) [
          | inl o ↦ let k = s x id o in absurd (ground (arith, k, n, q))
          | inr (p, _) ↦ ground (arith, found, p, q)
        ]
        | no q ↦ elim (get-grown g.id_to_node name x id e) [
          | inl o ↦ let k = s x id o in ground (arith, found, k, q)
          | inr (_, p) ↦ absurd (q (sym p))
        ]
      ]

  get_or_insert_node-Interns :
      (g g' : ToolGraph) (name : Text) (id : ℕ)
      → IsStored g
      → length g.id_to_node + 1 ≤ u32_max
      → get_or_insert_node g name ≡ (g', id)
      → Interns g g' name
  unfolding get_or_insert_node
  get_or_insert_node-Interns g g' name id s b e =
      elim (Option-cases (HashMap.lookup text_dec name g.node_to_id)) [
        | inr (i, q) ↦
            let same : g ≡ g' = ground (arith, e, q) in
            subst (λ h. Interns g h name) same (s, (λ x j k. inl k), λ k. refl)
        | inl q ↦
            let small : length g.id_to_node % 2 ^ 32 ≡ length g.id_to_node = omega arith in
            let same : grow g name ≡ g' =
              sym (rw (get_or_insert_node, q, small) refl) ∙ ap (λ p. p.0) e in
            subst (λ h. Interns g h name) same
              (
                grow-IsStored g name s q,
                (λ x j k. elim (get-grown g.id_to_node name x j k) [
                  | inl o ↦ inl o
                  | inr (_, p) ↦ inr p
                ]),
                row-grown g.adjacency,
              )
      ]

  -- The second graph is the first with the edge: both names are found; the names of the first keep
  -- their indices, and no other is new; and the edge is the last of its start's row, where the other
  -- rows are as they were.
  pub record IsAdded (g g' : ToolGraph) (e : Edge) : Type 0 where
    pub from_id : ℕ
    pub to_id : ℕ
    pub from_found : HashMap.lookup text_dec e.from g'.node_to_id ≡ some from_id
    pub to_found : HashMap.lookup text_dec e.to g'.node_to_id ≡ some to_id
    pub kept : Extends g g'
    pub only :
        (name : Text) (id : ℕ)
        → get_elem? g'.id_to_node id ≡ some name
        → (get_elem? g.id_to_node id ≡ some name) ⊎ (name ≡ e.from) ⊎ (name ≡ e.to)
    pub rows :
        (k : ℕ)
        → row g'.adjacency k
          ≡ row g.adjacency k ++ (if k == from_id then index_edge e to_id ∷ [] else [])

  -- On a graph whose names are interned, each stored name found under its index and each found index
  -- that of its name, with room for two names: adding an edge does not panic; the names of the graph
  -- that it leaves are interned in the same way, at most two more; both names of the edge are found
  -- there; the names before keep their indices and no others are new; and the row of the edge's start
  -- has the edge, to the index of its end, as its last, where all other rows are as they were.
  pub add_edge-IsAdded :
      (g : ToolGraph) (e : Edge)
      → IsInterned g
      → IsStored g
      → length g.id_to_node + 2 ≤ u32_max
      → (g' : ToolGraph) × (add_edge g e ≡ some g')
        × IsInterned g'
        × IsStored g'
        × (length g'.id_to_node ≤ length g.id_to_node + 2)
        × IsAdded g g' e
  add_edge-IsAdded g e i s b =
      let (g1, from_id, e1, i1, x1, n1, l1) =
        get_or_insert_node-IsInterned g e.from i (omega (arith, b)) in
      let (g2, to_id, e2, i2, x2, n2, l2) =
        get_or_insert_node-IsInterned g1 e.to i1 (omega (arith, b, l1)) in
      let (s1, o1, r1) = get_or_insert_node-Interns g g1 e.from from_id s (omega (arith, b)) e1 in
      let (s2, o2, r2) = get_or_insert_node-Interns g1 g2 e.to to_id s1 (omega (arith, b, l1)) e2 in
      let from_name = x2 e.from from_id n1 in
      let (rows, p, _, _) =
        push_at-some from_id (index_edge e to_id) g2.adjacency
          (omega (arith, get-lt g2.id_to_node from_id e.from from_name, i2.indexed.rows)) in
      let steps = add_edge_steps g g1 g2 e from_id to_id rows e1 e2 p in
      let (h, q, interned, bound) = add_edge-IsInterned g e i b in
      let same : h ≡ record g2 { adjacency = rows } = some-injective _ _ (sym q ∙ steps) in
      (
        record g2 { adjacency = rows },
        steps,
        subst IsInterned same interned,
        s2,
        subst (λ x. length x.id_to_node ≤ length g.id_to_node + 2) same bound,
        record {
          from_id = from_id;
          to_id = to_id;
          from_found = s2 e.from from_id from_name;
          to_found = s2 e.to to_id n2;
          kept = λ name id k. x2 name id (x1 name id k);
          only = λ name id k. elim (o2 name id k) [
            | inl k1 ↦ elim (o1 name id k1) [ inl k0 ↦ inl k0 | inr q0 ↦ inr (inl q0) ]
            | inr q1 ↦ inr (inr q1)
          ];
          rows = λ k.
              push_at-row from_id (index_edge e to_id) g2.adjacency rows k p
              ∙ ap (λ l. l ++ pushed from_id (index_edge e to_id) k) (r2 k ∙ r1 k);
        },
      )
