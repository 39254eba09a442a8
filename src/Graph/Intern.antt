-- ===== src/Graph/Intern.antt =====
-- src/lib.rs, `ToolGraph::add_edge`: the names and indices of the graph that it leaves.
use trust_system.Prelude.{
  ℕ, zero, suc, ◌+◌, ◌≤◌, ◌<◌, ◌≡◌, refl, ap, ◌∙◌, inl, inr, some, List, [], ◌∷◌, ◌++◌, arith, ◌%◌,
  ◌^◌, length, length-append, get_elem?, All, All-append, All-map, Option-cases,
}
use trust_system.Prelude.Text.{Text, text_dec}
use trust_system.Prelude.Words.{u32_max}
use trust_system.Prelude.HashMap
use trust_system.Prelude.HashMap.{lookup-insert}
use trust_system.Prelude.Float.{Floats}
use trust_system.Cost.{Edge, IndexedEdge}
use trust_system.Cost.Bounds.{index_edge}
use trust_system.Graph.{ToolGraph, empty_graph, push_at, get_or_insert_node, add_edge}
use trust_system.Graph.Links.{get-lt}
use trust_system.Graph.Answer.{IsInterned}

pub get-append :
    {A : Type 0} (xs ys : List A) (i : ℕ) (a : A)
    → get_elem? xs i ≡ some a
    → get_elem? (xs ++ ys) i ≡ some a
get-append [] ys i a e = absurd (cc)
get-append (x ∷ xs) ys zero a e = e
get-append (x ∷ xs) ys (suc i) a e = get-append xs ys i a e

get-last : {A : Type 0} (xs : List A) (a : A) → get_elem? (xs ++ a ∷ []) (length xs) ≡ some a
get-last [] a = refl
get-last (x ∷ xs) a = get-last xs a

pub push_at-some :
    {A : Type 0} (i : ℕ) (a : A) (rows : List (List A))
    → i < length rows
    → (rows' : List (List A)) × (push_at i a rows ≡ some rows')
      × (length rows' ≡ length rows)
      × ((P : A → Type 0) → P a → All (λ r. All P r) rows → All (λ r. All P r) rows')
unfolding push_at
push_at-some i a [] h = absurd (omega arith)
push_at-some zero a (r ∷ rows) h =
    ((r ++ a ∷ []) ∷ rows, refl, refl, λ P p k. (All-append P r (a ∷ []) k.0 (p, tt), k.1))
push_at-some (suc i) a (r ∷ rows) h =
    let (rows', e, l, k) = push_at-some i a rows (omega arith) in
    (r ∷ rows', rw (push_at, e) refl, ap suc l, λ P p q. (q.0, k P p q.1))

module _ ⦃f : Floats⦄ where
  pub empty-IsInterned : IsInterned empty_graph
  unfolding HashMap.lookup
  empty-IsInterned = record {
    indexed = record { rows = refl; targets = tt; small = omega arith };
    named = λ name id e. absurd (cc);
  }

  -- A graph that keeps the names of another.
  abbrev pub Extends : ToolGraph → ToolGraph → Type 0
  Extends g g' =
      (name : Text) (id : ℕ)
      → get_elem? g.id_to_node id ≡ some name
      → get_elem? g'.id_to_node id ≡ some name

  grown :
      (g : ToolGraph) (name : Text)
      → IsInterned g
      → length g.id_to_node + 1 ≤ u32_max
      → IsInterned (record {
        node_to_id = HashMap.insert text_dec name (length g.id_to_node) g.node_to_id;
        id_to_node = g.id_to_node ++ name ∷ [];
        adjacency = g.adjacency ++ [] ∷ [];
      })
  grown g name i b =
      let n = length-append g.id_to_node (name ∷ []) in
      record {
        indexed = record {
          rows = omega (arith, n, length-append g.adjacency ([] ∷ []), i.indexed.rows);
          targets =
              All-append _ g.adjacency ([] ∷ [])
                (All-map (λ r k. All-map (λ e l. omega (arith, l, n)) r k) g.adjacency
                  i.indexed.targets)
                (tt, tt);
          small = omega (arith, n, b);
        };
        named = λ x id e. elim (text_dec name x) [
          | yes q ↦
              let k : length g.id_to_node ≡ id =
                ground (arith, lookup-insert text_dec name x (length g.id_to_node) g.node_to_id) in
              rw (← k, ← q) (get-last g.id_to_node name)
          | no q ↦ get-append g.id_to_node (name ∷ []) id x (
              i.named x id
                (ground (arith, lookup-insert text_dec name x (length g.id_to_node) g.node_to_id)))
        ];
      }

  pub get_or_insert_node-IsInterned :
      (g : ToolGraph) (name : Text)
      → IsInterned g
      → length g.id_to_node + 1 ≤ u32_max
      → (g' : ToolGraph) × (id : ℕ) × (get_or_insert_node g name ≡ (g', id))
        × IsInterned g'
        × Extends g g'
        × (get_elem? g'.id_to_node id ≡ some name)
        × (length g'.id_to_node ≤ length g.id_to_node + 1)
  unfolding get_or_insert_node
  get_or_insert_node-IsInterned g name i b =
      elim (Option-cases (HashMap.lookup text_dec name g.node_to_id)) [
        | inr (id, e) ↦ (
          g,
          id,
          rw (get_or_insert_node, e) refl,
          i,
          (λ x j k. k),
          i.named name id e,
          omega arith,
        )
        | inl e ↦
            let same : length g.id_to_node % 2 ^ 32 ≡ length g.id_to_node = omega arith in
            (
              _,
              length g.id_to_node,
              rw (get_or_insert_node, e, same) refl,
              grown g name i b,
              (λ x j k. get-append g.id_to_node (name ∷ []) j x k),
              get-last g.id_to_node name,
              omega (arith, length-append g.id_to_node (name ∷ [])),
            )
      ]

  pub add_edge_steps :
      (g g1 g2 : ToolGraph) (e : Edge) (i j : ℕ) (rows : List (List IndexedEdge))
      → get_or_insert_node g e.from ≡ (g1, i)
      → get_or_insert_node g1 e.to ≡ (g2, j)
      → push_at i (index_edge e j) g2.adjacency ≡ some rows
      → add_edge g e ≡ some (record g2 { adjacency = rows })
  unfolding add_edge
  add_edge_steps g g1 g2 e i j rows a b c = simp (add_edge, a, b, c)

  -- With room for two names, adding an edge does not panic, and leaves a graph whose indices are in
  -- range and whose names are interned, with at most two names more.
  pub add_edge-IsInterned :
      (g : ToolGraph) (e : Edge)
      → IsInterned g
      → length g.id_to_node + 2 ≤ u32_max
      → (g' : ToolGraph) × (add_edge g e ≡ some g')
        × IsInterned g'
        × (length g'.id_to_node ≤ length g.id_to_node + 2)
  add_edge-IsInterned g e i b =
      let (g1, from_id, e1, i1, x1, n1, l1) =
        get_or_insert_node-IsInterned g e.from i (omega (arith, b)) in
      let (g2, to_id, e2, i2, x2, n2, l2) =
        get_or_insert_node-IsInterned g1 e.to i1 (omega (arith, b, l1)) in
      let from_in = get-lt g2.id_to_node from_id e.from (x2 e.from from_id n1) in
      let to_in = get-lt g2.id_to_node to_id e.to n2 in
      let (rows, p, l, k) =
        push_at-some from_id (index_edge e to_id) g2.adjacency
          (omega (arith, from_in, i2.indexed.rows)) in
      (
        record g2 { adjacency = rows },
        add_edge_steps g g1 g2 e from_id to_id rows e1 e2 p,
        record {
          indexed = record {
            rows = l ∙ i2.indexed.rows;
            targets = k (λ x. x.target < length g2.id_to_node) to_in i2.indexed.targets;
            small = i2.indexed.small;
          };
          named = i2.named;
        },
        omega (arith, l1, l2),
      )
