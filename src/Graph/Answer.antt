-- ===== src/Graph/Answer.antt =====
-- src/lib.rs, `ToolGraph::shortest_path`: every answer, on a graph whose names are interned.
use trust_system.Prelude.{
  ℕ, zero, suc, ◌+◌, ◌<◌, ◌≡◌, refl, sym, subst, ◌∙◌, ◌≢◌, ◌⊎◌, inl, inr, true, false, none, some,
  List, [], ◌∷◌, arith, ◌==◌, length, length-set, length-replicate, get_elem?, set, replicate,
  Bool-cases, Option-cases,
}
use mathlib.Core.Logic.{if_pos, if_neg}
use mathlib.Core.Option.{some-injective}
use trust_system.Prelude.Text.{Text, text_dec}
use trust_system.Prelude.Words.{u32_max}
use trust_system.Prelude.HashMap
use trust_system.Prelude.HashMap.{Map}
use trust_system.Prelude.Float.{Floats, Num, ◌≤ᶠ◌, zero_f, infinity, IsIeee}
use trust_system.Health.{HealthTracker}
use trust_system.Cost.{TenantCostModel, IndexedEdge}
use trust_system.Graph.{ToolGraph, Outcome, found, no_path, edge_count, initial, shortest_path}
use trust_system.Graph.Walk.{EdgeTo, IsIndexed}
use trust_system.Graph.Potential.{Flags, unset_sum}
use trust_system.Graph.Order.{get-set_self, get-set_ne}
use trust_system.Graph.Links.{get-set_here, get-lt}
use trust_system.Graph.Relax.{Core}
use trust_system.Graph.Turn.{degrees}
use trust_system.Graph.Dijkstra.{Answers, search-Answers}

get-replicate : {A : Type 0} (n v : ℕ) (a b : A) → get_elem? (replicate n a) v ≡ some b → b ≡ a
get-replicate zero v a b e = absurd (cc)
get-replicate (suc n) zero a b e = sym (some-injective a b e)
get-replicate (suc n) (suc v) a b e = get-replicate n v a b e

replicate-get : {A : Type 0} (n v : ℕ) (a : A) → v < n → get_elem? (replicate n a) v ≡ some a
replicate-get zero v a h = absurd (omega arith)
replicate-get (suc n) zero a h = refl
replicate-get (suc n) (suc v) a h = replicate-get n v a (omega arith)

module _ ⦃f : Floats⦄ where
  -- The indices are in range, and each name's index leads back to it.
  pub record IsInterned (g : ToolGraph) : Type 0 where
    pub indexed : IsIndexed g
    pub named :
        (name : Text) (id : ℕ)
        → HashMap.lookup text_dec name g.node_to_id ≡ some id
        → get_elem? g.id_to_node id ≡ some name

  unset_edges :
      (g : ToolGraph) (health : Map Text HealthTracker) (m : TenantCostModel)
      (adj : List (List IndexedEdge))
      → unset_sum (λ _. false) (degrees adj) ≡ edge_count g health m adj
  unset_edges g health m [] = refl
  unset_edges g health m (es ∷ adj) = omega (arith, unset_edges g health m adj)

  module _ (ieee : IsIeee) (g : ToolGraph) (health : Map Text HealthTracker)
      (m : TenantCostModel) where
    abbrev fresh_flags : Flags
    fresh_flags v = false

    module _ (start : ℕ) (h : start < length g.id_to_node) where
      abbrev far : List Num
      far = replicate (length g.id_to_node) infinity

      -- A distance at the start of the search.
      first_distance :
          (v : ℕ) (d : Num)
          → get_elem? (set far start zero_f) v ≡ some d
          → ((v ≡ start) × (d ≡ zero_f)) ⊎ ((v ≢ start) × (d ≡ infinity))
      first_distance v d e = elim (Bool-cases (v == start)) [
        | inl p ↦
            let r : v ≡ start = ground arith in
            inl (
              r,
              get-set_self far start zero_f d
                  (subst (λ x. get_elem? (set far start zero_f) x ≡ some d) r e),
            )
        | inr p ↦
            let n : v ≢ start = λ r. ground arith in
            inr (
              n,
              get-replicate (length g.id_to_node) v infinity d
                  (sym (get-set_ne far start v zero_f n) ∙ e),
            )
      ]

      initial-Core :
          Core g health m ieee start (initial g health m start) fresh_flags fresh_flags (λ _. 0)
      initial-Core = record {
        distances_length =
            length-set far start zero_f ∙ length-replicate (length g.id_to_node) infinity;
        previous_length = length-replicate (length g.id_to_node) u32_max;
        inside = (h, tt);
        order = record {
          positive = (ieee.zero_le_zero, tt);
          exact = ((λ d e. inl (sym (get-set_self far start zero_f d e))), tt);
          node = λ v d e. record {
            nonneg = elim (first_distance v d e) [
              | inl (_, z) ↦ rw z ieee.zero_le_zero
              | inr (_, z) ↦ rw z (ieee.le_infinity zero_f ieee.zero_le_zero)
            ];
            count = ground arith;
            least = λ s. absurd (cc);
          };
        };
        links = record {
          start_zero =
              get-set_here far start zero_f
                (omega (arith, h, length-replicate (length g.id_to_node) infinity));
          link = λ v b n.
              inl (replicate-get (length g.id_to_node) v u32_max b, refl, ((λ e. n (sym e)), tt));
          levels = λ v s. absurd (cc);
        };
        bound = record {
          expanded_settled = λ u s. s;
          closed = λ u v w s. absurd (cc);
          live = λ v d e s. elim (first_distance v d e) [
            | inl (r, z) ↦ inr (record { node = start; cost = zero_f }, inl refl, sym r, sym z)
            | inr (_, z) ↦ inl z
          ];
        };
      }

    -- Every answer of the search for `goal` from `start`.
    abbrev pub IsAnswer : Text → Text → Outcome → Type 0
    IsAnswer start goal o =
        ((start ≡ goal)
          × (o ≡ found (record { nodes = start ∷ []; total_cost = zero_f; cache_hit = false })))
        ⊎ (((o ≡ no_path)
              × ((HashMap.lookup text_dec start g.node_to_id ≡ none)
                  ⊎ (HashMap.lookup text_dec goal g.node_to_id ≡ none)))
            ⊎ ((start_id : ℕ) × (goal_id : ℕ) × (HashMap.lookup text_dec start g.node_to_id
                  ≡ some start_id)
                × (HashMap.lookup text_dec goal g.node_to_id ≡ some goal_id)
                × Answers g health m ieee start_id goal_id o))

    -- On IEEE floats, on a graph whose names are interned and whose usable edges cost 0 or more, the
    -- search returns without a panic and within its fuel: the start alone if it is the goal, no path
    -- if either name is unknown, and else a walk from the start to the goal spelled in order, with
    -- its cost, which no walk undercuts; or no path, and then every walk to the goal costs infinity.
    pub shortest_path-IsAnswer :
        IsInterned g
        → ((a b : ℕ) (w : Num) → EdgeTo g health m a b w → (zero_f ≤ᶠ w) ≡ true)
        → (start goal : Text) → IsAnswer start goal (shortest_path g health m start goal)
    unfolding shortest_path
    shortest_path-IsAnswer ix nonneg start goal = elim (text_dec start goal) [
      | yes q ↦ inl (q, rw (shortest_path, if_pos _ q) refl)
      | no n ↦ elim (Option-cases (HashMap.lookup text_dec start g.node_to_id)) [
        | inl a ↦ inr (inl (rw (shortest_path, if_neg _ n, a) refl, inl a))
        | inr (start_id, a) ↦ elim (Option-cases (HashMap.lookup text_dec goal g.node_to_id)) [
          | inl b ↦ inr (inl (rw (shortest_path, if_neg _ n, a, b) refl, inr b))
          | inr (goal_id, b) ↦
              let sn = ix.named start start_id a in
              let gn = ix.named goal goal_id b in
              let h = get-lt g.id_to_node start_id start sn in
              let apart : goal_id ≢ start_id =
                λ e. n (some-injective start goal (sym sn ∙ rw (← e) gn)) in
              let here = replicate-get (length g.id_to_node) start_id infinity h in
              inr (
                inr (
                  start_id,
                  goal_id,
                  a,
                  b,
                  rw (shortest_path, if_neg _ n, a, b, here)
                      (search-Answers g health m ieee start_id goal_id ix.indexed nonneg
                        (get-lt g.id_to_node goal_id goal gn) apart
                        (edge_count g health m g.adjacency + 2) (initial g health m start_id)
                        fresh_flags (λ _. 0) (initial-Core start_id h) refl
                        (omega (arith, unset_edges g health m g.adjacency))),
                ))
        ]
      ]
    ]
