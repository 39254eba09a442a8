-- ===== src/Pipeline/Choose.antt =====
-- src/pipeline.rs, stages 4 to 7: what surrounds a call, and the candidate that it selects.
use trust_system.Prelude.{ℕ, Option, none, some, List, [], ◌∷◌, first?, map, Result, ok, err}
use trust_system.Prelude.Text.{Text, bytes}
use trust_system.Prelude.Float.{Floats}
use trust_system.Backend.{BackendRegistry, empty_registry, backend_ids}
use trust_system.Capacity.{CapacitySnapshot, ComputeNode, evaluate}
use trust_system.Capacity
use trust_system.Trace.{TraceRejection}
use trust_system.Fabric.{FabricError, InferenceTransport, KvTransport}
use trust_system.Intelligence.World.{WorldState}
use trust_system.Intelligence.Candidates.{CounterfactualEstimate}
use trust_system.Intelligence.Candidates
use trust_system.Pipeline.{PipelineRequest, PipelineOutcome, PipelineEngine, Printer}
use trust_system.Pipeline.Candidates.{requirement_of, raw_candidates, sort_raw, Raw}
use trust_system.Pipeline.Screen.{screen_one, screen_valid, screen_rejected}
use trust_system.Pipeline.Stages.{Selected, refused, kv_of}

-- `unwrap_or_default` of a fetch.
abbrev pub fetched : {A : Type 0} → A → Result FabricError A → A
fetched d (ok a) = a
fetched d (err e) = d

module _ ⦃f : Floats⦄ where
  -- What the clock reads when a stage asks it.
  pub record Times : Type 0 where
    pub snapshot_at : ℕ
    pub predicted_at : ℕ
    pub screened_at : CounterfactualEstimate → ℕ
    pub audited_at : ℕ
    pub observed_at : ℕ
    pub ingested_at : ℕ

  -- What surrounds a call: the printer, the digest, the two transports and the clock.
  pub record Surroundings : Type 0 where
    pub printer : Printer
    pub digest : Text → Text
    pub transport : InferenceTransport
    pub kv_transport : Option KvTransport
    pub times : Times

  abbrev pub registry_of : PipelineEngine → BackendRegistry
  registry_of e = fetched empty_registry e.state_store.fetch_registry

  abbrev pub capacity_of : PipelineEngine → CapacitySnapshot
  capacity_of e = fetched Capacity.empty e.state_store.fetch_capacity

  abbrev pub eligible_nodes : PipelineEngine → PipelineRequest → List ComputeNode
  eligible_nodes e req = (evaluate (capacity_of e) (requirement_of req)).0

  unfoldable pub sorted_candidates :
      Surroundings → PipelineEngine → PipelineRequest → WorldState → List Raw
  sorted_candidates u e req world = sort_raw (
      raw_candidates e.prediction_engine (registry_of e) req world.revision u.times.predicted_at
        (backend_ids (registry_of e)) (eligible_nodes e req))

  abbrev pub screen :
      Surroundings
      → PipelineEngine
      → PipelineRequest
      → WorldState
      → CounterfactualEstimate
      → Option TraceRejection
  screen u e req world c = screen_one u.printer e.firewall req world (u.times.screened_at c) c

  -- Stages 6 and 7. The first of the evaluated candidates is taken by index.
  unfoldable pub select_from :
      PipelineRequest
      → WorldState
      → List TraceRejection
      → List Raw
      → Option (Result PipelineOutcome Selected)
  select_from req world rejected [] =
      let reason = bytes "All candidates rejected by hard constraints/firewall" in
      some (err (refused req reason reason rejected world.revision))
  select_from req world rejected (v ∷ vs) =
      elim (first? (Candidates.evaluate (map (λ c. c.0) (v ∷ vs)))) [
        | none ↦ none
        | some c ↦ some (
            ok (record {
              candidate = c;
              kv_action = kv_of c.id (v ∷ vs);
              world = world;
              rejected = rejected;
            }))
      ]

  -- Stages 4 to 7, over the declared backends.
  unfoldable pub choose_among :
      Surroundings
      → PipelineEngine
      → PipelineRequest
      → WorldState
      → List Text
      → Option (Result PipelineOutcome Selected)
  unfolding sorted_candidates select_from
  choose_among u e req world [] =
      let reason = bytes "No declared backends for model" in
      some (err (refused req reason reason [] world.revision))
  choose_among u e req world (_ ∷ _) =
      let raw = sorted_candidates u e req world in
      select_from req world (screen_rejected (screen u e req world) raw)
        (screen_valid (screen u e req world) raw)

  unfoldable pub choose :
      Surroundings
      → PipelineEngine
      → PipelineRequest
      → WorldState
      → Option (Result PipelineOutcome Selected)
  unfolding choose_among
  choose u e req world = choose_among u e req world (backend_ids (registry_of e))
