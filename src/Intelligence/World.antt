-- ===== src/Intelligence/World.antt =====
-- src/intelligence.rs: the versioned world state. The lock makes each method one step; the counters
-- are read and written by one atomic operation each.
use trust_system.Prelude.{ℕ, Bool, List, [], ◌∷◌, ◌++◌, if◌then◌else◌, holds, any, Result, ok, err}
use trust_system.Prelude.Text.{Text, bytes, text_dec}
use trust_system.Prelude.Words.{inc64}
use trust_system.Prelude.Clock.{older_than}
use trust_system.Prelude.HashMap
use trust_system.Prelude.HashMap.{Map}
use trust_system.Prelude.Float.{Floats}
use trust_system.Intelligence.{IntelligenceError, stale_world_state, InferenceObservation, validate}

pub record WorldState : Type 0 where
  pub schema_version : ℕ
  pub revision : ℕ
  pub observed_at : ℕ
  pub nodes : List Text
  pub backends : List Text
  pub model_states : Map Text Text
  pub queues : Map Text ℕ
  pub kv_states : Map Text Text
  pub network_states : Map Text Text
  pub health_states : Map Text Text

abbrev pub is_stale : WorldState → ℕ → ℕ → Bool
is_stale w max_age now = older_than w.observed_at max_age now

pub record WorldStateManager : Type 0 where
  pub state : WorldState
  pub max_observation_age : ℕ
  pub observations_accepted : ℕ
  pub observations_rejected : ℕ

abbrev pub new : ℕ → ℕ → WorldStateManager
new max_observation_age now = record {
  state = record {
    schema_version = 1;
    revision = 0;
    observed_at = now;
    nodes = [];
    backends = [];
    model_states = [];
    queues = [];
    kv_states = [];
    network_states = [];
    health_states = [];
  };
  max_observation_age = max_observation_age;
  observations_accepted = 0;
  observations_rejected = 0;
}

abbrev pub contains : Text → List Text → Bool
contains x = any (λ y. holds (text_dec y x))

-- `if !xs.contains(&x) { xs.push(x) }`.
abbrev pub push_new : List Text → Text → List Text
push_new xs x = if contains x xs then xs else xs ++ x ∷ []

unfoldable pub snapshot : WorldStateManager → ℕ → Result IntelligenceError WorldState
snapshot m now =
    if is_stale m.state m.max_observation_age now then err stale_world_state else ok m.state

module _ ⦃f : Floats⦄ where
  -- The state that an observation makes.
  abbrev pub observe : WorldState → InferenceObservation → ℕ → WorldState
  observe w o now = record w {
    revision = inc64 w.revision;
    observed_at = now;
    nodes = push_new w.nodes o.compute_node_id;
    backends = push_new w.backends o.backend_id;
    health_states = HashMap.insert text_dec o.backend_id (bytes "observed") w.health_states;
  }

  unfoldable pub ingest :
      WorldStateManager → InferenceObservation → ℕ → WorldStateManager × Result IntelligenceError ℕ
  ingest m o now = elim (validate o) [
    | err x ↦ (m, err x)
    | ok _ ↦
        let w = observe m.state o now in
        (
          record m { state = w; observations_accepted = inc64 m.observations_accepted },
          ok w.revision,
        )
  ]
