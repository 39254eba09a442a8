-- ===== src/Capacity.antt =====
-- src/capacity.rs: the compute nodes of a snapshot, and those that can take a request.
pub mod Nodes
mod Examples
use trust_system.Prelude.{
  ℕ, ◌≡◌, Bool, true, false, not, ◌&&◌, ◌||◌, Option, none, some, List, [], ◌∷◌, ◌==◌, ltb,
  if◌then◌else◌, holds, Result, ok, err, ◌>>=◌, ◌>>◌, reject_if,
}
use trust_system.Prelude.Text.{Text, text_dec, valid_identifier}
use trust_system.Prelude.Words.{saturating_inc64}
use trust_system.Prelude.Order.{list_cmp}
use trust_system.Prelude.BTreeMap
use trust_system.Prelude.Float.{Floats, Num, is_finite, within, zero_f, one_f}
use trust_system.Kv.{ModelReference, model_cmp}

pub record CapacityRequirement : Type 0 where
  pub model : ModelReference
  pub region : Option Text
  pub min_available_memory_mb : ℕ
  pub max_queue_depth : ℕ

pub data CapacityRejection : Type 0 where
  unhealthy region_mismatch model_not_resident insufficient_memory queue_limit : CapacityRejection

pub data CapacityError : Type 0 where
  invalid_node duplicate_node : Text → CapacityError

module _ ⦃f : Floats⦄ where
  pub record ComputeNode : Type 0 where
    pub id : Text
    pub region : Text
    pub accelerator : Text
    pub total_memory_mb : ℕ
    pub available_memory_mb : ℕ
    pub utilization : Num
    pub active_requests : ℕ
    pub queue_depth : ℕ
    pub healthy : Bool
    pub resident_models : List (ModelReference × Unit {0})

  unfoldable pub validate : ComputeNode → Result CapacityError (Unit {0})
  validate n =
      reject_if
        (not (valid_identifier n.id)
          || not (valid_identifier n.region)
          || not (valid_identifier n.accelerator)
          || n.total_memory_mb == 0
          || ltb n.total_memory_mb n.available_memory_mb
          || not (is_finite n.utilization)
          || not (within zero_f one_f n.utilization))
        (invalid_node n.id)

  pub record CapacitySnapshot : Type 0 where
    pub nodes : List (Text × ComputeNode)
    pub revision : ℕ

  abbrev pub empty : CapacitySnapshot
  empty = record { nodes = []; revision = 0 }

  unfoldable pub register : CapacitySnapshot → ComputeNode → Result CapacityError CapacitySnapshot
  register s n = do
    validate n
    reject_if (BTreeMap.contains_key list_cmp n.id s.nodes) (duplicate_node n.id)
    ok (record {
      nodes = BTreeMap.insert list_cmp n.id n s.nodes;
      revision = saturating_inc64 s.revision;
    })

  -- Why a node cannot take the request.
  unfoldable pub rejection : CapacityRequirement → ComputeNode → Option CapacityRejection
  rejection q n =
      if not n.healthy
      then some unhealthy
      else if elim q.region [ none ↦ false | some r ↦ not (holds (text_dec r n.region)) ]
      then some region_mismatch
      else if not (BTreeMap.contains_key model_cmp q.model n.resident_models)
      then some model_not_resident
      else if ltb n.available_memory_mb q.min_available_memory_mb
      then some insufficient_memory
      else if ltb q.max_queue_depth n.queue_depth
      then some queue_limit
      else none

  -- The two vectors that the loop over the nodes fills.
  unfoldable pub evaluate_nodes :
      CapacityRequirement
      → List (Text × ComputeNode)
      → List ComputeNode × List (Text × CapacityRejection)
  evaluate_nodes q [] = ([], [])
  evaluate_nodes q ((id, n) ∷ ns) =
      let (eligible, rejected) = evaluate_nodes q ns in
      elim (rejection q n) [
        | some reason ↦ (eligible, (id, reason) ∷ rejected)
        | none ↦ (n ∷ eligible, rejected)
      ]

  unfoldable pub evaluate :
      CapacitySnapshot → CapacityRequirement → List ComputeNode × List (Text × CapacityRejection)
  unfolding evaluate_nodes
  evaluate s q = evaluate_nodes q s.nodes
