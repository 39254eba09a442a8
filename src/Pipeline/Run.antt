-- ===== src/Pipeline/Run.antt =====
-- src/pipeline.rs, `process_request`: the stages in their order. A panic is `none`.
use trust_system.Prelude.{
  Bool, true, false, ◌||◌, Option, none, some, [], ◌++◌, if◌then◌else◌, holds, Result, ok, err,
}
use trust_system.Prelude.Text.{Text, bytes, text_dec, is_empty}
use trust_system.Prelude.Words.{inc64}
use trust_system.Prelude.Float.{Floats}
use trust_system.Admission.{AdmissionController, Permit, admit, release}
use trust_system.Fabric.{FabricError, TransportResponse}
use trust_system.Fabric.Chain.{append}
use trust_system.Intelligence.World.{snapshot, ingest}
use trust_system.Intelligence.Errors.{record_error}
use trust_system.Pipeline.{PipelineRequest, PipelineOutcome, PipelineEngine}
use trust_system.Pipeline.Texts.{fabric_text, debug_text, display_text}
use trust_system.Pipeline.Candidates.{unwrap_or}
use trust_system.Pipeline.Stages.{
  Selected, refused, finished, is_transfer, transport_request_of, execution_result_of,
  observation_of, prediction_error_of,
}
use trust_system.Pipeline.Choose.{Surroundings, choose}

module _ ⦃f : Floats⦄ where
  unfoldable pub bad_key : PipelineRequest → Bool
  bad_key req = elim req.api_key [
    | none ↦ false
    | some key ↦ holds (text_dec key (bytes "invalid")) || is_empty key
  ]

  -- The transfer of key-value state that the selected action asks for.
  unfoldable pub transfer_failure : Surroundings → PipelineRequest → Selected → Option FabricError
  transfer_failure u req s =
      if is_transfer s.kv_action
      then elim u.kv_transport [
        | none ↦ none
        | some t ↦
            elim (t.transfer (unwrap_or req.observed_source_node (bytes "Unknown"))
              s.candidate.compute_node_id) [ err e ↦ some e | ok _ ↦ none ]
      ]
      else none

  -- The audit entry, the observation and the prediction error of an execution.
  unfoldable pub feed_back :
      Surroundings
      → PipelineEngine
      → PipelineRequest
      → Selected
      → TransportResponse
      → PipelineEngine × PipelineOutcome
  unfolding append ingest record_error observation_of prediction_error_of execution_result_of
  feed_back u e req s resp =
      let (manager, ingested) =
        ingest e.world_state_manager (observation_of req s resp u.times.observed_at)
          u.times.ingested_at in
      (
        record e {
          world_state_manager = manager;
          audit_chain =
              append u.digest e.audit_chain req.request_id s.candidate.backend_id s.world.revision
                u.times.audited_at;
          prediction_tracker = record_error e.prediction_tracker (prediction_error_of req s resp);
        },
        finished req s true (some (execution_result_of s resp)) none none
            (elim ingested [ ok revision ↦ revision | err _ ↦ inc64 s.world.revision ]),
      )

  -- A failure of a transfer or of an execution.
  abbrev pub broken : PipelineRequest → Selected → Text → FabricError → PipelineOutcome
  broken req s stage x =
      let reason = stage ++ fabric_text x in
      finished req s false none (some reason) (some reason) s.world.revision

  unfoldable pub run_selected :
      Surroundings → PipelineEngine → PipelineRequest → Selected → PipelineEngine × PipelineOutcome
  unfolding feed_back transfer_failure transport_request_of
  run_selected u e req s = elim (transfer_failure u req s) [
    | some x ↦ (e, broken req s (bytes "KV Transfer failed: ") x)
    | none ↦ elim (u.transport.execute (transport_request_of req s)) [
      | err x ↦ (e, broken req s (bytes "Transport execution failed: ") x)
      | ok resp ↦ feed_back u e req s resp
    ]
  ]

  unfoldable pub run_chosen :
      Surroundings
      → PipelineEngine
      → PipelineRequest
      → Option (Result PipelineOutcome Selected)
      → Option (PipelineEngine × PipelineOutcome)
  unfolding run_selected
  run_chosen u e req none = none
  run_chosen u e req (some (err o)) = some (e, o)
  run_chosen u e req (some (ok s)) = some (run_selected u e req s)

  -- The stages between the admission and the return of the permit.
  unfoldable pub run_admitted :
      Surroundings → PipelineEngine → PipelineRequest → Option (PipelineEngine × PipelineOutcome)
  unfolding run_chosen snapshot
  run_admitted u e req =
      let stale = bytes "Stale world state revision" in
      elim (snapshot e.world_state_manager u.times.snapshot_at) [
        | err x ↦ some (
          e,
          refused req (bytes "World state error: " ++ debug_text x)
              (bytes "World state error: " ++ display_text x) [] 0,
        )
        | ok world ↦
            if req.force_stale_world_state
            then some (e, refused req stale stale [] world.revision)
            else run_chosen u e req (choose u e req world)
      ]

  -- The engine after a permit is held or given back.
  abbrev pub with_admission : PipelineEngine → AdmissionController → PipelineEngine
  with_admission e c = record e { admission_controller = c }

  -- The permit is dropped where the call returns.
  unfoldable pub leave :
      Permit → Option (PipelineEngine × PipelineOutcome) → Option (PipelineEngine × PipelineOutcome)
  unfolding release
  leave held none = none
  leave held (some (e, o)) = some (with_admission e (release e.admission_controller held), o)

  unfoldable pub process_request :
      Surroundings → PipelineEngine → PipelineRequest → Option (PipelineEngine × PipelineOutcome)
  unfolding leave admit
  process_request u e req =
      let unauthenticated = bytes "Authentication failed" in
      if bad_key req
      then some (e, refused req unauthenticated unauthenticated [] 0)
      else elim (admit e.admission_controller req.tenant_id) [
        | err x ↦
            let reason = bytes "Admission rejected: " ++ u.printer.admission_text x in
            some (e, refused req reason reason [] 0)
        | ok (controller, held) ↦ leave held (run_admitted u (with_admission e controller) req)
      ]
