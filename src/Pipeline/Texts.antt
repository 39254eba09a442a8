-- ===== src/Pipeline/Texts.antt =====
-- src/kv.rs, src/fabric.rs, src/intelligence.rs: the texts that the pipeline prints into its outcomes.
use trust_system.Prelude.{ℕ, ◌+◌, ◌/◌, ◌%◌, zero, suc, [], ◌∷◌, ◌++◌, if◌then◌else◌, ltb}
use trust_system.Prelude.Text.{Text, bytes}
use trust_system.Kv.{KvStrategy, no_kv, prefix_cache, cached_kv, cross_model_transfer}
use trust_system.Fabric.{
  FabricError, timeout, capability_mismatch, admission_rejected, stale_lease, queue_full,
  backend_unavailable, identity_mismatch, malformed_response, kv_transfer_failed, stale_readiness,
}
use trust_system.Intelligence.{
  IntelligenceError, invalid_observation, invalid_configuration, stale_world_state,
  insufficient_data,
}

-- The decimal digits of a u64: 20 are enough.
abbrev pub digits : ℕ → ℕ → Text
digits zero n = []
digits (suc fuel) n =
    let front = digits fuel (n / 10) in
    if ltb n 10 then (48 + n) ∷ [] else front ++ (48 + n % 10) ∷ []

abbrev pub show_u64 : ℕ → Text
show_u64 n = digits 20 n

-- The derived `Debug` of `KvStrategy` and of `FabricError`, which is also its `Display`.
abbrev pub strategy_text : KvStrategy → Text
strategy_text no_kv = bytes "None"
strategy_text prefix_cache = bytes "PrefixCache"
strategy_text cached_kv = bytes "CachedKv"
strategy_text cross_model_transfer = bytes "CrossModelKvTransfer"

abbrev pub quoted : Text → Text
quoted t = bytes "(" ++ 34 ∷ t ++ 34 ∷ bytes ")"

abbrev pub fabric_text : FabricError → Text
fabric_text timeout = bytes "Timeout"
fabric_text capability_mismatch = bytes "CapabilityMismatch"
fabric_text (admission_rejected t) = bytes "AdmissionRejected" ++ quoted t
fabric_text stale_lease = bytes "StaleLease"
fabric_text queue_full = bytes "QueueFull"
fabric_text backend_unavailable = bytes "BackendUnavailable"
fabric_text identity_mismatch = bytes "IdentityMismatch"
fabric_text malformed_response = bytes "MalformedResponse"
fabric_text kv_transfer_failed = bytes "KvTransferFailed"
fabric_text stale_readiness = bytes "StaleReadiness"

-- The derived `Debug` and the `Display` of `IntelligenceError`.
abbrev pub debug_text : IntelligenceError → Text
debug_text (invalid_observation t) = bytes "InvalidObservation" ++ quoted t
debug_text (invalid_configuration t) = bytes "InvalidConfiguration" ++ quoted t
debug_text stale_world_state = bytes "StaleWorldState"
debug_text insufficient_data = bytes "InsufficientData"

abbrev pub display_text : IntelligenceError → Text
display_text (invalid_observation t) = bytes "invalid observation: " ++ t
display_text (invalid_configuration t) = bytes "invalid configuration: " ++ t
display_text stale_world_state = bytes "stale world state"
display_text insufficient_data = bytes "insufficient data for prediction"
