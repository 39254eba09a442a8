-- ===== src/Audit.antt =====
-- src/lib.rs: what a router decides, the events that it reports, and `AuditPipeline`, the ring of the
-- latest events. The mutex makes each method one step.
pub mod Ring
mod Examples
use trust_system.Prelude.{
  ℕ, ◌≡◌, Bool, true, false, Option, none, some, List, [], ◌∷◌, ◌++◌, ◌==◌, if◌then◌else◌, length,
  rest, last?,
}
use trust_system.Prelude.Text.{Text}
use trust_system.Prelude.Float.{Floats, Num}
use trust_system.Health.{NodeState}
use trust_system.Graph.{Route}

abbrev pub audit_event_memory_limit : ℕ
audit_event_memory_limit = 10000

pub data EscalationReason : Type 0 where
  no_feasible_path tenant_not_found : EscalationReason

pub record EscalationContext : Type 0 where
  pub tenant_id : Text
  pub start : Text
  pub goal : Text
  pub reason : EscalationReason
  pub failed_or_blocked_nodes : List Text

module _ ⦃f : Floats⦄ where
  pub data RouteDecision : Type 0 where
    routed : Route → RouteDecision
    escalate : EscalationContext → RouteDecision

  pub data AuditEvent : Type 0 where
    reroute :
        (tenant_id start goal : Text) → (path : List Text) → Num → (cache_hit : Bool) → AuditEvent
    explicit_escalation : EscalationContext → AuditEvent
    health_changed : (tenant_id node_id : Text) → NodeState → (state_changed : Bool) → AuditEvent
    recovery_probe_opened : (tenant_id node_id : Text) → AuditEvent

-- The ring, whatever is kept in it.
pub record AuditPipeline (E : Type 0) : Type 0 where
  pub events : List E
  pub capacity : ℕ

module _ {E : Type 0} where
  abbrev pub new : ℕ → AuditPipeline E
  new capacity = record { events = []; capacity = capacity }

  unfoldable pub push : AuditPipeline E → E → AuditPipeline E
  push a event = record a {
    events = (if length a.events == a.capacity then rest a.events else a.events) ++ event ∷ [];
  }

  unfoldable pub last_event : AuditPipeline E → Option E
  last_event a = last? a.events
