-- ===== src/Fabric/Gate.antt =====
-- src/fabric.rs, `AdmissionController`: two atomic counters with limits. `evaluate` reads a counter
-- and then adds to it by another operation, so that other threads run in between.
pub mod Overshoot
use trust_system.Prelude.{
  ℕ, ◌+◌, ◌≤◌, ◌<◌, ◌≡◌, Bool, true, false, Option, none, some, if◌then◌else◌, ltb,
}
use trust_system.Prelude.Words.{inc32, dec32}

pub data AdmissionDecision : Type 0 where
  accept queue defer shed fallback : AdmissionDecision

pub data AdmissionRejection : Type 0 where
  capacity_exhausted queue_full tenant_quota_exceeded concurrency_limit : AdmissionRejection
  timeout_budget_insufficient retry_budget_exhausted slo_infeasible : AdmissionRejection

pub record AdmissionController : Type 0 where
  pub global_concurrency_limit : ℕ
  pub max_queue_depth : ℕ
  pub active_requests : ℕ
  pub queue_depth : ℕ

abbrev pub new : ℕ → ℕ → AdmissionController
new global_concurrency_limit max_queue_depth = record {
  global_concurrency_limit = global_concurrency_limit;
  max_queue_depth = max_queue_depth;
  active_requests = 0;
  queue_depth = 0;
}

-- The atomic operations, which wrap around.
abbrev pub add_active : AdmissionController → AdmissionController
add_active c = record c { active_requests = inc32 c.active_requests }

abbrev pub add_queued : AdmissionController → AdmissionController
add_queued c = record c { queue_depth = inc32 c.queue_depth }

-- A call that no other thread runs into.
unfoldable pub evaluate :
    AdmissionController → AdmissionController × AdmissionDecision × Option AdmissionRejection
evaluate c =
    if ltb c.active_requests c.global_concurrency_limit
    then (add_active c, accept, none)
    else if ltb c.queue_depth c.max_queue_depth
    then (add_queued c, queue, none)
    else (c, shed, some queue_full)

unfoldable pub complete : AdmissionController → AdmissionController
complete c = record c { active_requests = dec32 c.active_requests }

unfoldable pub dequeue : AdmissionController → AdmissionController
dequeue c = record c { queue_depth = dec32 c.queue_depth }

-- The controller, how many threads stand at each point of `evaluate`, and how many requests were
-- accepted and queued and not yet taken out.
pub record System : Type 0 where
  pub controller : AdmissionController
  pub admitting : ℕ
  pub looking : ℕ
  pub enqueueing : ℕ
  pub running : ℕ
  pub waiting : ℕ

abbrev pub initial : ℕ → ℕ → System
initial limit depth = record {
  controller = new limit depth;
  admitting = 0;
  looking = 0;
  enqueueing = 0;
  running = 0;
  waiting = 0;
}

-- The threads that are inside `evaluate`.
abbrev pub inside : System → ℕ
inside s = s.admitting + s.looking + s.enqueueing

-- One atomic operation, of at most `n` threads that call `evaluate` at once. A request is completed
-- or taken off the queue once.
pub data Move (n : ℕ) (s : System) : System → Type 0 where
  sees_room :
      {s' : System}
      → inside s < n
      → ltb s.controller.active_requests s.controller.global_concurrency_limit ≡ true
      → s' ≡ record s { admitting = s.admitting + 1 }
      → Move n s s'
  sees_none :
      {s' : System}
      → inside s < n
      → ltb s.controller.active_requests s.controller.global_concurrency_limit ≡ false
      → s' ≡ record s { looking = s.looking + 1 }
      → Move n s s'
  accepts :
      {s' : System}
      → (k : ℕ) → s.admitting ≡ k + 1
      → s'
        ≡ record s { controller = add_active s.controller; admitting = k; running = s.running + 1 }
      → Move n s s'
  sees_space :
      {s' : System}
      → (k : ℕ) → s.looking ≡ k + 1
      → ltb s.controller.queue_depth s.controller.max_queue_depth ≡ true
      → s' ≡ record s { looking = k; enqueueing = s.enqueueing + 1 }
      → Move n s s'
  sheds :
      {s' : System}
      → (k : ℕ) → s.looking ≡ k + 1
      → ltb s.controller.queue_depth s.controller.max_queue_depth ≡ false
      → s' ≡ record s { looking = k }
      → Move n s s'
  queues :
      {s' : System}
      → (k : ℕ) → s.enqueueing ≡ k + 1
      → s'
        ≡ record s { controller = add_queued s.controller; enqueueing = k; waiting = s.waiting + 1 }
      → Move n s s'
  completes :
      {s' : System}
      → (k : ℕ) → s.running ≡ k + 1
      → s' ≡ record s { controller = complete s.controller; running = k }
      → Move n s s'
  dequeues :
      {s' : System}
      → (k : ℕ) → s.waiting ≡ k + 1
      → s' ≡ record s { controller = dequeue s.controller; waiting = k }
      → Move n s s'

pub data Reach (n limit depth : ℕ) : System → Type 0 where
  here : Reach n limit depth (initial limit depth)
  next : {s s' : System} → Reach n limit depth s → Move n s s' → Reach n limit depth s'
