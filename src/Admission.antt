-- ===== src/Admission.antt =====
-- src/admission.rs: the process-local admission controller. The mutex makes each method one step;
-- a permit is the tenant that it was given for, and dropping it is the method `release`.
pub mod Counts
pub mod Invariant
pub mod Steps
pub mod RoundTrip
mod Examples
use trust_system.Prelude.{
  ℕ, suc, ◌≡◌, Bool, true, false, not, Option, none, some, List, [], ◌∷◌, leb, ltb, ◌==◌,
  if◌then◌else◌, Result, ok, err, ◌>>=◌, ◌>>◌, reject_if,
}
use trust_system.Prelude.Text.{Text, valid_identifier}
use trust_system.Prelude.Words.{inc64, dec64}
use trust_system.Prelude.Order.{list_cmp}
use trust_system.Prelude.BTreeMap

pub record AdmissionPolicy : Type 0 where
  pub global_in_flight : ℕ
  pub per_tenant_in_flight : ℕ

-- The messages of `InvalidPolicy`.
pub data PolicyFault : Type 0 where
  global_is_zero per_tenant_is_zero per_tenant_exceeds_global : PolicyFault

pub data AdmissionError : Type 0 where
  invalid_policy : PolicyFault → AdmissionError
  invalid_tenant : AdmissionError
  global_limit : ℕ → AdmissionError
  tenant_limit : Text → ℕ → AdmissionError

abbrev pub default_policy : AdmissionPolicy
default_policy = record { global_in_flight = 1024; per_tenant_in_flight = 64 }

unfoldable pub validate : AdmissionPolicy → Result AdmissionError (Unit {0})
validate p = do
  reject_if (p.global_in_flight == 0) (invalid_policy global_is_zero)
  reject_if (p.per_tenant_in_flight == 0) (invalid_policy per_tenant_is_zero)
  reject_if (ltb p.global_in_flight p.per_tenant_in_flight)
      (invalid_policy per_tenant_exceeds_global)
  ok tt

abbrev pub Counts : Type 0
Counts = List (Text × ℕ)

pub record AdmissionState : Type 0 where
  pub total_in_flight : ℕ
  pub tenant_in_flight : Counts

pub record AdmissionController : Type 0 where
  pub policy : AdmissionPolicy
  pub state : AdmissionState

unfoldable pub new : AdmissionPolicy → Result AdmissionError AdmissionController
unfolding validate
new policy = do
  validate policy
  ok (record { policy = policy; state = record { total_in_flight = 0; tenant_in_flight = [] } })

-- `.get(tenant).copied().unwrap_or_default()`.
abbrev pub count_of : Text → Counts → ℕ
count_of tenant m = elim (BTreeMap.get list_cmp tenant m) [ none ↦ 0 | some n ↦ n ]

pub data Permit : Type 0 where
  permit : Text → Permit

abbrev pub tenant_of : Permit → Text
tenant_of (permit tenant) = tenant

-- The critical section of `admit`, past the identifier check.
unfoldable pub admit_locked :
    AdmissionController → Text → Result AdmissionError (AdmissionController × Permit)
admit_locked c tenant = do
  let state = c.state
  reject_if (leb c.policy.global_in_flight state.total_in_flight)
      (global_limit c.policy.global_in_flight)
  let tenant_count = count_of tenant state.tenant_in_flight
  reject_if (leb c.policy.per_tenant_in_flight tenant_count)
      (tenant_limit tenant c.policy.per_tenant_in_flight)
  ok (
    record c {
      state = record {
        total_in_flight = inc64 state.total_in_flight;
        tenant_in_flight =
            BTreeMap.insert list_cmp tenant (inc64 tenant_count) state.tenant_in_flight;
      };
    },
    permit tenant,
  )

unfoldable pub admit :
    AdmissionController → Text → Result AdmissionError (AdmissionController × Permit)
unfolding admit_locked
admit c tenant = do reject_if (not (valid_identifier tenant)) invalid_tenant; admit_locked c tenant

-- `Drop for AdmissionPermit`.
unfoldable pub release : AdmissionController → Permit → AdmissionController
release c p =
    let state = c.state in
    elim (BTreeMap.get list_cmp (tenant_of p) state.tenant_in_flight) [
      | none ↦ c
      | some n ↦ record c {
        state = record {
          total_in_flight = dec64 state.total_in_flight;
          tenant_in_flight =
              if dec64 n == 0
              then BTreeMap.remove list_cmp (tenant_of p) state.tenant_in_flight
              else BTreeMap.insert list_cmp (tenant_of p) (dec64 n) state.tenant_in_flight;
        };
      }
    ]

pub snapshot : AdmissionController → AdmissionState
snapshot c = c.state
