-- ===== src/Admission/RoundTrip.antt =====
-- `admit` followed by the drop of the permit that it gave.
use trust_system.Prelude.{ℕ, ◌+◌, ◌-◌, ◌≤◌, ◌<◌, ◌≡◌, some, List, arith, ok, ◌==◌, if◌then◌else◌}
use trust_system.Prelude.Text.{Text}
use trust_system.Prelude.Order.{list_cmp}
use trust_system.Prelude.Words.{u64_max, dec64_above}
use trust_system.Prelude.BTreeMap
use trust_system.Prelude.BTreeMap.{get-insert_self, list_cmp-IsKeyOrder}
use trust_system.Admission.{AdmissionController, Permit, permit, admit, release, count_of}
use trust_system.Admission.Counts.{set_back, drop_new, count-positive, count-le-sum}
use trust_system.Admission.Invariant.{Inv, admitted}
use trust_system.Admission.Steps.{admit-admitted}

release_at :
    (c : AdmissionController) (t : Text) (n : ℕ)
    → BTreeMap.get list_cmp t c.state.tenant_in_flight ≡ some n
    → 0 < n
    → n ≤ u64_max
    → 0 < c.state.total_in_flight
    → c.state.total_in_flight ≤ u64_max
    → release c (permit t) ≡ record c {
      state = record {
        total_in_flight = c.state.total_in_flight - 1;
        tenant_in_flight =
            if n - 1 == 0
            then BTreeMap.remove list_cmp t c.state.tenant_in_flight
            else BTreeMap.insert list_cmp t (n - 1) c.state.tenant_in_flight;
      };
    }
unfolding release
release_at c t n e h b p q =
    ground (arith, dec64_above n h b, dec64_above c.state.total_in_flight p q)

release-admitted :
    (c : AdmissionController) (out : List Permit) (t : Text)
    → Inv c out
    → c.state.total_in_flight < u64_max
    → release (admitted c t) (permit t) ≡ c
release-admitted c out t v h =
    let m = c.state.tenant_in_flight in
    ground (
      arith,
      release_at (admitted c t) t (count_of t m + 1),
      get-insert_self list_cmp list_cmp-IsKeyOrder t (count_of t m + 1) m,
      count-le-sum t m,
      v.summed,
      set_back t (count_of t m) (count_of t m + 1) m v.sorted,
      drop_new t (count_of t m + 1) m,
      count-positive t (count_of t m) m v.positive,
    )

-- A permit that is dropped right after it was given leaves the controller exactly as it was.
pub release-admit :
    (c : AdmissionController) (out : List Permit) (t : Text) (c' : AdmissionController) (p : Permit)
    → Inv c out
    → admit c t ≡ ok (c', p)
    → release c' p ≡ c
release-admit c out t c' p v e =
    let (same, mine, room) = admit-admitted c out t c' p v e in
    rw (same, mine) (release-admitted c out t v (omega (arith, v.total, v.fits)))
