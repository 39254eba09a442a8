-- ===== src/Admission/Examples.antt =====
-- The admission controller on small inputs.
use trust_system.Prelude.{◌≡◌, refl, [], ◌∷◌, arith, length, ok, err, ◌≤◌}
use trust_system.Prelude.Text.{Text, bytes, valid_identifier, text_dec}
use trust_system.Prelude.BTreeMap
use trust_system.Admission.{
  AdmissionPolicy, AdmissionController, permit, tenant_limit, count_of, validate, new, admit_locked,
  admit, release, snapshot,
}
use trust_system.Admission.Counts.{held_by}
use trust_system.Admission.Invariant.{Inv, new-Inv}
use trust_system.Admission.Steps.{World, Step, Reach, Explains, never_over_limit, admit-Explains}
use trust_system.Admission.RoundTrip.{release-admit}

program : Unit {0}
unfolding validate new admit_locked admit release snapshot valid_identifier text_dec BTreeMap.get
    BTreeMap.insert BTreeMap.remove
program = tt

abbrev policy : AdmissionPolicy
policy = record { global_in_flight = 3; per_tenant_in_flight = 1 }

abbrev ann : Text
ann = bytes "ann"

abbrev empty : AdmissionController
empty = record { policy = policy; state = record { total_in_flight = 0; tenant_in_flight = [] } }

abbrev one : AdmissionController
one = record empty { state = record { total_in_flight = 1; tenant_in_flight = (ann, 1) ∷ [] } }

new_lem : new policy ≡ ok empty
unfolding program
new_lem = refl

admits_one : admit empty ann ≡ ok (one, permit ann)
unfolding program
admits_one = refl

refuse_second : admit one ann ≡ err (tenant_limit ann 1)
unfolding program
refuse_second = refl

abbrev admitted_world : World
admitted_world = record { controller = one; out = permit ann ∷ [] }

abbrev drained : World
drained = record { controller = release one (permit ann); out = [] }

run : Reach (record { controller = empty; out = [] }) drained
run =
    Reach.next (Reach.next Reach.here (Step.admits _ ann one (permit ann) admits_one))
      (Step.drops admitted_world [] [] (permit ann) refl)

never_over_limit_example :
    (length drained.out ≤ 3)
    × ((t : Text) → held_by t drained.out ≤ 1)
    × ((t : Text)
        → count_of t (snapshot drained.controller).tenant_in_flight ≡ held_by t drained.out)
    × (length (snapshot drained.controller).tenant_in_flight ≤ 3)
never_over_limit_example = never_over_limit policy empty drained (omega arith) new_lem run

empty-Inv : Inv empty []
empty-Inv = new-Inv policy (omega arith) new_lem

admit-Explains_example : Explains empty [] ann (admit empty ann)
admit-Explains_example = admit-Explains empty [] ann empty-Inv

release-admit_example : release one (permit ann) ≡ empty
release-admit_example = release-admit empty [] ann one (permit ann) empty-Inv admits_one
