-- ===== src/Admission/Invariant.antt =====
-- What the controller keeps about the permits that are out: the counters say how many there are.
use trust_system.Prelude.{
  suc, ◌+◌, ◌-◌, ◌≤◌, ◌<◌, ◌≡◌, List, [], ◌∷◌, ◌++◌, arith, ◌==◌, if◌then◌else◌, length,
  length-append, ok,
}
use trust_system.Prelude.Text.{Text, text_dec}
use trust_system.Prelude.Words.{u64_max, inc64_below, dec64_above}
use trust_system.Prelude.Order.{list_cmp}
use trust_system.Prelude.BTreeMap
use trust_system.Prelude.BTreeMap.{
  Sorted, KeysFrom, list_cmp-IsKeyOrder, insert-Sorted, remove-Sorted, get-KeysFrom, KeysFrom-trans,
  get-insert_self, get-insert_ne, get-remove_self, get-remove_ne,
}
use trust_system.Admission.Counts.{
  held_by, sum_of, AllPositive, count-insert, count-remove, sum-insert, sum-remove, positive-insert,
  positive-remove, count-le-sum, held_by-append,
}
use trust_system.Admission.{
  AdmissionPolicy, AdmissionController, Counts, Permit, permit, tenant_of, count_of, admit_locked,
  release, new,
}

pub record Inv (c : AdmissionController) (out : List Permit) : Type 0 where
  pub sorted : Sorted list_cmp c.state.tenant_in_flight
  pub positive : AllPositive c.state.tenant_in_flight
  pub summed : sum_of c.state.tenant_in_flight ≡ c.state.total_in_flight
  pub total : c.state.total_in_flight ≡ length out
  pub counted : (t : Text) → count_of t c.state.tenant_in_flight ≡ held_by t out
  pub global : c.state.total_in_flight ≤ c.policy.global_in_flight
  pub fits : c.policy.global_in_flight ≤ u64_max
  pub tenant : (t : Text) → count_of t c.state.tenant_in_flight ≤ c.policy.per_tenant_in_flight

-- A fresh controller has no permits out.
pub new-Inv :
    (p : AdmissionPolicy) {c : AdmissionController}
    → p.global_in_flight ≤ u64_max
    → new p ≡ ok c
    → Inv c []
unfolding new BTreeMap.get
new-Inv p h e = record {
  sorted = ground arith;
  positive = ground arith;
  summed = ground arith;
  total = ground arith;
  counted = λ t. ground arith;
  global = ground arith;
  fits = ground arith;
  tenant = λ t. ground arith;
}

-- What a request of `t` that is let in leaves behind.
abbrev pub admitted : AdmissionController → Text → AdmissionController
admitted c t = record c {
  state = record {
    total_in_flight = c.state.total_in_flight + 1;
    tenant_in_flight =
        BTreeMap.insert list_cmp t (count_of t c.state.tenant_in_flight + 1)
          c.state.tenant_in_flight;
  };
}

module _ {c : AdmissionController} {out : List Permit} (v : Inv c out) where
  open c use {policy}

  abbrev counts : Counts
  counts = c.state.tenant_in_flight

  pub admit_locked_ok :
      (t : Text)
      → c.state.total_in_flight < policy.global_in_flight
      → count_of t counts < policy.per_tenant_in_flight
      → admit_locked c t ≡ ok (admitted c t, permit t)
  unfolding admit_locked
  admit_locked_ok t g h =
      ground
        (arith, inc64_below (count_of t counts) u64_max, count-le-sum t counts, v.summed, v.fits)

  pub admitted-Inv :
      (t : Text)
      → c.state.total_in_flight < policy.global_in_flight
      → count_of t counts < policy.per_tenant_in_flight
      → Inv (admitted c t) (permit t ∷ out)
  admitted-Inv t g h = record {
    sorted = insert-Sorted list_cmp-IsKeyOrder t _ counts v.sorted;
    positive = positive-insert t _ counts (omega arith) v.positive;
    summed = omega (arith, sum-insert t (count_of t counts + 1) counts v.sorted, v.summed);
    total = omega (arith, v.total);
    counted = λ s.
        ground (arith, count-insert t s (count_of t counts + 1) counts, v.counted s, v.counted t);
    global = omega arith;
    fits = v.fits;
    tenant = λ s. ground (arith, count-insert t s (count_of t counts + 1) counts, v.tenant s);
  }

-- One permit is dropped, wherever it stands among those that are out.
module _ (c : AdmissionController) (ps qs : List Permit) (p : Permit)
    (v : Inv c (ps ++ p ∷ qs)) where
  open c use {policy}
  open c.state use {tenant_in_flight as before}

  held_positive : 0 < held_by (tenant_of p) (ps ++ p ∷ qs)
  held_positive = ground (arith, held_by-append (tenant_of p) ps (p ∷ qs))

  held_without :
      (s : Text)
      → held_by s (ps ++ p ∷ qs) ≡ elim (text_dec (tenant_of p) s) [
        | yes _ ↦ suc (held_by s (ps ++ qs))
        | no _ ↦ held_by s (ps ++ qs)
      ]
  held_without s = ground (arith, held_by-append s ps (p ∷ qs), held_by-append s ps qs)

  abbrev after : Counts → AdmissionController
  after m = record c {
    state = record { total_in_flight = c.state.total_in_flight - 1; tenant_in_flight = m };
  }

  abbrev dropped : Counts
  dropped =
      if count_of (tenant_of p) before - 1 == 0
      then BTreeMap.remove list_cmp (tenant_of p) before
      else BTreeMap.insert list_cmp (tenant_of p) (count_of (tenant_of p) before - 1) before

  release-after : release c p ≡ after dropped
  unfolding release
  release-after = ground (
    arith,
    v.counted (tenant_of p),
    held_positive,
    dec64_above (count_of (tenant_of p) before),
    dec64_above c.state.total_in_flight,
    count-le-sum (tenant_of p) before,
    v.summed,
    v.global,
    v.fits,
  )

  dropped-count :
      (s : Text)
      → count_of s dropped ≡ elim (text_dec (tenant_of p) s) [
        | yes _ ↦ count_of s before - 1
        | no _ ↦ count_of s before
      ]
  dropped-count s = ground (
    arith,
    count-remove (tenant_of p) s before v.sorted,
    count-insert (tenant_of p) s (count_of (tenant_of p) before - 1) before,
  )

  pub release-Inv : Inv (release c p) (ps ++ qs)
  release-Inv = rw release-after (record {
    sorted = ground (
      arith,
      remove-Sorted list_cmp-IsKeyOrder (tenant_of p) before v.sorted,
      insert-Sorted list_cmp-IsKeyOrder (tenant_of p) (count_of (tenant_of p) before - 1) before
          v.sorted,
    );
    positive = ground (
      arith,
      positive-remove (tenant_of p) before v.positive,
      positive-insert (tenant_of p) (count_of (tenant_of p) before - 1) before,
      v.positive,
    );
    summed = ground (
      arith,
      sum-remove (tenant_of p) before v.sorted,
      sum-insert (tenant_of p) (count_of (tenant_of p) before - 1) before v.sorted,
      v.summed,
      v.counted (tenant_of p),
      held_positive,
    );
    total = omega (arith, v.total, length-append ps (p ∷ qs), length-append ps qs);
    counted = λ s. ground (arith, dropped-count s, held_without s, v.counted s);
    global = omega (arith, v.global);
    fits = v.fits;
    tenant = λ s. ground (arith, dropped-count s, v.tenant s);
  })
