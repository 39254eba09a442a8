-- ===== src/Audit/Ring.antt =====
-- src/lib.rs, `AuditPipeline`: what the ring holds after a history of events.
use trust_system.Prelude.{
  ℕ, zero, suc, ◌<◌, ◌≡◌, refl, ap, subst, drop, ◌-◌, List, [], ◌∷◌, ◌++◌, arith, length,
  if◌then◌else◌, ◌==◌, rest,
}
use mathlib.Core.List.{foldl, append-nil, append_assoc}
use trust_system.Prelude.Window.{last_n, last_n-push}
use trust_system.Audit.{AuditPipeline, new, push}

module _ {E : Type 0} where
  abbrev pub push_all : AuditPipeline E → List E → AuditPipeline E
  push_all = foldl push

  drop_nil : (k : ℕ) → drop {A = E} k [] ≡ []
  drop_nil zero = refl
  drop_nil (suc k) = refl

  nothing_dropped : (seen : List E) → (if length seen == 0 then rest seen else seen) ≡ seen
  nothing_dropped [] = refl
  nothing_dropped (x ∷ seen) = ground arith

  from_window :
      (n : ℕ)
      → 0 < n
      → (seen events : List E)
      → push_all (record { events = last_n n seen; capacity = n }) events
        ≡ record { events = last_n n (seen ++ events); capacity = n }
  unfolding push
  from_window n b seen [] = rw append-nil
  from_window n b seen (x ∷ events) =
      rw (last_n-push n seen x b, from_window n b (seen ++ x ∷ []) events) (rw append_assoc)

  -- A pipeline of a positive capacity holds, after any events, the last of them in their order, as
  -- many as its capacity.
  pub push_all-last_n :
      (capacity : ℕ) (events : List E)
      → 0 < capacity
      → (push_all (new capacity) events).events ≡ last_n capacity events
  push_all-last_n capacity events b =
      let e : push_all (record { events = last_n capacity []; capacity = capacity }) events
          ≡ record { events = last_n capacity events; capacity = capacity } =
        from_window capacity b [] events in
      ap {A = AuditPipeline E} {B = List E} (λ a. a.events)
        (subst
          (λ w.
            push_all (record { events = w; capacity = capacity }) events
            ≡ record { events = last_n capacity events; capacity = capacity })
          (drop_nil (0 - capacity)) e)

  -- A pipeline of capacity 0 never drops an event: it grows with the history.
  pub push_all_unbounded :
      (seen events : List E)
      → (push_all (record { events = seen; capacity = 0 }) events).events ≡ seen ++ events
  unfolding push
  push_all_unbounded seen [] = rw append-nil
  push_all_unbounded seen (x ∷ events) =
      rw (foldl, nothing_dropped seen, push_all_unbounded (seen ++ x ∷ []) events) (rw append_assoc)
