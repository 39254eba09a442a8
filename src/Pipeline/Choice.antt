-- ===== src/Pipeline/Choice.antt =====
-- src/pipeline.rs, stages 4 to 7: the candidate that is selected.
use trust_system.Prelude.{
  first?, ◌≡◌, ◌∙◌, refl, sym, ap, ◌≢◌, inl, inr, false, none, some, List, [], ◌∷◌, map, arith,
  holds, if◌then◌else◌, All, All-In, In, Option-cases, Ordering, Result, ok, err,
}
use trust_system.Prelude.Text.{Text, text_dec}
use trust_system.Prelude.First.{In-map, map-In, IsTotalOrder-self, first-In, In-first, first-least}
use trust_system.Prelude.Distinct.{In-All}
use trust_system.Prelude.Float.{Floats, IsIeee}
use trust_system.Backend.{backend_ids}
use trust_system.Trace.{TraceRejection}
use trust_system.Fabric.{KvAction}
use trust_system.Intelligence.World.{WorldState}
use trust_system.Intelligence.Candidates.{high, CounterfactualEstimate, estimate_order, evaluate}
use trust_system.Intelligence.Approval.{Approvable}
use trust_system.Intelligence.Ranking.{estimate_order-IsTotalOrder, evaluate-In, evaluate-IsSorted}
use trust_system.Pipeline.{PipelineRequest, PipelineOutcome, PipelineEngine}
use trust_system.Pipeline.Candidates.{Raw, kv_action_of}
use trust_system.Pipeline.Screen.{screen_valid}
use trust_system.Pipeline.Stages.{Selected, kv_of}
use trust_system.Pipeline.Choose.{
  Surroundings, registry_of, eligible_nodes, sorted_candidates, screen, select_from, choose_among,
  choose,
}
use trust_system.Pipeline.Screening.{
  IsOffer, IsWithin, sort_raw-IsOffer, screen_valid-All, screen_one-none,
}

module _ ⦃f : Floats⦄ where
  kv_of-action :
      (a : KvAction) (c : CounterfactualEstimate) (rs : List Raw)
      → All (λ r. r.1 ≡ a) rs
      → In c (map (λ r. r.0) rs)
      → kv_of c.id rs ≡ a
  unfolding kv_of
  kv_of-action a c [] h i = absurd i
  kv_of-action a c ((d, kv) ∷ rs) h i = ground (
    arith,
    elim (text_dec d.id c.id) as (λ x. (if holds x then kv else kv_of c.id rs) ≡ a) [
      | yes e ↦ h.0
      | no n ↦ elim i [
        | inl e ↦ absurd (n (ap (λ x. x.id) (sym e)))
        | inr j ↦ kv_of-action a c rs h.1 j
      ]
    ],
  )

  module _ (u : Surroundings) (e : PipelineEngine) (req : PipelineRequest)
      (world : WorldState) where
    abbrev pub remaining : List Raw
    remaining = screen_valid (screen u e req world) (sorted_candidates u e req world)

    -- What is known of a candidate that is left: where it comes from, the limits of the request,
    -- and the conditions of the firewall.
    pub record IsLeft (r : Raw) : Type 0 where
      pub offered :
          IsOffer e.prediction_engine
            (registry_of e)
            req
            world.revision
            u.times.predicted_at
            (backend_ids (registry_of e))
            (eligible_nodes e req)
            r
      pub within : IsWithin req r.0
      pub approvable : Approvable e.firewall r.0 world high (u.times.screened_at r.0)

    remaining-IsLeft : (r : Raw) → In r remaining → IsLeft r
    unfolding sorted_candidates
    remaining-IsLeft r i =
        let Offer : Raw → Type 0 =
          IsOffer e.prediction_engine (registry_of e) req world.revision u.times.predicted_at
            (backend_ids (registry_of e)) (eligible_nodes e req) in
        let (offer, passed) =
          All-In (λ x. Offer x × (screen u e req world x.0 ≡ none)) r remaining
            (screen_valid-All Offer (screen u e req world) _ (
              sort_raw-IsOffer e.prediction_engine (registry_of e) req world.revision
                u.times.predicted_at (backend_ids (registry_of e)) (eligible_nodes e req)))
            i in
        let (within, approvable) =
          screen_one-none u.printer e.firewall req world (u.times.screened_at r.0) r.0 passed in
        record { offered = offer; within = within; approvable = approvable }

    pub record IsChoice (s : Selected) : Type 0 where
      pub entry : Raw
      pub member : In entry remaining
      pub left : IsLeft entry
      pub candidate : entry.0 ≡ s.candidate
      pub action : s.kv_action ≡ kv_action_of req
      pub best : (r : Raw) → In r remaining → estimate_order s.candidate r.0 ≢ Ordering.gt
      pub in_world : s.world ≡ world

    -- A candidate that is left is feasible, so that the evaluation is not empty.
    select_from-answers :
        (rejected : List TraceRejection) (rs : List Raw)
        → ((r : Raw) → In r rs → IsLeft r)
        → (x : Result PipelineOutcome Selected) × (select_from req world rejected rs ≡ some x)
    unfolding select_from
    select_from-answers rejected [] h = (_, refl)
    select_from-answers rejected (r ∷ rs) h =
        let i =
          (evaluate-In (map (λ c. c.0) (r ∷ rs)) r.0).1
            (inl refl, (h r (inl refl)).approvable.feasible) in
        let (c, e) = first-In r.0 (evaluate (map (λ c. c.0) (r ∷ rs))) i in
        (
          ok (record {
            candidate = c;
            kv_action = kv_of c.id (r ∷ rs);
            world = world;
            rejected = rejected;
          }),
          rw (select_from, e) refl,
        )

    choose_among-answers :
        (ids : List Text)
        → (x : Result PipelineOutcome Selected) × (choose_among u e req world ids ≡ some x)
    unfolding choose_among
    choose_among-answers [] = (_, refl)
    choose_among-answers (id ∷ ids) = select_from-answers _ remaining remaining-IsLeft

    pub choose-answers : (x : Result PipelineOutcome Selected) × (choose u e req world ≡ some x)
    unfolding choose
    choose-answers = choose_among-answers (backend_ids (registry_of e))

    -- What a selection is made of: the first of the evaluated candidates.
    select_from-picks :
        (rejected : List TraceRejection) (rs : List Raw) (s : Selected)
        → select_from req world rejected rs ≡ some (ok s)
        → (first? (evaluate (map (λ c. c.0) rs)) ≡ some s.candidate)
          × (s.kv_action ≡ kv_of s.candidate.id rs)
          × (s.world ≡ world)
    unfolding select_from
    select_from-picks rejected [] s h = absurd (ground arith)
    select_from-picks rejected (r ∷ rs) s h =
        elim (Option-cases (first? (evaluate (map (λ c. c.0) (r ∷ rs))))) [
          | inl e ↦ absurd (ground arith)
          | inr (c, e) ↦ (ground arith, ground arith, ground arith)
        ]

    -- What a refusal is.
    select_from-refuses :
        (rejected : List TraceRejection) (rs : List Raw) (o : PipelineOutcome)
        → select_from req world rejected rs ≡ some (err o)
        → o.success ≡ false
    unfolding select_from
    select_from-refuses rejected [] o h = ground arith
    select_from-refuses rejected (r ∷ rs) o h =
        elim (Option-cases (first? (evaluate (map (λ c. c.0) (r ∷ rs))))) [
          | inl e ↦ absurd (ground arith)
          | inr (c, e) ↦ absurd (ground arith)
        ]

    choose_among-refuses :
        (ids : List Text) (o : PipelineOutcome)
        → choose_among u e req world ids ≡ some (err o)
        → o.success ≡ false
    unfolding choose_among
    choose_among-refuses [] o h = ground arith
    choose_among-refuses (id ∷ ids) o h = select_from-refuses _ remaining o h

    pub choose-refuses :
        (o : PipelineOutcome) → choose u e req world ≡ some (err o) → o.success ≡ false
    unfolding choose
    choose-refuses o h = choose_among-refuses (backend_ids (registry_of e)) o h

    choose_among-IsChoice :
        IsIeee
        → (ids : List Text) (s : Selected) → choose_among u e req world ids ≡ some (ok s)
        → IsChoice s
    unfolding choose_among
    choose_among-IsChoice ieee [] s h = absurd (ground arith)
    choose_among-IsChoice ieee (id ∷ ids) s h =
        let (first, action, in_world) = select_from-picks _ remaining s h in
        let cs = map (λ c. c.0) remaining in
        let i = ((evaluate-In cs s.candidate).0 (In-first s.candidate (evaluate cs) first)).0 in
        let (entry, member, same) = map-In (λ c. c.0) s.candidate remaining i in
        record {
          entry = entry;
          member = member;
          left = remaining-IsLeft entry member;
          candidate = same;
          action =
              action
              ∙ kv_of-action (kv_action_of req) s.candidate remaining
                  (In-All remaining (λ r j. (remaining-IsLeft r j).offered.action)) i;
          best = λ r j.
              first-least estimate_order s.candidate r.0 (evaluate cs)
                (IsTotalOrder-self (estimate_order-IsTotalOrder ieee)) (evaluate-IsSorted ieee cs)
                first
                ((evaluate-In cs r.0).1
                  (In-map (λ c. c.0) r remaining j, (remaining-IsLeft r j).approvable.feasible));
          in_world = in_world;
        }

    pub choose-IsChoice : IsIeee → (s : Selected) → choose u e req world ≡ some (ok s) → IsChoice s
    unfolding choose
    choose-IsChoice ieee s h = choose_among-IsChoice ieee (backend_ids (registry_of e)) s h
