-- ===== src/Status/Laws.antt =====
-- The label for each outcome of the two checks.
use axiom_ai.Common.{Bool, some, if◌then◌else◌, Text, codes, ◌≡◌, arith, ap₂, ◌∙◌}
use axiom_ai.Json.{Json}
use axiom_ai.Stream.{Fetched}
use axiom_ai.Api.{HealthResult, fetch_health, gateway_answers}
use axiom_ai.Api.Health.{ml_answers, fetch_health_reports}
use axiom_ai.Status.{online, offline, indicator_state, summary, label, check}

label_cases :
    (coerce : Json → Text) (h : HealthResult)
    → label coerce (some h) ≡ (
        if h.gateway_online
        then if h.ml_service_online then summary coerce h else codes "ML service warming up"
        else codes "Gateway offline")
unfolding label indicator_state
label_cases coerce h = ground arith

-- The two checks decide the label: a gateway that does not answer well is named first, then an ML
-- service that does not, and only with both is the summary shown. The banner of the sign-in page
-- is about the gateway alone.
label-fetch_health :
    (coerce : Json → Text) (gateway ml : Fetched)
    → (label coerce (some (fetch_health gateway ml)) ≡ (
        if gateway_answers gateway
        then if ml_answers ml
          then summary coerce (fetch_health gateway ml)
          else codes "ML service warming up"
        else codes "Gateway offline"))
      × (check gateway ≡ (if gateway_answers gateway then online else offline))
unfolding check
label-fetch_health coerce gateway ml =
    let h = fetch_health gateway ml in
    let (g, m) = fetch_health_reports gateway ml in
    (
      label_cases coerce h
          ∙ ap₂
              (λ (b c : Bool).
                if b
                then if c then summary coerce h else codes "ML service warming up"
                else codes "Gateway offline")
              g m,
      ground arith,
    )
