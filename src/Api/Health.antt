-- ===== src/Api/Health.antt =====
-- What the health check says of the two services.
use axiom_ai.Common.{Bool, true, false, ◌&&◌, Option, none, some, ◌≡◌, refl, arith}
use axiom_ai.Json.{Json, null}
use axiom_ai.Stream.{Fetched, rejected, resolved, is_ok}
use axiom_ai.Api.{gateway_answers, read_health, fetch_health}

-- A body that properties can be read of.
abbrev pub is_readable : Option Json → Bool
is_readable none = false
is_readable (some null) = false
is_readable (some _) = true

abbrev pub ml_answers : Fetched → Bool
ml_answers (rejected name) = false
ml_answers (resolved res) = is_ok res && is_readable res.json

read_health-online :
    (online : Bool) (json : Option Json)
    → ((read_health online json).gateway_online ≡ online)
      × ((read_health online json).ml_service_online ≡ is_readable json)
unfolding read_health
read_health-online online none = (refl, refl)
read_health-online online (some null) = (refl, refl)
read_health-online online (some _) = (refl, refl)

-- The gateway is reported as online exactly where its own check answers with success, and the ML
-- service exactly where its check does and the body can be read, whatever the other one does.
pub fetch_health_reports :
    (gateway ml : Fetched)
    → ((fetch_health gateway ml).gateway_online ≡ gateway_answers gateway)
      × ((fetch_health gateway ml).ml_service_online ≡ ml_answers ml)
unfolding fetch_health
fetch_health_reports gateway (rejected name) = (refl, refl)
fetch_health_reports gateway (resolved res) =
    ground (arith, read_health-online (gateway_answers gateway) res.json)
