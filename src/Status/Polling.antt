-- ===== src/Status/Polling.antt =====
-- The effects of frontend/src/components/StatusIndicator.tsx and BackendStatus.tsx that ask for the health of the
-- services, at once and then by an interval. The interval does not wait for an answer, so several
-- polls may be under way; a poll is named by its number.
use axiom_ai.Common.{
  ℕ, suc, Bool, true, false, Option, none, some, List, [], ◌∷◌, ◌++◌, if◌then◌else◌, Text, codes,
}
use axiom_ai.Stream.{Fetched}
use axiom_ai.Api.{HealthResult, fetch_health}
use axiom_ai.Status.{ConnectionState, checking, online, offline, check}

-- `shown` is what the component holds, `waiting` are the polls that have no answer yet.
pub record Poller (S : Type 0) : Type 0 where
  pub shown : S
  pub cancelled : Bool
  pub polls : ℕ
  pub waiting : List ℕ

module _ {S : Type 0} where
  unfoldable pub poll : Poller S → Poller S
  poll p = record p { polls = suc p.polls; waiting = p.waiting ++ p.polls ∷ [] }

  -- The effect of the first render.
  unfoldable pub watch : S → Poller S
  unfolding poll
  watch first = poll (record { shown = first; cancelled = false; polls = 0; waiting = [] })

  -- The interval, which the cleanup takes down.
  unfoldable pub tick : Poller S → Poller S
  unfolding poll
  tick p = if p.cancelled then p else poll p

  -- `if (!cancelled) setState(result)`
  unfoldable pub polled : S → Poller S → Poller S
  polled result p = if p.cancelled then p else record p { shown = result }

  unfoldable pub cleanup : Poller S → Poller S
  cleanup p = record p { cancelled = true }

-- `StatusIndicator` and `BackendStatus`: the first state, and what an answer makes of it.
unfoldable pub indicator : Poller (Option HealthResult)
unfolding watch
indicator = watch none

unfoldable pub indicator_polled :
    Fetched → Fetched → Poller (Option HealthResult) → Poller (Option HealthResult)
unfolding polled fetch_health
indicator_polled gateway ml p = polled (some (fetch_health gateway ml)) p

unfoldable pub backend : Poller ConnectionState
unfolding watch
backend = watch checking

unfoldable pub backend_polled : Fetched → Poller ConnectionState → Poller ConnectionState
unfolding polled check
backend_polled fetched p = polled (check fetched) p

-- The texts of the banner, which stands there for `offline` alone.
unfoldable pub banner : Text → ConnectionState → Option (List Text)
banner api_base checking = none
banner api_base online = none
banner api_base offline = some (
    codes "Backend not reachable"
    ∷ codes
        "Nothing will work until the API is running. Signing in and creating an account both need it."
    ∷ (codes "Start it with docker compose up in the project root, "
        ++ codes "then this message disappears on its own.")
    ∷ (codes "Expected at " ++ api_base)
    ∷ [])
