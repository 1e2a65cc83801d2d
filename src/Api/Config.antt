-- ===== src/Api/Config.antt =====
-- The module state of frontend/src/lib/api.ts: the getter and the refresher, by default and as
-- `configureAuth` sets them for the provider of frontend/src/context/AuthProvider.tsx.
use axiom_ai.Common.{Option, none, some, Text, map_option}
use axiom_ai.Json.{JsonCodec}
use axiom_ai.Types.{StoredSession}
use axiom_ai.SessionStorage.{stored_session}
use axiom_ai.Auth.{Result, ok, thrown, runtime_error}
use axiom_ai.AuthProvider.{Auth, access_token, refresh, refresh_settled}

-- Whose functions the module holds: its own ones, or those of the provider.
pub data Config : Type 0 where
  by_default : Config
  configured : Config

unfoldable pub get_access_token : JsonCodec → Config → Auth → Option Text
unfolding access_token
get_access_token codec by_default a =
    map_option (λ (s : StoredSession). s.access_token) (stored_session codec a.browser)
get_access_token codec configured a = access_token a

-- What the promise of a refresh resolves to, given the gateway's answer.
unfoldable pub refreshed_token : Result StoredSession → Option Text
refreshed_token (ok next) = some next.access_token
refreshed_token (thrown message) = none
refreshed_token runtime_error = none

-- `await refreshAccessToken()`: without a session there is nothing to wait for, and a refresh that
-- is in flight is waited for like one that is started.
unfoldable pub refresh_access_token :
    JsonCodec → Config → Result StoredSession → Auth → Option Text × Auth
unfolding refresh refresh_settled refreshed_token
refresh_access_token codec by_default answer a = (none, a)
refresh_access_token codec configured answer a = elim a.session [
  | none ↦ (none, a)
  | some current ↦ (refreshed_token answer, refresh_settled codec answer (refresh a))
]
