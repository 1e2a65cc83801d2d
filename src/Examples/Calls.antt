-- ===== src/Examples/Calls.antt =====
-- Examples for calls with a token.
use axiom_ai.Common.{none, some, List, [], ◌∷◌, codes, ◌≡◌, refl, true}
use axiom_ai.Types.{StoredSession}
use axiom_ai.Stream.{Fetched, resolved}
use axiom_ai.Auth.{Request, ok, thrown}
use axiom_ai.Api.{authorize, with_auth_headers, authed_fetch, documents_request}
use axiom_ai.Api.Config.{configured, get_access_token, refresh_access_token}
use axiom_ai.Api.Expired.{expired_token_renewed}
use axiom_ai.AuthProvider.{Auth}
use axiom_ai.Home.{home, auth_screen}
use axiom_ai.Examples.Fixtures.{constant_codec, ann, session_of, empty_browser}
use axiom_ai.Types.Sessions.{session_json}
use axiom_ai.Json.{JsonCodec}

abbrev current : StoredSession
current = session_of ann (codes "R")

abbrev codec : JsonCodec
codec = constant_codec (session_json current)

abbrev server : List Request → Fetched
server (r ∷ []) = resolved (record { status = 401; json = none; body = none })
server _ = resolved (record { status = 200; json = none; body = none })

abbrev request : Request
request = documents_request (codes "http://x")

abbrev fresh : StoredSession
fresh = record (session_of ann (codes "S")) { access_token = codes "B" }

abbrev signed_in : Auth
signed_in = record {
  browser = empty_browser;
  session = some current;
  is_ready = true;
  flight = none;
  refreshed = [];
  logged_out = [];
}

expired_token_renewed_example :
    let once = authorize (codes "A") request ∷ [] in
    let twice = authorize (codes "B") request ∷ once in
    let token = get_access_token codec configured signed_in in
    let (renewed, after) = refresh_access_token codec configured (ok fresh) signed_in in
    let (denied, out) = refresh_access_token codec configured (thrown (codes "used")) signed_in in
    (authed_fetch server token renewed request [] ≡ (server twice, twice))
    × (with_auth_headers (get_access_token codec configured after) request
        ≡ authorize (codes "B") request)
    × (authed_fetch server token denied request [] ≡ (server once, once))
    × (home out ≡ auth_screen)
expired_token_renewed_example =
    expired_token_renewed codec server signed_in current fresh (codes "used") request request []
      refl refl refl refl refl
