-- ===== src/Api/Expired.antt =====
-- A call whose access token has expired.
use axiom_ai.Common.{
  true, Option, none, some, List, ◌∷◌, Text, text_truthy, ◌≡◌, refl, ap, ◌∙◌, map_option, arith,
}
use axiom_ai.Json.{JsonCodec}
use axiom_ai.Browser.{Browser}
use axiom_ai.Types.{StoredSession}
use axiom_ai.SessionStorage.Laws.{IsOpen}
use axiom_ai.Stream.{Fetched}
use axiom_ai.Auth.{Request, Result, ok, thrown}
use axiom_ai.Api.{authorize, with_auth_headers, is_unauthorized, retry, authed_fetch}
use axiom_ai.Api.Config.{
  by_default, configured, get_access_token, refreshed_token, refresh_access_token,
}
use axiom_ai.AuthProvider.{Auth, current_user, start, mount, access_token, refresh, refresh_settled}
use axiom_ai.AuthProvider.Steps.{Reach}
use axiom_ai.AuthProvider.Sync.{stored_session-Reach}
use axiom_ai.Home.{home, auth_screen}

-- The request was sent with a token, and denied.
authed_fetch-denied :
    (server : List Request → Fetched) (token refreshed : Option Text) (init first : Request)
    (sent : List Request)
    → with_auth_headers token init ≡ first
    → is_unauthorized (server (first ∷ sent)) ≡ true
    → authed_fetch server token refreshed init sent ≡ retry server refreshed init (first ∷ sent)
unfolding authed_fetch
authed_fetch-denied server token refreshed init first sent e denied =
    rw (e, authed_fetch) (rw denied refl)

module _ (codec : JsonCodec) where
  -- In an open browser, after any events of the session, the module's own getter and that of the
  -- provider give the same token: it makes no difference to a request which of them is there.
  pub get_access_token-by_default :
      (b : Browser)
      → IsOpen b
      → {a : Auth} → Reach codec (mount codec (start b)) a
      → get_access_token codec by_default a ≡ get_access_token codec configured a
  unfolding get_access_token access_token
  get_access_token-by_default b ready r = ap (map_option _) (stored_session-Reach codec b ready r)

  -- A request whose token is held.
  with_token :
      (a : Auth) (s : StoredSession) (init : Request)
      → a.session ≡ some s
      → text_truthy s.access_token ≡ true
      → with_auth_headers (access_token a) init ≡ authorize s.access_token init
  unfolding with_auth_headers access_token
  with_token a s init held usable = rw held (rw usable refl)

  pub refresh_access_token-held :
      (answer : Result StoredSession) (a : Auth) (s : StoredSession)
      → a.session ≡ some s
      → refresh_access_token codec configured answer a
        ≡ (refreshed_token answer, refresh_settled codec answer (refresh a))
  unfolding refresh_access_token
  refresh_access_token-held answer a s held = ground arith

  refresh-is_ready : (a : Auth) → (refresh a).is_ready ≡ a.is_ready
  unfolding refresh
  refresh-is_ready a = ground arith

  -- A session with two access tokens that are not empty, and a server that answers the request with
  -- the held token by a 401. Where the gateway renews the session, the same request goes out once
  -- more with the new token, its answer is the caller's, and every later request carries the new
  -- token from the start. Where it does not, nothing more is sent, the 401 is the caller's, and the
  -- user is shown the sign-in form.
  pub expired_token_renewed :
      (server : List Request → Fetched) (a : Auth) (current fresh : StoredSession) (message : Text)
      (init later : Request) (sent : List Request)
      → a.session ≡ some current
      → a.is_ready ≡ true
      → text_truthy current.access_token ≡ true
      → text_truthy fresh.access_token ≡ true
      → is_unauthorized (server (authorize current.access_token init ∷ sent)) ≡ true
      → let once = authorize current.access_token init ∷ sent in
        let twice = authorize fresh.access_token init ∷ once in
        let token = get_access_token codec configured a in
        let (renewed, next) = refresh_access_token codec configured (ok fresh) a in
        let (denied, out) = refresh_access_token codec configured (thrown message) a in
        (authed_fetch server token renewed init sent ≡ (server twice, twice))
        × (with_auth_headers (get_access_token codec configured next) later
            ≡ authorize fresh.access_token later)
        × (authed_fetch server token denied init sent ≡ (server once, once))
        × (home out ≡ auth_screen)
  unfolding retry get_access_token refreshed_token refresh_settled home current_user
  expired_token_renewed server a current fresh message init later sent held ready usable usable'
        refused =
      let carried = with_token a current init held usable in
      let good = refresh_access_token-held (ok fresh) a current held in
      let bad = refresh_access_token-held (thrown message) a current held in
      let once = λ (refreshed : Option Text).
        authed_fetch-denied server (access_token a) refreshed init _ sent carried refused in
      (
        rw good (once (some fresh.access_token) ∙ (rw usable' refl)),
        rw good
            (with_token (refresh_settled codec (ok fresh) (refresh a)) fresh later refl usable'),
        rw bad (once none),
        rw bad (rw (refresh-is_ready a ∙ ready) refl),
      )
