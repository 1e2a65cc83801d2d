-- ===== src/Auth.antt =====
-- frontend/src/lib/auth.ts: the session that the gateway's answer gives, or the error that is thrown.
-- The network is outside: a function here is given what `fetch` returned, and the request that was
-- sent is a value of its own. `coerce` is the language's conversion of a value to a string.
pub mod Laws
pub mod Answers
use axiom_ai.Common.{
  ℕ, ◌+◌, ◌-◌, ◌*◌, max, Bool, true, false, Option, none, some, map_option, List, [], ◌∷◌, ◌++◌,
  if◌then◌else◌, Text, codes,
}
use axiom_ai.Json.{Json, null, str, Fields, obj, end, field, JsonCodec}
use axiom_ai.Types.{User, Session, StoredSession}
use axiom_ai.Types.Encode.{text_prop, number_prop}
use axiom_ai.Types.Sessions.{user_prop, numeric_prop}
use axiom_ai.Stream.{Response, Fetched, rejected, resolved, is_ok, describe_error}

-- A promise that resolves or rejects; the runtime's own errors carry a message of their own.
pub data Result {ℓ} (A : Type ℓ) : Type ℓ where
  ok : A → Result A
  thrown : Text → Result A
  runtime_error : Result A

pub data Body : Type 0 where
  no_body : Body
  text_body : Text → Body
  form_body : Text → Body

pub record Request : Type 0 where
  pub method : Text
  pub url : Text
  pub headers : List (Text × Text)
  pub body : Body

unfoldable pub to_stored_session : ℕ → Session → StoredSession
to_stored_session now payload = record {
  user = payload.user;
  access_token = payload.access_token;
  refresh_token = payload.refresh_token;
  expires_at = map_option (λ n. now + max (n - 60) 30 * 1000) payload.expires_in;
}

-- The cast `(await res.json()) as Session`.
unfoldable pub payload_of_json : Json → Session
unfolding text_prop numeric_prop user_prop
payload_of_json j = record {
  user = user_prop j;
  access_token = text_prop (codes "access_token") j;
  refresh_token = text_prop (codes "refresh_token") j;
  expires_in = numeric_prop (codes "expires_in") j;
  token_type = text_prop (codes "token_type") j;
}

abbrev pub json_headers : List (Text × Text)
json_headers = (codes "Content-Type", codes "application/json") ∷ []

module _ (api_base : Text) (codec : JsonCodec) where
  abbrev post_request : Text → Json → Request
  post_request path body = record {
    method = codes "POST";
    url = api_base ++ codes "/auth/" ++ path;
    headers = json_headers;
    body = text_body (codec.stringify body);
  }

  unfoldable pub register_request : Text → Text → Text → Request
  register_request email name password = post_request (codes "register") (
      obj (
        field (codes "email") (str email)
          (field (codes "name") (str name) (field (codes "password") (str password) end))))

  unfoldable pub login_request : Text → Text → Request
  login_request email password =
      post_request (codes "login")
        (obj (field (codes "email") (str email) (field (codes "password") (str password) end)))

  unfoldable pub refresh_request : Text → Request
  refresh_request token =
      post_request (codes "refresh") (obj (field (codes "refresh_token") (str token) end))

  unfoldable pub logout_request : Text → Request
  logout_request token =
      post_request (codes "logout") (obj (field (codes "refresh_token") (str token) end))

  unfoldable pub me_request : Text → Request
  me_request token = record {
    method = codes "GET";
    url = api_base ++ codes "/auth/me";
    headers = (codes "Authorization", codes "Bearer " ++ token) ∷ [];
    body = no_body;
  }

-- `toStoredSession` of the parsed body: a body that is no JSON throws, and so does reading `null`.
stored_payload : ℕ → Option Json → Result StoredSession
unfolding to_stored_session payload_of_json
stored_payload now none = runtime_error
stored_payload now (some null) = runtime_error
stored_payload now (some body) = ok (to_stored_session now (payload_of_json body))

module _ (coerce : Json → Text) where
  -- What `postAuth` makes of what `fetch` returned, at the time `now`.
  unfoldable pub post_auth : ℕ → Fetched → Result StoredSession
  unfolding stored_payload describe_error
  post_auth now (rejected name) = thrown (codes "Could not reach Axiom Gateway. Is it running?")
  post_auth now (resolved res) =
      if is_ok res then stored_payload now res.json else thrown (coerce (describe_error res))

  user_payload : Option Json → Result (Option User)
  unfolding user_prop
  user_payload none = runtime_error
  user_payload (some null) = runtime_error
  user_payload (some body) = ok (user_prop body)

  -- A `fetch` that rejects is not caught here.
  unfoldable pub fetch_me : Fetched → Result (Option User)
  unfolding user_payload describe_error
  fetch_me (rejected name) = runtime_error
  fetch_me (resolved res) =
      if is_ok res then user_payload res.json else thrown (coerce (describe_error res))
