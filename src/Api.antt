-- ===== src/Api.antt =====
-- frontend/src/lib/api.ts besides the stream: the requests with their tokens, the one retry, the documents
-- and the health check. The server is a function of the requests sent so far, the last one first;
-- what the configured getter and refresher give are arguments.
pub mod Retry
pub mod Health
pub mod Config
pub mod Expired
use axiom_ai.Common.{
  ℕ, Bool, true, false, not, ◌==◌, Option, none, some, List, [], ◌∷◌, ◌++◌, map, if◌then◌else◌,
  Text, codes, text_truthy,
}
use axiom_ai.Json.{Json, null, str, arr, nil, of_items, Fields, obj, field, end, prop, JsonCodec}
use axiom_ai.Browser.{insert}
use axiom_ai.Types.{Role, user, assistant}
use axiom_ai.Types.Encode.{role_text}
use axiom_ai.Stream.{Response, Fetched, rejected, resolved, is_ok, describe_error, nullish}
use axiom_ai.Auth.{
  Result, ok, thrown, runtime_error, Request, Body, no_body, text_body, form_body, json_headers,
}

-- `headers.set("Authorization", …)` on a copy of the request's own headers.
unfoldable pub authorize : Text → Request → Request
unfolding insert
authorize token init = record init {
  headers = insert (codes "Authorization") (codes "Bearer " ++ token) init.headers;
}

-- `authHeaders`
unfoldable pub with_auth_headers : Option Text → Request → Request
unfolding authorize
with_auth_headers none init = init
with_auth_headers (some token) init = if text_truthy token then authorize token init else init

-- A 401, which is an answer: a `fetch` that rejects is not one.
abbrev pub is_unauthorized : Fetched → Bool
is_unauthorized (rejected name) = false
is_unauthorized (resolved res) = res.status == 401

-- The second `fetch`: no refreshed token, and the first answer is the caller's.
unfoldable pub retry :
    (List Request → Fetched) → Option Text → Request → List Request → Fetched × List Request
unfolding authorize
retry server none init sent = (server sent, sent)
retry server (some refreshed) init sent =
    if text_truthy refreshed
    then (server (authorize refreshed init ∷ sent), authorize refreshed init ∷ sent)
    else (server sent, sent)

unfoldable pub authed_fetch :
    (List Request → Fetched)
    → Option Text
    → Option Text
    → Request
    → List Request
    → Fetched × List Request
unfolding with_auth_headers retry
authed_fetch server token refreshed init sent =
    let first = with_auth_headers token init ∷ sent in
    if is_unauthorized (server first)
    then retry server refreshed init first
    else (server first, first)

abbrev pub turn_json : Role × Text → Json
turn_json (role, content) =
    obj (field (codes "role") (str (role_text role)) (field (codes "content") (str content) end))

module _ (api_base : Text) where
  unfoldable pub chat_request : JsonCodec → Text → List (Role × Text) → Request
  chat_request codec query history = record {
    method = codes "POST";
    url = api_base ++ codes "/api/chat/stream";
    headers = json_headers;
    body = text_body (
        codec.stringify (
          obj (
            field (codes "query") (str query)
              (field (codes "history") (arr (of_items (map turn_json history))) end))));
  }

  unfoldable pub documents_request : Request
  documents_request = record {
    method = codes "GET";
    url = api_base ++ codes "/api/documents";
    headers = [];
    body = no_body;
  }

  -- The form holds the one file, by its content.
  unfoldable pub upload_request : Text → Request
  upload_request file = record {
    method = codes "POST";
    url = api_base ++ codes "/api/upload";
    headers = [];
    body = form_body file;
  }

  -- `encode` is `encodeURIComponent`.
  unfoldable pub delete_request : (Text → Text) → Text → Request
  delete_request encode name = record {
    method = codes "DELETE";
    url = api_base ++ codes "/api/documents/" ++ encode name;
    headers = [];
    body = no_body;
  }

-- `data.documents ?? []`, where reading a property of `null` throws.
unfoldable pub listed_documents : Option Json → Result Json
unfolding prop
listed_documents none = runtime_error
listed_documents (some null) = runtime_error
listed_documents (some body) = ok (nullish (prop (codes "documents") body) (arr nil))

-- What the answers to those requests come to. `coerce` is the conversion to a string.
unfoldable pub fetch_documents : (Json → Text) → Fetched → Result Json
unfolding listed_documents describe_error
fetch_documents coerce (rejected name) = runtime_error
fetch_documents coerce (resolved res) =
    if is_ok res then listed_documents res.json else thrown (coerce (describe_error res))

-- `uploadDocument` and `deleteDocument` alike.
unfoldable pub accepted : (Json → Text) → Fetched → Result {0} Unit
unfolding describe_error
accepted coerce (rejected name) = runtime_error
accepted coerce (resolved res) = if is_ok res then ok tt else thrown (coerce (describe_error res))

pub record HealthResult : Type 0 where
  pub gateway_online : Bool
  pub ml_service_online : Bool
  pub llm_backend : Option Json
  pub llm_model : Option Json
  pub embedding_model : Option Json
  pub doc_count : Option Json

abbrev pub gateway_answers : Fetched → Bool
gateway_answers (rejected name) = false
gateway_answers (resolved res) = is_ok res

-- The result with nothing known of the ML service.
abbrev unknown : Bool → HealthResult
unknown online = record {
  gateway_online = online;
  ml_service_online = false;
  llm_backend = none;
  llm_model = none;
  embedding_model = none;
  doc_count = none;
}

-- The body of a good answer; a body that is no JSON throws, and so does reading `null`.
unfoldable pub read_health : Bool → Option Json → HealthResult
unfolding prop
read_health online none = unknown online
read_health online (some null) = unknown online
read_health online (some body) = record {
  gateway_online = online;
  ml_service_online = true;
  llm_backend = prop (codes "llm_backend") body;
  llm_model = prop (codes "llm_model") body;
  embedding_model = prop (codes "embedding_model") body;
  doc_count = prop (codes "doc_count") body;
}

-- What the answers of the gateway's `/health` and of `/api/health` come to.
unfoldable pub fetch_health : Fetched → Fetched → HealthResult
unfolding read_health
fetch_health gateway (rejected name) = unknown (gateway_answers gateway)
fetch_health gateway (resolved res) =
    if is_ok res
    then read_health (gateway_answers gateway) res.json
    else unknown (gateway_answers gateway)
