-- ===== src/Status.antt =====
-- frontend/src/components/StatusIndicator.tsx and BackendStatus.tsx: what the page says of the services. `coerce`
-- is the language's conversion of a value to a string.
pub mod Laws
pub mod Polling
pub mod Watching
use axiom_ai.Common.{
  ℕ, Bool, true, false, ◌==◌, ◌&&◌, Option, none, some, List, [], ◌∷◌, ◌++◌, if◌then◌else◌, Text,
  codes, text_eq,
}
use axiom_ai.Json.{Json, num, str}
use axiom_ai.Stream.{Fetched, rejected, resolved, is_ok, nullish, is_text}
use axiom_ai.Api.{HealthResult}

pub data ConnectionState : Type 0 where
  checking online offline : ConnectionState

unfoldable pub indicator_state : Option HealthResult → ConnectionState
indicator_state none = checking
indicator_state (some h) = if h.gateway_online && h.ml_service_online then online else offline

abbrev is_one : Json → Bool
is_one (num n) = n == 1
is_one _ = false

-- `${docs} document${docs === 1 ? "" : "s"} · ${backend}`
unfoldable pub summary : (Json → Text) → HealthResult → Text
unfolding text_eq
summary coerce h =
    let docs = nullish h.doc_count (num 0) in
    let backend = if is_text h.llm_backend (codes "groq") then codes "Groq" else codes "Ollama" in
    coerce docs
    ++ codes " document"
    ++ (if is_one docs then [] else codes "s")
    ++ codes " · "
    ++ backend

abbrev offline_label : HealthResult → Text
offline_label h =
    if h.gateway_online then codes "ML service warming up" else codes "Gateway offline"

abbrev known_label : (Json → Text) → ConnectionState → HealthResult → Text
known_label coerce checking h = codes "Checking connection…"
known_label coerce online h = summary coerce h
known_label coerce offline h = offline_label h

unfoldable pub label : (Json → Text) → Option HealthResult → Text
unfolding summary indicator_state
label coerce none = codes "Checking connection…"
label coerce (some h) = known_label coerce (indicator_state (some h)) h

-- What the indicator says in full: `${docs} … indexed · ${llmModel} via ${backend} · …`
abbrev in_full : (Json → Text) → ConnectionState → HealthResult → Text
in_full coerce checking h = label coerce (some h)
in_full coerce offline h = label coerce (some h)
in_full coerce online h =
    let docs = nullish h.doc_count (num 0) in
    coerce docs
    ++ codes " document"
    ++ (if is_one docs then [] else codes "s")
    ++ codes " indexed · "
    ++ coerce (nullish h.llm_model (str (codes "model")))
    ++ codes " via "
    ++ (if is_text h.llm_backend (codes "groq") then codes "Groq" else codes "Ollama")
    ++ codes " · "
    ++ coerce (nullish h.embedding_model (str (codes "BGE")))
    ++ codes " embeddings"

unfoldable pub detail : (Json → Text) → Option HealthResult → Text
unfolding label indicator_state text_eq
detail coerce none = label coerce none
detail coerce (some h) = in_full coerce (indicator_state (some h)) h

-- The check of `BackendStatus`, which shows its banner only for `offline`.
unfoldable pub check : Fetched → ConnectionState
check (rejected name) = offline
check (resolved res) = if is_ok res then online else offline
