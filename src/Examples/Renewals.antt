-- ===== src/Examples/Renewals.antt =====
-- An example for a question with an expired token.
use axiom_ai.Common.{ℕ, true, none, some, List, [], ◌∷◌, codes}
use axiom_ai.Types.{StoredSession}
use axiom_ai.Stream.{Fetched, resolved}
use axiom_ai.Stream.Chunks.{answer}
use axiom_ai.Auth.{Request}
use axiom_ai.Api.{chat_request}
use axiom_ai.AuthProvider.{Auth}
use axiom_ai.Home
use axiom_ai.ChatApp.{messages, history_of}
use axiom_ai.Examples.Fixtures.{letter_codec, ann, session_of, empty_browser, chat}

abbrev current : StoredSession
current = session_of ann (codes "R")

abbrev renewed : StoredSession
renewed = record (session_of ann (codes "S")) { access_token = codes "B" }

abbrev signed_in : Auth
signed_in = record {
  browser = empty_browser;
  session = some current;
  is_ready = true;
  flight = none;
  refreshed = [];
  logged_out = [];
}

abbrev answer_bytes : List (List ℕ)
answer_bytes = codes "data: t\n\ndata" ∷ codes ": s\n" ∷ codes "\ndata: d\n\n" ∷ []

-- The first request is denied, and every later one answered.
abbrev server : List Request → Fetched
server (r ∷ []) = resolved (record { status = 401; json = none; body = none })
server _ = answer 200 none answer_bytes []

abbrev question : Request
question =
    chat_request (codes "http://x") letter_codec (codes "and then?") (history_of (messages chat))
