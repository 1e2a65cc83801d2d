-- ===== src/Examples/Fixtures.antt =====
-- The inputs of the examples.
use axiom_ai.Common.{
  ℕ, true, false, Option, none, some, List, [], ◌∷◌, if◌then◌else◌, Text, codes, text_eq,
  text_truthy, ◌≡◌, refl, trim,
}
use axiom_ai.Json.{Json, str, arr, nil, JsonCodec}
use axiom_ai.Browser.{Browser}
use axiom_ai.SessionStorage.Laws.{IsOpen}
use axiom_ai.Types.{user, assistant, Message, Conversation, User, StoredSession, Session}
use axiom_ai.Stream.Chunks.{IsStreaming}
use axiom_ai.Stream.Replay.{Event, token, sources, finished, failure, event_json, IsPrinted}
use axiom_ai.ChatApp.{Chat, Fresh}

-- A codec that knows one value.
abbrev pub constant_codec : Json → JsonCodec
constant_codec v = record {
  parse = λ t. if text_truthy t then some v else none;
  stringify = λ w. codes "x";
}

-- A decoder for which each byte is a character.
abbrev pub ascii : Unit {0} → List ℕ → Unit {0} × Text
ascii d bytes = (tt, bytes)

pub ascii-IsStreaming : IsStreaming ascii
ascii-IsStreaming = record { no_bytes = λ d. refl; pieces = λ d a b. refl }

-- One letter for each kind of event; the codec knows the four that are sent.
abbrev pub letter : Event → Text
letter (token t) = codes "t"
letter (sources v) = codes "s"
letter finished = codes "d"
letter (failure t) = codes "e"

unfoldable pub read_letter : Text → Option Json
unfolding text_eq
read_letter t =
    if text_eq t (codes "t")
    then some (event_json (token (codes "hi")))
    else if text_eq t (codes "s")
    then some (event_json (sources (arr nil)))
    else if text_eq t (codes "d")
    then some (event_json finished)
    else if text_eq t (codes "e")
    then some (event_json (failure (codes "no model")))
    else none

abbrev pub letter_codec : JsonCodec
letter_codec = record { parse = read_letter; stringify = λ v. [] }

pub IsPrinted-token : IsPrinted letter_codec (token (codes "hi")) (letter (token (codes "hi")))
unfolding read_letter trim
IsPrinted-token = record { parsed = refl; one_line = (refl, tt); trimmed = refl; some_text = refl }

pub IsPrinted-sources : IsPrinted letter_codec (sources (arr nil)) (letter (sources (arr nil)))
unfolding read_letter trim
IsPrinted-sources = record {
  parsed = refl;
  one_line = (refl, tt);
  trimmed = refl;
  some_text = refl;
}

pub IsPrinted-finished : IsPrinted letter_codec finished (letter finished)
unfolding read_letter trim
IsPrinted-finished = record {
  parsed = refl;
  one_line = (refl, tt);
  trimmed = refl;
  some_text = refl;
}

pub IsPrinted-failure :
    IsPrinted letter_codec (failure (codes "no model")) (letter (failure (codes "no model")))
unfolding read_letter trim
IsPrinted-failure = record {
  parsed = refl;
  one_line = (refl, tt);
  trimmed = refl;
  some_text = refl;
}

abbrev pub as_string : Json → Text
as_string (str t) = t
as_string _ = []

pub as_string-str : (t : Text) → as_string (str t) ≡ t
as_string-str t = refl

abbrev pub question : Message
question = record {
  id = codes "q1";
  role = user;
  content = codes "why?";
  citations = none;
  created_at = 5;
  is_error = false;
}

abbrev pub reply : Message
reply = record {
  id = codes "a1";
  role = assistant;
  content = codes "so";
  citations = none;
  created_at = 6;
  is_error = false;
}

abbrev pub talk : Conversation
talk = record {
  id = codes "c1";
  title = codes "why?";
  messages = question ∷ reply ∷ [];
  created_at = 5;
  updated_at = 6;
}

abbrev pub other_talk : Conversation
other_talk = record {
  id = codes "c2";
  title = codes "New chat";
  messages = [];
  created_at = 9;
  updated_at = 9;
}

abbrev pub two_talks : List Conversation
two_talks = talk ∷ other_talk ∷ []

abbrev pub chat : Chat
chat = record {
  user_id = codes "u1";
  conversations = two_talks;
  active_id = some (codes "c1");
  input = codes "and then?";
  is_streaming = false;
  is_sidebar_open = false;
  documents_version = 0;
  abort_ref = none;
  aborted = [];
}

abbrev pub fresh : Fresh
fresh = record {
  user_message_id = codes "q2";
  assistant_message_id = codes "a2";
  user_time = 20;
  assistant_time = 20;
  update_time = 21;
}

abbrev pub later : Fresh
later = record {
  user_message_id = codes "q3";
  assistant_message_id = codes "a3";
  user_time = 30;
  assistant_time = 30;
  update_time = 31;
}

abbrev pub ann : User
ann = record {
  id = some (codes "u1");
  email = codes "ann@x";
  name = codes "Ann";
  created_at = codes "now";
}

abbrev pub bob : User
bob = record {
  id = some (codes "u2");
  email = codes "bob@x";
  name = codes "Bob";
  created_at = codes "now";
}

abbrev pub session_of : User → Text → StoredSession
session_of owner refresh = record {
  user = some owner;
  access_token = codes "A";
  refresh_token = refresh;
  expires_at = some 900;
}

abbrev pub payload : Session
payload = record {
  user = some ann;
  access_token = codes "A";
  refresh_token = codes "R";
  expires_in = some 900;
  token_type = codes "Bearer";
}

abbrev pub empty_browser : Browser
empty_browser = record { window = true; blocked = false; full = false; stored = [] }

pub empty-IsOpen : IsOpen empty_browser
empty-IsOpen = record { window = refl; unblocked = refl; roomy = refl }
