-- ===== src/SessionStorage.antt =====
-- frontend/src/lib/session-storage.ts: the session under its key in `localStorage`. Every exception
-- is caught where the source catches it, so the three operations are total functions of the browser.
pub mod Laws
use axiom_ai.Common.{
  Bool, true, false, ◌&&◌, Option, none, some, ◌≡◌, or_else, map_option, if◌then◌else◌, Text, codes,
  text_truthy, [],
}
use axiom_ai.Json.{Json, JsonCodec, prop, truthy}
use axiom_ai.Browser.{Browser, get_item, set_item, remove_item}
use axiom_ai.Types.{StoredSession}
use axiom_ai.Types.Sessions.{session_json, session_of_json}

abbrev pub session_key : Text
session_key = codes "axiom-ai-session"

-- What the runtime's `JSON` promises of one value: its text is parsed back to it. The empty text is
-- no JSON.
pub record IsFaithful (codec : JsonCodec) (v : Json) : Type 0 where
  pub round_trip : codec.parse (codec.stringify v) ≡ some v
  pub empty_throws : codec.parse [] ≡ none

-- `!parsed?.accessToken || !parsed?.refreshToken || !parsed?.user`
unfoldable pub check_session : Json → Option Json
unfolding prop
check_session v =
    if truthy (prop (codes "accessToken") v)
      && truthy (prop (codes "refreshToken") v)
      && truthy (prop (codes "user") v)
    then some v
    else none

module _ (codec : JsonCodec) where
  unfoldable pub read_session : Option Text → Option Json
  unfolding check_session
  read_session none = none
  read_session (some raw) =
      if text_truthy raw
      then elim (codec.parse raw) [ none ↦ none | some v ↦ check_session v ]
      else none

  unfoldable pub load_session : Browser → Option Json
  unfolding read_session get_item
  load_session b =
      if b.window
      then elim (get_item b session_key) [ none ↦ none | some raw ↦ read_session raw ]
      else none

  -- The same behind the cast to `StoredSession`.
  unfoldable pub stored_session : Browser → Option StoredSession
  unfolding load_session session_of_json
  stored_session b = map_option session_of_json (load_session b)

  unfoldable pub save_session : Browser → StoredSession → Browser
  unfolding set_item
  save_session b s =
      if b.window then or_else (set_item b session_key (codec.stringify (session_json s))) b else b

unfoldable pub clear_session : Browser → Browser
unfolding remove_item
clear_session b = if b.window then or_else (remove_item b session_key) b else b
