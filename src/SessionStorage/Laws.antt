-- ===== src/SessionStorage/Laws.antt =====
-- Saving, loading and clearing the session.
use axiom_ai.Common.{
  true, false, none, some, ◌≡◌, ◌≢◌, refl, Text, text_truthy, arith, [], ◌∷◌, text_eq_iff,
  text_eq_refl, is_some, Option-cases, inl, inr,
}
use axiom_ai.Json.{Json, JsonCodec}
use axiom_ai.Browser.{Browser, lookup, get_item, set_item, remove_item}
use axiom_ai.Browser.Laws.{lookup-insert_self, lookup-insert_ne, lookup-remove}
use axiom_ai.Types.{StoredSession}
use axiom_ai.Types.Sessions.{session_json, session_round}
use axiom_ai.SessionStorage.{
  session_key, IsFaithful, check_session, read_session, load_session, stored_session, save_session,
  clear_session,
}

-- A browser that lets the page read and write.
pub record IsOpen (b : Browser) : Type 0 where
  pub window : b.window ≡ true
  pub unblocked : b.blocked ≡ false
  pub roomy : b.full ≡ false

pub IsOpen-clear_session : (b : Browser) → IsOpen b → IsOpen (clear_session b)
unfolding clear_session remove_item
IsOpen-clear_session b h = ground arith

pub IsOpen-save_session :
    (codec : JsonCodec) (b : Browser) (s : StoredSession)
    → IsOpen b
    → IsOpen (save_session codec b s)
unfolding save_session set_item
IsOpen-save_session codec b s h = ground arith

pub truthy_of_faithful :
    (codec : JsonCodec) (v : Json) → IsFaithful codec v → text_truthy (codec.stringify v) ≡ true
truthy_of_faithful codec v h = go (codec.stringify v) h.round_trip
  where
    go : (t : Text) → codec.parse t ≡ some v → text_truthy t ≡ true
    go [] e = cc (h.empty_throws)
    go (c ∷ t) e = refl

check-session_json :
    (s : StoredSession)
    → text_truthy s.access_token ≡ true
    → text_truthy s.refresh_token ≡ true
    → is_some s.user ≡ true
    → check_session (session_json s) ≡ some (session_json s)
unfolding check_session session_json
check-session_json s a r owned = elim (Option-cases s.user) [
  | inl nobody ↦ cc
  | inr (u, e) ↦ rw (e, session_json) (rw (a, r) refl)
]

module _ (codec : JsonCodec) where
  -- In an open browser a session with two tokens, a user and an expiry that was saved is loaded
  -- again, field by field.
  pub stored_session-save_session :
      (b : Browser) (s : StoredSession)
      → IsOpen b
      → IsFaithful codec (session_json s)
      → text_truthy s.access_token ≡ true
      → text_truthy s.refresh_token ≡ true
      → is_some s.user ≡ true
      → is_some s.expires_at ≡ true
      → stored_session codec (save_session codec b s) ≡ some s
  unfolding stored_session load_session save_session get_item set_item read_session
  stored_session-save_session b s ready h a r owned timed = ground (
    arith,
    ready,
    h,
    lookup-insert_self session_key (codec.stringify (session_json s)) b.stored,
    truthy_of_faithful codec (session_json s) h,
    check-session_json s a r owned,
    session_round s timed,
  )

  -- Where the browser lets the page read, no session is loaded after it was cleared.
  pub stored_session-clear_session :
      (b : Browser) → b.blocked ≡ false → stored_session codec (clear_session b) ≡ none
  unfolding stored_session load_session clear_session get_item remove_item read_session
  stored_session-clear_session b u =
      ground (arith, lookup-remove session_key session_key b.stored, text_eq_refl session_key)

  -- The other keys
  pub lookup-save_session :
      (b : Browser) (s : StoredSession) (k : Text)
      → session_key ≢ k
      → lookup k (save_session codec b s).stored ≡ lookup k b.stored
  unfolding save_session set_item
  lookup-save_session b s k h =
      ground (arith, lookup-insert_ne session_key k (codec.stringify (session_json s)) b.stored)

pub lookup-clear_session :
    (b : Browser) (k : Text)
    → session_key ≢ k
    → lookup k (clear_session b).stored ≡ lookup k b.stored
unfolding clear_session remove_item
lookup-clear_session b k h =
    ground (arith, lookup-remove session_key k b.stored, text_eq_iff session_key k)
