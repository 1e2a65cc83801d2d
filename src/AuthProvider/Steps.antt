-- ===== src/AuthProvider/Steps.antt =====
-- The events of the session: calls of `refresh` from any number of requests and from the timer, the
-- gateway's answers, signing in and out, and what other tabs do to the browser's store, with the
-- events of it delivered at once.
use axiom_ai.Common.{Option, none, some, List, Text, text_truthy, true, false, ◌≡◌, IsNew}
use axiom_ai.Json.{JsonCodec}
use axiom_ai.Browser.{Browser}
use axiom_ai.Types.{StoredSession}
use axiom_ai.Types.Sessions.{session_json}
use axiom_ai.SessionStorage.{IsFaithful, session_key, stored_session}
use axiom_ai.SessionStorage.Laws.{IsOpen}
use axiom_ai.Auth.{ok, thrown, runtime_error}
use axiom_ai.AuthProvider.{
  Auth, is_session_key, refresh, refresh_settled, on_storage, sign_in, sign_out, is_some,
}

-- A session whose refresh token this tab has not sent yet.
abbrev pub IsUnspent : List Text → Option StoredSession → Type 0
IsUnspent sent none = Unit
IsUnspent sent (some s) = IsNew s.refresh_token sent

-- What a session of the gateway is: a user, an expiry, two tokens, the refresh token a new
-- one, and plain JSON.
pub record IsIssued (codec : JsonCodec) (sent : List Text) (s : StoredSession) : Type 0 where
  pub faithful : IsFaithful codec (session_json s)
  pub access : text_truthy s.access_token ≡ true
  pub token : text_truthy s.refresh_token ≡ true
  pub owned : is_some s.user ≡ true
  pub timed : is_some s.expires_at ≡ true
  pub unspent : IsNew s.refresh_token sent

module _ (codec : JsonCodec) where
  pub data Step : Auth → Auth → Type 0 where
    asked : (a : Auth) → Step a (refresh a)
    renewed :
        (a : Auth) (token : Text) (next : StoredSession)
        → a.flight ≡ some token
        → IsIssued codec a.refreshed next
        → Step a (refresh_settled codec (ok next) a)
    denied :
        (a : Auth) (token message : Text)
        → a.flight ≡ some token
        → Step a (refresh_settled codec (thrown message) a)
    failed :
        (a : Auth) (token : Text)
        → a.flight ≡ some token
        → Step a (refresh_settled codec runtime_error a)
    entered :
        (a : Auth) (next : StoredSession)
        → IsIssued codec a.refreshed next
        → Step a (sign_in codec (ok next) a)
    refused : (a : Auth) (message : Text) → Step a (sign_in codec (thrown message) a)
    left : (a : Auth) → Step a (sign_out a)
    -- Another tab has stored or cleared a session, and its event is here: the write and the delivery
    -- are one step. Between them this tab holds the session of before, as Tabs and Heard say.
    session_elsewhere :
        (a : Auth) (b : Browser)
        → IsOpen b
        → IsUnspent a.refreshed (stored_session codec b)
        → Step a (on_storage codec (some session_key) (record a { browser = b }))
    -- Another tab has written something else, and this tab was told of it.
    other_elsewhere :
        (a : Auth) (b : Browser) (key : Option Text)
        → IsOpen b
        → is_session_key key ≡ false
        → stored_session codec b ≡ stored_session codec a.browser
        → Step a (on_storage codec key (record a { browser = b }))

  pub data Reach (a : Auth) : Auth → Type 0 where
    here : Reach a a
    next : {b c : Auth} → Reach a b → Step b c → Reach a c
