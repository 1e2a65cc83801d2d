-- ===== src/AuthProvider.antt =====
-- frontend/src/context/AuthProvider.tsx: the session that the application holds, its copy in the
-- browser, and the one refresh that may be in flight. The ref and the React state always hold the
-- same session, so one field stands for both. An answer of the gateway is an event of its own, since
-- anything may happen between a request and its answer.
pub mod Steps
pub mod Flight
pub mod Sync
pub mod Races
pub mod Renewal
pub mod Tabs
pub mod Together
pub mod Heard
pub mod Replay
use axiom_ai.Common.{
  ℕ, ◌-◌, max, Bool, true, false, Option, none, some, List, [], ◌∷◌, if◌then◌else◌, Text, codes,
  text_eq, map_option, is_some,
}
use axiom_ai.Json.{JsonCodec}
use axiom_ai.Browser.{Browser}
use axiom_ai.Types.{User, StoredSession}
use axiom_ai.SessionStorage.{stored_session, save_session, clear_session, session_key}
use axiom_ai.Auth.{Result, ok, thrown, runtime_error}

-- `flight` is the refresh token that `refreshInFlight` was started with, `refreshed` and
-- `logged_out` are the tokens of the refresh and logout requests sent so far, the last one first.
pub record Auth : Type 0 where
  pub browser : Browser
  pub session : Option StoredSession
  pub is_ready : Bool
  pub flight : Option Text
  pub refreshed : List Text
  pub logged_out : List Text

-- The first render.
unfoldable pub start : Browser → Auth
start b = record {
  browser = b;
  session = none;
  is_ready = false;
  flight = none;
  refreshed = [];
  logged_out = [];
}

abbrev pub user_of : Option StoredSession → Option User
user_of none = none
user_of (some s) = s.user

-- `session?.user ?? null`
unfoldable pub current_user : Auth → Option User
current_user a = user_of a.session

-- The getter that the API layer is given.
unfoldable pub access_token : Auth → Option Text
access_token a = map_option (λ s. s.access_token) a.session

-- `refresh` up to its `await`: what the caller waits for is the flight of the new state, and `none`
-- means that it is told at once that there is no session.
take_flight : StoredSession → Option Text → Auth → Auth
take_flight current none a = record a {
  flight = some current.refresh_token;
  refreshed = current.refresh_token ∷ a.refreshed;
}
take_flight current (some token) a = a

unfoldable pub refresh : Auth → Auth
unfolding take_flight
refresh a = elim a.session [ none ↦ a | some current ↦ take_flight current a.flight a ]

-- Milliseconds until the timer of the renewal effect fires; without a session there is none.
-- `Math.max` of NaN is NaN, which `setTimeout` takes for 0.
abbrev delay_until : ℕ → Option ℕ → ℕ
delay_until now none = 0
delay_until now (some expires_at) = max (expires_at - now) 5000

unfoldable pub renewal_delay : ℕ → Auth → Option ℕ
renewal_delay now a = map_option (λ s. delay_until now s.expires_at) a.session

abbrev pub is_session_key : Option Text → Bool
is_session_key none = false
is_session_key (some key) = text_eq key session_key

module _ (codec : JsonCodec) where
  -- The effect that adopts the stored session.
  unfoldable pub mount : Auth → Auth
  mount a = elim (stored_session codec a.browser) [
    | none ↦ record a { is_ready = true }
    | some s ↦ record a { session = some s; is_ready = true }
  ]

  -- The rest of the refresh: the `try`, the `catch` and the `finally`.
  unfoldable pub refresh_settled : Result StoredSession → Auth → Auth
  refresh_settled (ok next) a = record a {
    session = some next;
    browser = save_session codec a.browser next;
    flight = none;
  }
  refresh_settled _ a = record a {
    session = none;
    browser = clear_session a.browser;
    flight = none;
  }

  -- A null key, which `localStorage.clear()` gives, is `none`.
  unfoldable pub on_storage : Option Text → Auth → Auth
  unfolding text_eq
  on_storage key a =
      if is_session_key key then record a { session = stored_session codec a.browser } else a

  unfoldable pub adopt : StoredSession → Auth → Auth
  adopt next a = record a { session = some next; browser = save_session codec a.browser next }

  -- `signIn` and `signUp` once the gateway has answered: an error is the caller's, and the session
  -- stays as it was.
  unfoldable pub sign_in : Result StoredSession → Auth → Auth
  unfolding adopt
  sign_in (ok next) a = adopt next a
  sign_in _ a = a

-- `signOut`; the answer to the logout request changes nothing.
revoke : Option StoredSession → List Text → List Text
revoke none sent = sent
revoke (some current) sent = current.refresh_token ∷ sent

unfoldable pub sign_out : Auth → Auth
unfolding revoke
sign_out a = record a {
  session = none;
  browser = clear_session a.browser;
  logged_out = revoke a.session a.logged_out;
}
