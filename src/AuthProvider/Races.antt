-- ===== src/AuthProvider/Races.antt =====
-- What an answer that comes late does to the session.
use axiom_ai.Common.{true, none, some, text_truthy, ◌≡◌, refl, arith, ap, ◌∙◌}
use axiom_ai.Json.{JsonCodec}
use axiom_ai.Types.{StoredSession}
use axiom_ai.Types.Sessions.{session_json}
use axiom_ai.SessionStorage.{IsFaithful, stored_session, clear_session}
use axiom_ai.SessionStorage.Laws.{
  IsOpen, IsOpen-clear_session, stored_session-save_session, stored_session-clear_session,
}
use axiom_ai.Auth.{ok, runtime_error}
use axiom_ai.AuthProvider.{Auth, current_user, refresh, refresh_settled, sign_in, sign_out, is_some}

refresh-browser : (a : Auth) → (refresh a).browser ≡ a.browser
unfolding refresh
refresh-browser a = ground arith

pub refresh-flight :
    (a : Auth) (current : StoredSession)
    → a.session ≡ some current
    → a.flight ≡ none
    → (refresh a).flight ≡ some current.refresh_token
unfolding refresh
refresh-flight a current held idle = ground arith

module _ (codec : JsonCodec) where
  -- A refresh is in flight when the user signs out. The session is gone, from the browser too; but
  -- where the gateway then answers the refresh with a session of two tokens, a user and an expiry,
  -- that one is held and stored, and the user is signed in again.
  pub sign_out_undone :
      (a : Auth) (current next : StoredSession)
      → a.session ≡ some current
      → a.flight ≡ none
      → IsOpen a.browser
      → IsFaithful codec (session_json next)
      → text_truthy next.access_token ≡ true
      → text_truthy next.refresh_token ≡ true
      → is_some next.user ≡ true
      → is_some next.expires_at ≡ true
      → let out = sign_out (refresh a) in
        let late = refresh_settled codec (ok next) out in
        (out.flight ≡ some current.refresh_token)
        × (out.session ≡ none)
        × (stored_session codec out.browser ≡ none)
        × (late.session ≡ some next)
        × (stored_session codec late.browser ≡ some next)
  unfolding sign_out refresh_settled
  sign_out_undone a current next held idle ready h access token owned timed =
      let kept = refresh-browser a in
      (
        refresh-flight a current held idle,
        refl,
        stored_session-clear_session codec (refresh a).browser
            (ap (λ b. b.blocked) kept ∙ ready.unblocked),
        refl,
        stored_session-save_session codec (clear_session (refresh a).browser) next
            (IsOpen-clear_session (refresh a).browser (rw kept ready)) h access token owned timed,
      )

  -- A refresh is in flight when the user signs out and another one signs in: the answer to the
  -- refresh replaces the session of the one who is signed in, or ends it where the refresh failed.
  sign_in_overwritten :
      (a : Auth) (current next other : StoredSession)
      → a.session ≡ some current
      → a.flight ≡ none
      → let switched = sign_in codec (ok other) (sign_out (refresh a)) in
        (switched.flight ≡ some current.refresh_token)
        × (current_user switched ≡ other.user)
        × (current_user (refresh_settled codec (ok next) switched) ≡ next.user)
        × (current_user (refresh_settled codec runtime_error switched) ≡ none)
  unfolding refresh_settled sign_in sign_out current_user
  sign_in_overwritten a current next other held idle =
      (refresh-flight a current held idle, refl, refl, refl)
