-- ===== src/App/SignIn.antt =====
-- From the submit button of the sign-in form to the chat.
use axiom_ai.Common.{
  ℕ, true, false, Option, none, some, Text, ◌≡◌, ◌⊎◌, inl, inr, refl, ap, ◌∙◌, if◌then◌else◌,
  text_truthy, Option-cases,
}
use axiom_ai.Json.{Json, JsonCodec}
use axiom_ai.Types.{User, StoredSession}
use axiom_ai.Stream.{Fetched}
use axiom_ai.Auth.{Result, ok, thrown, runtime_error, to_stored_session, payload_of_json, post_auth}
use axiom_ai.Auth.Answers.{accepted_body, IsAnswer, post_auth-IsAnswer}
use axiom_ai.AuthProvider.{Auth, sign_in, adopt, current_user}
use axiom_ai.AuthScreen.{Form, handle_submit, submit_settled}
use axiom_ai.AuthScreen.View.{auth_view}
use axiom_ai.AuthScreen.Laws.{submit_settles}
use axiom_ai.Home.{home, view_of, auth_screen, chat}
use axiom_ai.Home.Reload.{home_ready}
use axiom_ai.ChatApp
use axiom_ai.ChatApp.Saving.{commit}
use axiom_ai.App.{App, Page, chat_page, render, user_id_of}
use axiom_ai.App.Coherent.{load_user-user}

module _ (codec : JsonCodec) where
  -- What the form and the page show of an answer that holds a user,
  abbrev pub HasEntered : User → Form → App → Type 0
  HasEntered user f q =
      (page : Page) × (home q.auth ≡ chat user)
      × (q.page ≡ some page)
      × (page.shown.user_id ≡ user_id_of user)
      × ((auth_view f).alert ≡ none)

  -- of one that holds none,
  abbrev pub HasNobody : StoredSession → Form → App → Type 0
  HasNobody s f q =
      (q.auth.session ≡ some s)
      × (home q.auth ≡ auth_screen)
      × (q.page ≡ none)
      × ((auth_view f).alert ≡ none)

  -- and of an error.
  abbrev pub HasStayed : Auth → Form → App → Type 0
  HasStayed a f q =
      (message : Text) × (q.auth ≡ a)
      × (home q.auth ≡ auth_screen)
      × (q.page ≡ none)
      × ((auth_view f).alert ≡ (if text_truthy message then some message else none))

  -- The three outcomes.
  abbrev pub HasShown : ℕ → Auth → Option Json → Form → App → Type 0
  HasShown now a accepted f q =
      ((body : Json) × (user : User) × (accepted ≡ some body)
        × ((payload_of_json body).user ≡ some user)
        × HasEntered user f q)
      ⊎ (((body : Json) × (accepted ≡ some body)
            × ((payload_of_json body).user ≡ none)
            × HasNobody (to_stored_session now (payload_of_json body)) f q)
          ⊎ ((accepted ≡ none) × HasStayed a f q))

  module _ (runtime : Text) (id : Text) (later : ℕ) (f : Form) (a : Auth)
      (ready : a.is_ready ≡ true) (out : a.session ≡ none) where
    entered :
        (s : StoredSession) (user : User) (g : Form)
        → s.user ≡ some user
        → g.error_text ≡ none
        → HasEntered user
            (submit_settled runtime f (ok s) g)
            (render codec id later (sign_in codec (ok s) a) none)
    unfolding render chat_page commit sign_in adopt submit_settled current_user auth_view
    entered s user g owned clear =
        let b = (sign_in codec (ok s) a).browser in
        let seen : home (sign_in codec (ok s) a) ≡ chat user =
          home_ready codec (sign_in codec (ok s) a) ready ∙ ap view_of owned in
        (
          chat_page codec id later b user none,
          seen,
          rw seen refl,
          load_user-user codec (user_id_of user) id later b (ChatApp.start (user_id_of user)),
          rw clear refl,
        )

    nobody :
        (s : StoredSession) (g : Form)
        → s.user ≡ none
        → g.error_text ≡ none
        → HasNobody s
            (submit_settled runtime f (ok s) g)
            (render codec id later (sign_in codec (ok s) a) none)
    unfolding render sign_in adopt submit_settled current_user auth_view
    nobody s g missing clear =
        let seen : home (sign_in codec (ok s) a) ≡ auth_screen =
          home_ready codec (sign_in codec (ok s) a) ready ∙ ap view_of missing in
        (refl, seen, rw seen refl, rw clear refl)

    stayed :
        (answer : Result StoredSession) (message : Text) (g : Form)
        → sign_in codec answer a ≡ a
        → (submit_settled runtime f answer g).error_text ≡ some message
        → HasStayed a
            (submit_settled runtime f answer g)
            (render codec id later (sign_in codec answer a) none)
    unfolding render current_user auth_view
    stayed answer message g same shown =
        let seen : home a ≡ auth_screen = home_ready codec a ready ∙ rw out refl in
        (message, same, rw same seen, rw (same, seen) refl, rw shown refl)

  module _ (coerce : Json → Text) (runtime : Text) where
    -- An idle form is submitted where no session is held. A second submission before the answer does
    -- nothing, and with the answer the form can be submitted again. Where the gateway answers with
    -- success and JSON that is not `null`, no error is shown: a user in it is shown the chat, and
    -- without a user the session is held but the sign-in form stays. Where it does not answer, refuses,
    -- or sends something else, the session stays as it was, the sign-in form stays, and the error is
    -- shown in it, unless its text is empty.
    pub submit_shows :
        (id : Text) (now later : ℕ) (f : Form) (a : Auth) (fetched : Fetched)
        → f.busy ≡ false
        → a.is_ready ≡ true
        → a.session ≡ none
        → let answer = post_auth coerce now fetched in
          let pending = (handle_submit f).0 in
          let ended = submit_settled runtime f answer pending in
          ((handle_submit f).1 ≡ some f)
          × (handle_submit pending ≡ (pending, none))
          × ((handle_submit ended).1 ≡ some ended)
          × HasShown now a
              (accepted_body fetched)
              ended
              (render codec id later (sign_in codec answer a) none)
    submit_shows id now later f a fetched idle ready out =
        let settles = submit_settles codec runtime f (post_auth coerce now fetched) a idle in
        (
          settles.0,
          settles.1,
          settles.2,
          shown (accepted_body fetched) (post_auth coerce now fetched)
              (post_auth-IsAnswer coerce now fetched),
        )
      where
        cleared : (handle_submit f).0.error_text ≡ none
        cleared = unfold handle_submit in rw idle refl

        shown :
            (o : Option Json) (answer : Result StoredSession)
            → IsAnswer now o answer
            → HasShown now a o
                (submit_settled runtime f answer (handle_submit f).0)
                (render codec id later (sign_in codec answer a) none)
        shown (some body) answer good = elim (Option-cases (payload_of_json body).user) [
          | inl missing ↦ inr (
              inl (
                body,
                refl,
                missing,
                rw good (
                    nobody runtime id later f a ready out _ _ (unfold to_stored_session in missing)
                      cleared),
              ))
          | inr (user, owned) ↦ inl (
            body,
            user,
            refl,
            owned,
            rw good (
                entered runtime id later f a ready out _ user _ (unfold to_stored_session in owned)
                  cleared),
          )
        ]
        shown none answer (inl (message, bad)) = inr (
            inr (
              refl,
              rw bad (
                  stayed runtime id later f a ready out (thrown message) message _
                    (unfold sign_in in refl) (unfold submit_settled in refl)),
            ))
        shown none answer (inr bad) = inr (
            inr (
              refl,
              rw bad (
                  stayed runtime id later f a ready out runtime_error runtime _
                    (unfold sign_in in refl) (unfold submit_settled in refl)),
            ))
