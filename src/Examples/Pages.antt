-- ===== src/Examples/Pages.antt =====
-- Examples for the whole page, from its start on.
use axiom_ai.Common.{Option, none, some, [], ◌∷◌, Text, codes, ◌≡◌, ◌⊎◌, refl}
use axiom_ai.Json.{Json, arr, obj, field, end, JsonCodec}
use axiom_ai.Types.{User}
use axiom_ai.Types.Sessions.{user_json, session_json}
use axiom_ai.Auth.{ok, post_auth}
use axiom_ai.Auth.Answers.{accepted_body}
use axiom_ai.AuthScreen
use axiom_ai.AuthScreen.{Form, handle_submit, submit_settled}
use axiom_ai.Toast
use axiom_ai.Stream.{Fetched, resolved}
use axiom_ai.App.SignIn.{HasShown, submit_shows}
use axiom_ai.SessionStorage.{stored_session, save_session}
use axiom_ai.AuthProvider.{sign_in}
use axiom_ai.AuthProvider.Steps
use axiom_ai.Home.{home, auth_screen, chat}
use axiom_ai.Conversations.{create_conversation, load_conversations, sort_by_recent}
use axiom_ai.ChatApp.Steps.{IsSound}
use axiom_ai.ChatApp.Saving
use axiom_ai.ChatApp.Saving.{commit, load_user, fire, saved_json}
use axiom_ai.ChatApp.Durable.{IsStored}
use axiom_ai.App.{
  App, Page, mounted, page_of, chat_page, user_id_of, launch, render, session_changed, chat_changed,
  Reach, here, next,
}
use axiom_ai.App.Coherent.{home-Reach}
use axiom_ai.App.Restart.{launch-Reach, IsSaved, IsSameChat}
use axiom_ai.Examples.Fixtures.{as_string, ann, session_of, empty_browser, empty-IsOpen}

-- A codec that knows Ann's session and her one empty conversation.
abbrev first_letter : Json → Text
first_letter (arr vs) = codes "cs"
first_letter v = codes "s"

abbrev two_values : Text → Option Json
two_values (a ∷ b ∷ []) = some (saved_json (create_conversation (codes "c8") 4 ∷ []))
two_values (a ∷ []) = some (session_json (session_of ann (codes "R")))
two_values t = none

abbrev ann_codec : JsonCodec
ann_codec = record { parse = two_values; stringify = first_letter }

abbrev before : App
before = launch ann_codec (codes "c9") 3 empty_browser

nothing-IsStored : (u : Text) → IsStored ann_codec u empty_browser
unfolding load_conversations
nothing-IsStored u = record { distinct = tt; turns = tt }

abbrev signed_in : App
signed_in =
    render ann_codec (codes "c8") 4
      (sign_in ann_codec (ok (session_of ann (codes "R"))) before.auth) before.page

ann-IsIssued : Steps.IsIssued ann_codec [] (session_of ann (codes "R"))
unfolding session_json
ann-IsIssued = record {
  owned = refl;
  timed = refl;
  faithful = record { round_trip = refl; empty_throws = refl };
  access = refl;
  token = refl;
  unspent = tt;
}

signing_in : Reach ann_codec as_string before signed_in
unfolding launch stored_session
signing_in = next here (
    session_changed before (Steps.entered before.auth (session_of ann (codes "R")) ann-IsIssued)
      (codes "c8") 4 tt)

home-Reach_example :
    ((home signed_in.auth ≡ auth_screen) × (signed_in.page ≡ none))
    ⊎ ((user : User) × (page : Page) × (home signed_in.auth ≡ chat user)
        × (signed_in.page ≡ some page)
        × (page.shown.user_id ≡ user_id_of user)
        × IsSound page.shown)
unfolding launch
home-Reach_example =
    home-Reach ann_codec as_string (codes "c9") 3 empty_browser empty-IsOpen nothing-IsStored
      signing_in

-- The chat that Ann sees, and the page once its list is stored.
abbrev ann_chat : Page
ann_chat = chat_page ann_codec (codes "c8") 4 signed_in.auth.browser ann none

abbrev saved : App
saved =
    let m = fire ann_codec (mounted signed_in.auth.browser ann_chat) in
    record { auth = record signed_in.auth { browser = m.browser }; page = some (page_of m) }

saving : Reach ann_codec as_string before saved
unfolding launch render home chat_page load_user fire commit sign_in stored_session sort_by_recent
    save_session
saving = next signing_in (
    chat_changed signed_in ann_chat refl
      (Saving.timeout (mounted signed_in.auth.browser ann_chat) (codes "u1")
        (create_conversation (codes "c8") 4 ∷ []) refl
        (record { round_trip = refl; empty_throws = refl }))
      refl)

nothing_pending : IsSaved saved.page
unfolding launch render home chat_page load_user fire commit sign_in stored_session sort_by_recent
    save_session
nothing_pending = refl

launch-Reach_example :
    let again = launch ann_codec (codes "c7") 8 saved.auth.browser in
    (home again.auth ≡ home saved.auth)
    × (again.auth.session ≡ saved.auth.session)
    × IsSameChat saved.page again.page
launch-Reach_example =
    launch-Reach ann_codec as_string (codes "c9") 3 empty_browser (codes "c7") 8 empty-IsOpen
      nothing-IsStored saving nothing_pending

-- The first form, and an answer of success with a user in it.
abbrev blank_form : Form
blank_form = AuthScreen.start (Toast.start 0)

abbrev welcome_json : Json
welcome_json = obj (field (codes "user") (user_json ann) end)

abbrev welcome : Fetched
welcome = resolved (record { status = 200; json = some welcome_json; body = none })

submit_shows_example :
    let answer = post_auth as_string 0 welcome in
    let pending = (handle_submit blank_form).0 in
    let ended = submit_settled (codes "") blank_form answer pending in
    let q = render ann_codec (codes "c8") 4 (sign_in ann_codec answer before.auth) none in
    ((handle_submit blank_form).1 ≡ some blank_form)
    × (handle_submit pending ≡ (pending, none))
    × ((handle_submit ended).1 ≡ some ended)
    × HasShown ann_codec 0 before.auth (accepted_body welcome) ended q
unfolding launch stored_session AuthScreen.start
submit_shows_example =
    submit_shows ann_codec as_string (codes "") (codes "c8") 0 4 blank_form before.auth welcome refl
      refl refl
