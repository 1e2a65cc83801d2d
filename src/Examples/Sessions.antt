-- ===== src/Examples/Sessions.antt =====
-- Examples for the session and its copy in the browser.
use axiom_ai.Common.{
  ℕ, text_eq, ◌+◌, ◌*◌, ◌≤◌, ◌<◌, true, none, some, [], ◌∷◌, codes, ◌≡◌, refl, ◌⊎◌, IsDistinct,
}
use axiom_ai.Json.{JsonCodec}
use axiom_ai.Browser.{Browser, lookup}
use axiom_ai.Types.{StoredSession}
use axiom_ai.Types.Sessions.{session_json}
use axiom_ai.SessionStorage.{IsFaithful, session_key, stored_session}
use axiom_ai.SessionStorage.Laws.{IsOpen}
use axiom_ai.Auth.{to_stored_session, ok}
use axiom_ai.Auth.Laws.{to_stored_session_expiry}
use axiom_ai.AuthProvider.{Auth, start, mount, refresh, refresh_settled, sign_out}
use axiom_ai.AuthProvider.Steps.{asked, left, here, next}
use axiom_ai.AuthProvider.Flight.{refreshed_once}
use axiom_ai.AuthProvider.Tabs.{is_changed}
use axiom_ai.AuthProvider.Heard.{
  Tab, written_elsewhere, opened, hear, own, written, heard, session_stored,
}
use axiom_ai.AuthProvider.Heard
use axiom_ai.AuthProvider.Races.{sign_out_undone}
use axiom_ai.Examples.Fixtures.{
  constant_codec, ann, session_of, payload, empty_browser, empty-IsOpen,
}

abbrev old_session : StoredSession
old_session = session_of ann (codes "R")

abbrev new_session : StoredSession
new_session = session_of ann (codes "S")

abbrev codec : JsonCodec
codec = constant_codec (session_json new_session)

faithful : IsFaithful codec (session_json new_session)
faithful = record { round_trip = refl; empty_throws = refl }

-- A browser in which a session is stored.
abbrev used_browser : Browser
used_browser = record empty_browser { stored = (session_key, codes "x") ∷ [] }

used-IsOpen : IsOpen used_browser
used-IsOpen = record { window = refl; unblocked = refl; roomy = refl }

to_stored_session_expiry_example :
    (expiry : ℕ) × ((to_stored_session 1000 payload).expires_at ≡ some expiry)
    × (1000 + 30000 ≤ expiry)
    × (((90 ≤ 900) × (expiry + 60000 ≡ 1000 + 900 * 1000))
        ⊎ (((30 ≤ 900)
              × (900 < 90)
              × (expiry ≤ 1000 + 900 * 1000)
              × (1000 + 900 * 1000 < expiry + 60000))
            ⊎ ((900 < 30) × (1000 + 900 * 1000 < expiry))))
to_stored_session_expiry_example = to_stored_session_expiry 1000 payload 900 refl

-- A refresh is asked for, and the user signs out before it is answered.
abbrev left_auth : Auth
left_auth = sign_out (refresh (mount codec (start used_browser)))

refreshed_once_example :
    IsDistinct left_auth.refreshed
    × ((left_auth.flight ≡ none) ⊎ ((refresh left_auth).refreshed ≡ left_auth.refreshed))
refreshed_once_example = refreshed_once codec used_browser (
    next (next here (asked (mount codec (start used_browser))))
      (left (refresh (mount codec (start used_browser)))))

-- The same after another tab has stored a session in an empty browser, and before and after its event.
abbrev told_tab : Tab
told_tab = written_elsewhere used_browser (opened codec empty_browser)

abbrev left_tab : Tab
left_tab = record (hear codec told_tab) { auth = sign_out (hear codec told_tab).auth }

told_of_change : told_tab.told ≡ true
unfolding written_elsewhere is_changed lookup text_eq opened stored_session
told_of_change = refl

session_stored_example : stored_session codec left_tab.auth.browser ≡ left_tab.auth.session
unfolding hear
session_stored_example =
    session_stored codec empty_browser empty-IsOpen
      (Heard.Run.next
        (Heard.Run.next
          (Heard.Run.next Heard.Run.here
            (written (opened codec empty_browser) used_browser used-IsOpen))
          (heard told_tab))
        (own (hear codec told_tab) (left (hear codec told_tab).auth) tt))
      refl

abbrev signed_in : Auth
signed_in = record {
  browser = empty_browser;
  session = some old_session;
  is_ready = true;
  flight = none;
  refreshed = [];
  logged_out = [];
}

sign_out_undone_example :
    let out = sign_out (refresh signed_in) in
    let late = refresh_settled codec (ok new_session) out in
    (out.flight ≡ some (codes "R"))
    × (out.session ≡ none)
    × (stored_session codec out.browser ≡ none)
    × (late.session ≡ some new_session)
    × (stored_session codec late.browser ≡ some new_session)
sign_out_undone_example =
    sign_out_undone codec signed_in old_session new_session refl refl empty-IsOpen faithful refl
      refl refl refl
