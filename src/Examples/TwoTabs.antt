-- ===== src/Examples/TwoTabs.antt =====
-- Examples for two tabs of one browser.
use axiom_ai.Common.{
  Option, none, some, Text, [], ◌∷◌, codes, text_eq, if◌then◌else◌, ◌≡◌, refl, true, false,
}
use axiom_ai.Json.{Json, JsonCodec}
use axiom_ai.Browser.{Browser, get_item, lookup}
use axiom_ai.Types.{StoredSession}
use axiom_ai.Types.Sessions.{session_json}
use axiom_ai.SessionStorage.{session_key, stored_session, load_session, read_session}
use axiom_ai.SessionStorage.Laws.{IsOpen}
use axiom_ai.AuthProvider.{refresh, sign_out, mount, start}
use axiom_ai.AuthProvider.Steps.{asked, left}
use axiom_ai.AuthProvider.Tabs.{Tabs, acted, swap, open_both, settle, own, swapped, here, next}
use axiom_ai.AuthProvider.Together.{open_both-IsTogether, tabs_agree, signed_out_everywhere}
use axiom_ai.AuthProvider.Replay.{both_ask, first_renewed, second_denied, both_tabs_signed_out}
use axiom_ai.Examples.Fixtures.{ann, session_of}

abbrev old_session : StoredSession
old_session = session_of ann (codes "R")

abbrev new_session : StoredSession
new_session = session_of ann (codes "S")

-- The letter x stands for the old session, and y for the new one.
abbrev read_letter : Text → Option Json
read_letter t =
    if text_eq t (codes "x")
    then some (session_json old_session)
    else if text_eq t (codes "y")
    then some (session_json new_session)
    else none

abbrev two_sessions : JsonCodec
two_sessions = record { parse = read_letter; stringify = λ v. codes "y" }

abbrev shared_browser : Browser
shared_browser = record {
  window = true;
  blocked = false;
  full = false;
  stored = (session_key, codes "x") ∷ [];
}

shared-IsOpen : IsOpen shared_browser
shared-IsOpen = record { window = refl; unblocked = refl; roomy = refl }

abbrev both_open : Tabs
both_open = open_both two_sessions shared_browser

-- The user signs out in one tab, and the other one asks for a refresh before it is told.
abbrev one_left : Tabs
one_left = swap (acted (sign_out both_open.one) both_open)

tabs_agree_example :
    ((settle two_sessions (acted (refresh one_left.one) one_left)).one.session
      ≡ stored_session two_sessions (acted (refresh one_left.one) one_left).one.browser)
    × ((settle two_sessions (acted (refresh one_left.one) one_left)).other.session
        ≡ stored_session two_sessions (acted (refresh one_left.one) one_left).one.browser)
tabs_agree_example = tabs_agree two_sessions shared_browser shared-IsOpen (
    next
      (next (next here (own both_open (left both_open.one) tt))
        (swapped (acted (sign_out both_open.one) both_open)))
      (own one_left (asked one_left.one) tt))

signed_out_everywhere_example :
    let out = settle two_sessions (acted (sign_out both_open.one) both_open) in
    (out.one.session ≡ none) × (out.other.session ≡ none)
signed_out_everywhere_example = signed_out_everywhere two_sessions shared_browser shared-IsOpen here

both_tabs_signed_out_example :
    let renewed = first_renewed two_sessions new_session (both_ask both_open) in
    let out = settle two_sessions (second_denied two_sessions (codes "used") renewed) in
    ((both_ask both_open).one.flight ≡ some (codes "R"))
    × ((both_ask both_open).other.flight ≡ some (codes "R"))
    × (stored_session two_sessions renewed.one.browser ≡ some new_session)
    × (out.one.session ≡ none)
    × (out.other.session ≡ none)
unfolding open_both mount start stored_session acted refresh load_session get_item read_session
    lookup text_eq session_json
both_tabs_signed_out_example =
    both_tabs_signed_out two_sessions both_open old_session new_session (codes "used")
      (open_both-IsTogether two_sessions shared_browser shared-IsOpen) refl refl refl refl
      (record {
        faithful = record { round_trip = refl; empty_throws = refl };
        access = refl;
        token = refl;
        owned = refl;
        timed = refl;
        unspent = (refl, tt);
      })
