-- ===== src/AuthProvider/Replay.antt =====
-- Two tabs whose timers run out together: the one flight that the callers of `refresh` share is one
-- of each tab.
use axiom_ai.Common.{none, some, Text, ◌≡◌, refl, ◌∙◌}
use axiom_ai.Json.{JsonCodec}
use axiom_ai.Types.{StoredSession}
use axiom_ai.SessionStorage.{stored_session}
use axiom_ai.Auth.{ok, thrown}
use axiom_ai.AuthProvider.{refresh, refresh_settled}
use axiom_ai.AuthProvider.Steps.{IsIssued, asked, renewed, denied}
use axiom_ai.AuthProvider.Sync.{saved, cleared}
use axiom_ai.AuthProvider.Races.{refresh-flight}
use axiom_ai.AuthProvider.Tabs.{Tabs, acted, swap, settle}
use axiom_ai.AuthProvider.Together.{IsTogether, acted-IsTogether, swap-IsTogether, settle-stored}

-- The timer of `one` runs out, and then that of `other`.
abbrev pub both_ask : Tabs → Tabs
both_ask t = let first = swap (acted (refresh t.one) t) in swap (acted (refresh first.one) first)

module _ (codec : JsonCodec) where
  -- The gateway renews the session of `one`, and refuses the token when it comes again from `other`.
  abbrev pub first_renewed : StoredSession → Tabs → Tabs
  first_renewed next t = swap (acted (refresh_settled codec (ok next) t.one) t)

  abbrev pub second_denied : Text → Tabs → Tabs
  second_denied message t = acted (refresh_settled codec (thrown message) t.one) t

  -- Two tabs of an open browser, each with the stored session or with an event on its way to it,
  -- hold the same session, no refresh is in flight, and both ask for one. They send the same
  -- refresh token. The gateway answers the first one with a new session, which is stored, and
  -- refuses the second one, since the token was used. Once all events are delivered, neither tab
  -- holds a session.
  pub both_tabs_signed_out :
      (t : Tabs) (current fresh : StoredSession) (message : Text)
      → IsTogether codec t
      → t.one.session ≡ some current
      → t.other.session ≡ some current
      → t.one.flight ≡ none
      → t.other.flight ≡ none
      → IsIssued codec (both_ask t).one.refreshed fresh
      → let renewed = first_renewed fresh (both_ask t) in
        let out = settle codec (second_denied message renewed) in
        ((both_ask t).one.flight ≡ some current.refresh_token)
        × ((both_ask t).other.flight ≡ some current.refresh_token)
        × (stored_session codec renewed.one.browser ≡ some fresh)
        × (out.one.session ≡ none)
        × (out.other.session ≡ none)
  unfolding acted refresh_settled
  both_tabs_signed_out t current fresh message h held held' idle idle' issued =
      let first = swap (acted (refresh t.one) t) in
      let q = both_ask t in
      let flying = refresh-flight t.one current held idle in
      let flying' = refresh-flight first.one current held' idle' in
      let a = swap-IsTogether codec _ (acted-IsTogether codec t (asked t.one) tt h) in
      let b = swap-IsTogether codec _ (acted-IsTogether codec first (asked first.one) tt a) in
      let r = first_renewed fresh q in
      let c =
        swap-IsTogether codec _ (
          acted-IsTogether codec q (renewed q.one current.refresh_token fresh flying issued) tt
            b) in
      let d = acted-IsTogether codec r (denied r.one current.refresh_token message flying') tt c in
      let kept =
        saved codec q.one (refresh_settled codec (ok fresh) q.one) fresh issued refl refl b.ready in
      let gone =
        cleared codec r.one (refresh_settled codec (thrown message) r.one) refl refl c.ready in
      let out = settle-stored codec (second_denied message r) d in
      (flying, flying', kept.same, out.0 ∙ gone.same, out.1 ∙ gone.same)
