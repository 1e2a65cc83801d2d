-- ===== src/AuthProvider/Sync.antt =====
-- In an open browser, where each write of another tab reaches this one at once, the session that the
-- application holds is the one that is stored.
use axiom_ai.Common.{none, some, ◌≡◌, refl, arith, ◌∙◌, Option-cases, inl, inr}
use axiom_ai.Json.{JsonCodec}
use axiom_ai.Browser.{Browser}
use axiom_ai.Types.{StoredSession}
use axiom_ai.SessionStorage.{stored_session, save_session, clear_session}
use axiom_ai.SessionStorage.Laws.{
  IsOpen, IsOpen-clear_session, IsOpen-save_session, stored_session-save_session,
  stored_session-clear_session,
}
use axiom_ai.AuthProvider.{
  Auth, start, refresh, mount, refresh_settled, on_storage, sign_in, sign_out,
}
use axiom_ai.AuthProvider.Steps.{
  IsIssued, Step, asked, renewed, denied, failed, entered, refused, left, session_elsewhere,
  other_elsewhere, Reach, here, next,
}

module _ (codec : JsonCodec) where
  pub record IsSynced (a : Auth) : Type 0 where
    pub ready : IsOpen a.browser
    pub same : stored_session codec a.browser ≡ a.session

  pub saved :
      (a t : Auth) (s : StoredSession)
      → IsIssued codec a.refreshed s
      → t.session ≡ some s
      → t.browser ≡ save_session codec a.browser s
      → IsOpen a.browser
      → IsSynced t
  saved a t s issued held stored ready = record {
    ready = rw stored (IsOpen-save_session codec a.browser s ready);
    same =
        rw (stored, held)
          (stored_session-save_session codec a.browser s ready issued.faithful issued.access
            issued.token issued.owned issued.timed);
  }

  pub cleared :
      (a t : Auth)
      → t.session ≡ none
      → t.browser ≡ clear_session a.browser
      → IsOpen a.browser
      → IsSynced t
  cleared a t held stored ready = record {
    ready = rw stored (IsOpen-clear_session a.browser ready);
    same = rw (stored, held) (stored_session-clear_session codec a.browser ready.unblocked);
  }

  kept : (a t : Auth) → t.session ≡ a.session → t.browser ≡ a.browser → IsSynced a → IsSynced t
  kept a t held stored h = record { ready = rw stored h.ready; same = rw (stored, held) h.same }

  pub refresh_keeps :
      (a : Auth) → ((refresh a).session ≡ a.session) × ((refresh a).browser ≡ a.browser)
  unfolding refresh
  refresh_keeps a = ground arith

  pub Step-IsSynced : {a b : Auth} → Step codec a b → IsSynced a → IsSynced b
  unfolding refresh_settled sign_in sign_out
  Step-IsSynced (asked a) h = kept a (refresh a) (refresh_keeps a).0 (refresh_keeps a).1 h
  Step-IsSynced (renewed a token s flying issued) h = saved a _ s issued refl refl h.ready
  Step-IsSynced (denied a token message flying) h = cleared a _ refl refl h.ready
  Step-IsSynced (failed a token flying) h = cleared a _ refl refl h.ready
  Step-IsSynced (entered a s issued) h = saved a _ s issued refl refl h.ready
  Step-IsSynced (refused a message) h = h
  Step-IsSynced (left a) h = cleared a _ refl refl h.ready
  Step-IsSynced (session_elsewhere a b ready u) h =
      unfold on_storage in record { ready = ready; same = refl }
  Step-IsSynced (other_elsewhere a b key ready other same) h =
      unfold on_storage in rw (other, on_storage) (record { ready = ready; same = same ∙ h.same })

  Reach-IsSynced : {a b : Auth} → IsSynced a → Reach codec a b → IsSynced b
  Reach-IsSynced h here = h
  Reach-IsSynced h (next r step) = Step-IsSynced step (Reach-IsSynced h r)

  pub mount-IsSynced : (b : Browser) → IsOpen b → IsSynced (mount codec (start b))
  unfolding mount start
  mount-IsSynced b ready = elim (Option-cases (stored_session codec b)) [
    | inl out ↦ rw (out, mount) (record { ready = ready; same = out })
    | inr (s, held) ↦ rw (held, mount) (record { ready = ready; same = held })
  ]

  -- Where the events of other tabs come at once, the browser holds the session that the application
  -- holds: a reload of the page loses nothing and brings nothing back.
  pub stored_session-Reach :
      (b : Browser)
      → IsOpen b
      → {a : Auth} → Reach codec (mount codec (start b)) a
      → stored_session codec a.browser ≡ a.session
  stored_session-Reach b ready r = (Reach-IsSynced (mount-IsSynced b ready) r).same
