-- ===== src/AuthProvider/Heard.antt =====
-- One tab among others that write the session whenever they like: its `onStorage` in
-- frontend/src/context/AuthProvider.tsx runs at any time behind the write.
use axiom_ai.Common.{
  Bool, false, ◌||◌, Option, some, Text, text_eq, ◌≡◌, inl, inr, refl, sym, ◌∙◌, Bool-cases,
}
use axiom_ai.Json.{JsonCodec}
use axiom_ai.Browser.{Browser}
use axiom_ai.SessionStorage.{session_key, stored_session}
use axiom_ai.SessionStorage.Laws.{IsOpen}
use axiom_ai.AuthProvider.{Auth, is_session_key, start, mount, on_storage}
use axiom_ai.AuthProvider.Steps.{Step}
use axiom_ai.AuthProvider.Sync.{mount-IsSynced}
use axiom_ai.AuthProvider.Tabs.{is_changed, IsOwn}
use axiom_ai.AuthProvider.Together.{
  stored_session-unchanged, IsInformed, Step-own, kept-IsOpen, kept-IsInformed,
}

-- `told` says that the session was changed elsewhere and that no storage event came since.
pub record Tab : Type 0 where
  pub auth : Auth
  pub told : Bool

-- Another tab leaves the browser as `b`. The tab holds the session of before.
unfoldable pub written_elsewhere : Browser → Tab → Tab
unfolding is_changed
written_elsewhere b t = record {
  auth = record (t.auth) { browser = b };
  told = t.told || is_changed t.auth.browser b;
}

module _ (codec : JsonCodec) where
  -- The tab is opened, or the page is loaded again.
  unfoldable pub opened : Browser → Tab
  unfolding mount start
  opened b = record { auth = mount codec (start b); told = false }

  -- The event of a change of the session.
  unfoldable pub hear : Tab → Tab
  unfolding on_storage
  hear t = record { auth = on_storage codec (some session_key) t.auth; told = false }

  -- What happens to the tab. An event may come a second time, of an earlier change.
  pub data Event : Tab → Tab → Type 0 where
    own :
        (t : Tab) {a : Auth} (step : Step codec t.auth a)
        → IsOwn codec step
        → Event t (record t { auth = a })
    written : (t : Tab) (b : Browser) → IsOpen b → Event t (written_elsewhere b t)
    heard : (t : Tab) → Event t (hear t)
    heard_other :
        (t : Tab) (key : Option Text)
        → is_session_key key ≡ false
        → Event t (record t { auth = on_storage codec key t.auth })
    loaded : (t : Tab) → Event t (opened t.auth.browser)

  pub data Run (t : Tab) : Tab → Type 0 where
    here : Run t t
    next : {u v : Tab} → Run t u → Event u v → Run t v

  record IsHeard (t : Tab) : Type 0 where
    ready : IsOpen t.auth.browser
    informed : IsInformed codec t.told t.auth

  opened-IsHeard : (b : Browser) → IsOpen b → IsHeard (opened b)
  unfolding opened
  opened-IsHeard b ready =
      let synced = mount-IsSynced codec b ready in
      record { ready = synced.ready; informed = inr synced.same }

  written-IsInformed :
      (t : Tab) (b : Browser)
      → IsOpen b
      → IsHeard t
      → IsInformed codec (written_elsewhere b t).told (written_elsewhere b t).auth
  unfolding written_elsewhere
  written-IsInformed t b ready h = elim (Bool-cases t.told) [
    | inl told ↦ inl (rw told refl)
    | inr quiet ↦ elim (Bool-cases (is_changed t.auth.browser b)) [
      | inl changed ↦ inl (rw (quiet, changed) refl)
      | inr same ↦ elim h.informed [
        | inl told ↦ cc
        | inr held ↦
            inr (sym (stored_session-unchanged codec t.auth.browser b h.ready ready same) ∙ held)
      ]
    ]
  ]

  Event-IsHeard : {t u : Tab} → Event t u → IsHeard t → IsHeard u
  unfolding on_storage text_eq
  Event-IsHeard (own t {a} step owned) h =
      let kept = Step-own codec step owned h.ready in
      record {
        ready = kept-IsOpen codec t.auth a h.ready kept;
        informed = kept-IsInformed codec t.auth a t.told kept h.informed;
      }
  Event-IsHeard (written t b ready) h = record {
    ready = unfold written_elsewhere in ready;
    informed = written-IsInformed t b ready h;
  }
  Event-IsHeard (heard t) h = unfold hear in record { ready = h.ready; informed = inr refl }
  Event-IsHeard (heard_other t key other) h =
      rw (other, on_storage) (record { ready = h.ready; informed = h.informed })
  Event-IsHeard (loaded t) h = opened-IsHeard t.auth.browser h.ready

  Run-IsHeard : {t u : Tab} → IsHeard t → Run t u → IsHeard u
  Run-IsHeard h here = h
  Run-IsHeard h (next r event) = Event-IsHeard event (Run-IsHeard h r)

  -- A tab is opened in an open browser. It signs in and out, refreshes and is loaded again, and other
  -- tabs write whatever they like and leave the browser open, in any order, while the storage events
  -- reach this tab at any later time. Whenever it has heard of the last change of the session, it
  -- holds the session that is stored: a reload of the page loses nothing and brings nothing back.
  pub session_stored :
      (b : Browser)
      → IsOpen b
      → {t : Tab} → Run (opened b) t
      → t.told ≡ false
      → stored_session codec t.auth.browser ≡ t.auth.session
  session_stored b ready r quiet = elim (Run-IsHeard (opened-IsHeard b ready) r).informed [
    | inl told ↦ cc
    | inr held ↦ held
  ]
