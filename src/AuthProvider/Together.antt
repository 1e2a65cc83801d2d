-- ===== src/AuthProvider/Together.antt =====
-- What two tabs of one browser hold.
use axiom_ai.Common.{
  Bool, true, false, not, ◌||◌, Option, none, some, Text, text_eq, text_eq_iff, ◌≡◌, ◌⊎◌, inl, inr,
  refl, ap, sym, ◌∙◌, arith, Bool-cases, Option-cases,
}
use axiom_ai.Json.{JsonCodec}
use axiom_ai.Browser.{Browser, lookup, get_item}
use axiom_ai.SessionStorage.{session_key, load_session, stored_session}
use axiom_ai.SessionStorage.Laws.{IsOpen}
use axiom_ai.AuthProvider.{Auth, start, mount, refresh_settled, on_storage, sign_in, sign_out}
use axiom_ai.AuthProvider.Steps.{
  Step, asked, renewed, denied, failed, entered, refused, left, session_elsewhere, other_elsewhere,
}
use axiom_ai.AuthProvider.Sync.{IsSynced, mount-IsSynced, saved, cleared, refresh_keeps}
use axiom_ai.AuthProvider.Tabs.{
  Tabs, same_item, is_changed, acted, swap, open_both, deliver, settle, reopen, IsOwn, Event, own,
  delivered, reopened, swapped, Run, here, next,
}

same_item-eq : (u v : Option Text) → not (same_item u v) ≡ false → u ≡ v
same_item-eq none none e = refl
same_item-eq none (some v) e = absurd (cc)
same_item-eq (some u) none e = cc
same_item-eq (some u) (some v) e = ground (arith, text_eq_iff u v)

module _ (codec : JsonCodec) where
  -- The session that is loaded depends on the one item.
  pub stored_session-unchanged :
      (b c : Browser)
      → IsOpen b
      → IsOpen c
      → is_changed b c ≡ false
      → stored_session codec b ≡ stored_session codec c
  unfolding stored_session load_session get_item is_changed
  stored_session-unchanged b c hb hc e =
      let items = same_item-eq (lookup session_key b.stored) (lookup session_key c.stored) e in
      ground (arith, items)

  -- A tab holds what is stored, or an event is on its way to it.
  abbrev pub IsInformed : Bool → Auth → Type 0
  IsInformed told a = (told ≡ true) ⊎ (stored_session codec a.browser ≡ a.session)

  pub record IsTogether (t : Tabs) : Type 0 where
    pub ready : IsOpen t.one.browser
    pub shared : t.other.browser ≡ t.one.browser
    pub one : IsInformed t.told_one t.one
    pub other : IsInformed t.told_other t.other

  -- What a tab does by itself leaves it with the stored session, or changes neither.
  pub Step-own :
      {a b : Auth}
      → (s : Step codec a b) → IsOwn codec s
      → IsOpen a.browser
      → IsSynced codec b ⊎ ((b.session ≡ a.session) × (b.browser ≡ a.browser))
  unfolding refresh_settled sign_in sign_out
  Step-own (asked a) o h = inr (refresh_keeps codec a)
  Step-own (renewed a token s flying issued) o h = inl (saved codec a _ s issued refl refl h)
  Step-own (denied a token message flying) o h = inl (cleared codec a _ refl refl h)
  Step-own (failed a token flying) o h = inl (cleared codec a _ refl refl h)
  Step-own (entered a s issued) o h = inl (saved codec a _ s issued refl refl h)
  Step-own (refused a message) o h = inr (refl, refl)
  Step-own (left a) o h = inl (cleared codec a _ refl refl h)
  Step-own (session_elsewhere a b ready u) o h = absurd o
  Step-own (other_elsewhere a b key ready other same) o h = absurd o

  pub kept-IsOpen :
      (a b : Auth)
      → IsOpen a.browser
      → IsSynced codec b ⊎ ((b.session ≡ a.session) × (b.browser ≡ a.browser))
      → IsOpen b.browser
  kept-IsOpen a b ready (inl synced) = synced.ready
  kept-IsOpen a b ready (inr (held, stored)) = rw stored ready

  pub kept-IsInformed :
      (a b : Auth) (told : Bool)
      → IsSynced codec b ⊎ ((b.session ≡ a.session) × (b.browser ≡ a.browser))
      → IsInformed told a
      → IsInformed told b
  kept-IsInformed a b told (inl synced) h = inr synced.same
  kept-IsInformed a b told (inr (held, stored)) (inl e) = inl e
  kept-IsInformed a b told (inr (held, stored)) (inr same) = inr (rw (stored, held) same)

  -- The other tab is told of a change, and where nothing changed it holds what it held.
  IsInformed-other :
      (told : Bool) (b c : Browser) (o : Auth)
      → IsOpen b
      → IsOpen c
      → o.browser ≡ b
      → IsInformed told o
      → IsInformed (told || is_changed b c) (record o { browser = c })
  IsInformed-other told b c o hb hc shared h = elim (Bool-cases (is_changed b c)) [
    | inl changed ↦ inl (rw changed (ground arith))
    | inr unchanged ↦ elim h [
      | inl e ↦ inl (rw e refl)
      | inr same ↦ inr (
          sym (stored_session-unchanged b c hb hc unchanged)
          ∙ ap (stored_session codec) (sym shared)
          ∙ same)
    ]
  ]

  pub acted-IsTogether :
      (t : Tabs) {a : Auth} (s : Step codec t.one a)
      → IsOwn codec s
      → IsTogether t
      → IsTogether (acted a t)
  unfolding acted
  acted-IsTogether t {a} s o h =
      let did = Step-own s o h.ready in
      let ready = kept-IsOpen t.one a h.ready did in
      record {
        ready = ready;
        shared = refl;
        one = kept-IsInformed t.one a t.told_one did h.one;
        other =
            IsInformed-other t.told_other t.one.browser a.browser t.other h.ready ready h.shared
              h.other;
      }

  held :
      (told : Bool) (a : Auth)
      → told ≡ false
      → IsInformed told a
      → stored_session codec a.browser ≡ a.session
  held told a e (inl f) = cc
  held told a e (inr same) = same

  pub swap-IsTogether : (t : Tabs) → IsTogether t → IsTogether (swap t)
  swap-IsTogether t h = record {
    ready = rw h.shared h.ready;
    shared = sym h.shared;
    one = h.other;
    other = h.one;
  }

  -- An event that is on its way gives the tab the stored session.
  deliver-told :
      (t : Tabs)
      → t.told_one ≡ true
      → deliver codec t ≡ record t {
        one = record (t.one) { session = stored_session codec t.one.browser };
        told_one = false;
      }
  unfolding deliver on_storage text_eq
  deliver-told t e = rw e refl

  deliver-quiet : (t : Tabs) → t.told_one ≡ false → deliver codec t ≡ t
  unfolding deliver
  deliver-quiet t e = rw e refl

  deliver-IsTogether : (t : Tabs) → IsTogether t → IsTogether (deliver codec t)
  deliver-IsTogether t h = elim (Bool-cases t.told_one) [
    | inl e ↦
        rw (deliver-told t e)
          (record { ready = h.ready; shared = h.shared; one = inr refl; other = h.other })
    | inr e ↦ rw (deliver-quiet t e) h
  ]

  -- After it the tab holds what is stored, and the store and the other tab are as they were.
  deliver-one :
      (t : Tabs)
      → IsTogether t
      → ((deliver codec t).one.session ≡ stored_session codec t.one.browser)
        × ((deliver codec t).one.browser ≡ t.one.browser)
        × ((deliver codec t).other ≡ t.other)
        × ((deliver codec t).told_one ≡ false)
  deliver-one t h = elim (Bool-cases t.told_one) [
    | inl e ↦ rw (deliver-told t e) (refl, refl, refl, refl)
    | inr e ↦ rw (deliver-quiet t e) (sym (held t.told_one t.one e h.one), refl, refl, e)
  ]

  -- After all events are delivered, both tabs hold what is stored.
  pub settle-stored :
      (t : Tabs)
      → IsTogether t
      → ((settle codec t).one.session ≡ stored_session codec t.one.browser)
        × ((settle codec t).other.session ≡ stored_session codec t.one.browser)
  unfolding settle
  settle-stored t h =
      let one = deliver-one t h in
      let h' = swap-IsTogether (deliver codec t) (deliver-IsTogether t h) in
      let other = deliver-one (swap (deliver codec t)) h' in
      (
        ap (λ (a : Auth). a.session) other.2 ∙ one.0,
        other.0 ∙ ap (stored_session codec) (ap (λ (a : Auth). a.browser) one.2 ∙ h.shared),
      )

  mount-browser : (b : Browser) → (mount codec (start b)).browser ≡ b
  unfolding mount start
  mount-browser b = elim (Option-cases (stored_session codec b)) [
    | inl out ↦ rw (out, mount) refl
    | inr (s, there) ↦ rw (there, mount) refl
  ]

  reopen-IsTogether : (t : Tabs) → IsTogether t → IsTogether (reopen codec t)
  unfolding reopen
  reopen-IsTogether t h =
      let synced = mount-IsSynced codec t.one.browser h.ready in
      record {
        ready = synced.ready;
        shared = h.shared ∙ sym (mount-browser t.one.browser);
        one = inr synced.same;
        other = h.other;
      }

  Event-IsTogether : {t u : Tabs} → Event codec t u → IsTogether t → IsTogether u
  Event-IsTogether (own t s o) h = acted-IsTogether t s o h
  Event-IsTogether (delivered t) h = deliver-IsTogether t h
  Event-IsTogether (reopened t) h = reopen-IsTogether t h
  Event-IsTogether (swapped t) h = swap-IsTogether t h

  Run-IsTogether : {t u : Tabs} → Run codec t u → IsTogether t → IsTogether u
  Run-IsTogether here h = h
  Run-IsTogether (next r e) h = Event-IsTogether e (Run-IsTogether r h)

  pub open_both-IsTogether : (b : Browser) → IsOpen b → IsTogether (open_both codec b)
  unfolding open_both
  open_both-IsTogether b ready =
      let synced = mount-IsSynced codec b ready in
      record { ready = synced.ready; shared = refl; one = inr synced.same; other = inr synced.same }

  -- Two tabs of an open browser sign in and out, refresh, and are closed and opened again, in any
  -- order, while storage events between them are delivered at any later time. Once all events are
  -- delivered, both tabs hold the session that is stored.
  pub tabs_agree :
      (b : Browser)
      → IsOpen b
      → {t : Tabs} → Run codec (open_both codec b) t
      → ((settle codec t).one.session ≡ stored_session codec t.one.browser)
        × ((settle codec t).other.session ≡ stored_session codec t.one.browser)
  tabs_agree b ready {t} r = settle-stored t (Run-IsTogether r (open_both-IsTogether b ready))

  -- After any such events the user signs out in a tab. Once all events are delivered, no tab holds a
  -- session.
  pub signed_out_everywhere :
      (b : Browser)
      → IsOpen b
      → {t : Tabs} → Run codec (open_both codec b) t
      → let out = settle codec (acted (sign_out t.one) t) in
        (out.one.session ≡ none) × (out.other.session ≡ none)
  unfolding acted sign_out
  signed_out_everywhere b ready {t} r =
      let h = Run-IsTogether r (open_both-IsTogether b ready) in
      let both = settle-stored (acted (sign_out t.one) t) (acted-IsTogether t (left t.one) tt h) in
      let gone = cleared codec t.one (sign_out t.one) refl refl h.ready in
      (both.0 ∙ gone.same, both.1 ∙ gone.same)
