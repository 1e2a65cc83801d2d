-- ===== src/Home/Reload.antt =====
-- What a reload of the page shows.
use axiom_ai.Common.{true, ◌≡◌, refl, arith, ap, sym, ◌∙◌, some, Option, Text}
use axiom_ai.Json.{JsonCodec}
use axiom_ai.Browser.{Browser}
use axiom_ai.SessionStorage.{session_key, stored_session}
use axiom_ai.SessionStorage.Laws.{IsOpen}
use axiom_ai.AuthProvider.{
  Auth, start, refresh, mount, refresh_settled, on_storage, sign_in, sign_out, current_user,
  user_of,
}
use axiom_ai.AuthProvider.Steps.{
  Step, asked, renewed, denied, failed, entered, refused, left, session_elsewhere, other_elsewhere,
  Reach, here, next,
}
use axiom_ai.AuthProvider.Sync.{stored_session-Reach}
use axiom_ai.Home.{home, view_of}

pub refresh-ready : (a : Auth) → (refresh a).is_ready ≡ a.is_ready
unfolding refresh
refresh-ready a = ground arith

module _ (codec : JsonCodec) where
  on_storage-ready : (key : Option Text) (a : Auth) → (on_storage codec key a).is_ready ≡ a.is_ready
  unfolding on_storage
  on_storage-ready key a = ground arith

  pub Step-ready : {a b : Auth} → Step codec a b → b.is_ready ≡ a.is_ready
  unfolding refresh_settled sign_in sign_out
  Step-ready (asked a) = refresh-ready a
  Step-ready (renewed a token s flying issued) = refl
  Step-ready (denied a token message flying) = refl
  Step-ready (failed a token flying) = refl
  Step-ready (entered a s issued) = refl
  Step-ready (refused a message) = refl
  Step-ready (left a) = refl
  Step-ready (session_elsewhere a b ready u) =
      on_storage-ready (some session_key) (record a { browser = b })
  Step-ready (other_elsewhere a b key ready other same) =
      on_storage-ready key (record a { browser = b })

  Reach-ready : {a b : Auth} → Reach codec a b → b.is_ready ≡ a.is_ready
  Reach-ready here = refl
  Reach-ready (next r step) = Step-ready step ∙ Reach-ready r

  pub mount-ready : (b : Browser) → (mount codec (start b)).is_ready ≡ true
  unfolding mount start
  mount-ready b = ground arith

  pub home_ready : (a : Auth) → a.is_ready ≡ true → home a ≡ view_of (current_user a)
  unfolding home
  home_ready a e = rw (e, home) refl

  pub mount-browser : (b : Browser) → (mount codec (start b)).browser ≡ b
  unfolding mount start
  mount-browser b = ground arith

  pub mount-session : (b : Browser) → (mount codec (start b)).session ≡ stored_session codec b
  unfolding mount start
  mount-session b = ground arith

  -- In an open browser, after any events: a reload of the page shows the screen that was shown, for the
  -- same user.
  home-mount :
      (b : Browser)
      → IsOpen b
      → {a : Auth} → Reach codec (mount codec (start b)) a
      → home (mount codec (start a.browser)) ≡ home a
  unfolding current_user
  home-mount b ready {a} r =
      home_ready (mount codec (start a.browser)) (mount-ready a.browser)
      ∙ ap (λ o. view_of (user_of o))
          (mount-session a.browser ∙ stored_session-Reach codec b ready r)
      ∙ sym (home_ready a (Reach-ready r ∙ mount-ready b))
