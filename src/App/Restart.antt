-- ===== src/App/Restart.antt =====
-- What a reload of the whole page shows.
use axiom_ai.Common.{ℕ, Option, none, some, map, Text, ◌≡◌, inl, inr, ap, sym, ◌∙◌}
use axiom_ai.Json.{Json, JsonCodec}
use axiom_ai.Browser.{Browser}
use axiom_ai.SessionStorage.Laws.{IsOpen}
use axiom_ai.Conversations.{load_conversations, sort_by_recent}
use axiom_ai.Types.Encode.{conversation_json}
use axiom_ai.AuthProvider
use axiom_ai.AuthProvider.{Auth, current_user, user_of}
use axiom_ai.Home.{View, home, view_of}
use axiom_ai.Home.Reload.{mount-session, mount-ready, home_ready, mount-browser}
use axiom_ai.ChatApp
use axiom_ai.ChatApp.Saving.{load_user, commit}
use axiom_ai.ChatApp.Durable.{IsStored, IsDurable, load_user-stored}
use axiom_ai.App.{App, Page, mounted, chat_page, page_for, render, launch, Reach, user_id_of}
use axiom_ai.App.Coherent.{IsShown, launch-IsCoherent, Reach-IsCoherent, load_user-user}

-- No timer is about to save a change.
abbrev pub IsSaved : Option Page → Type 0
IsSaved none = Unit
IsSaved (some p) = p.pending ≡ none

-- The second page shows the same user's conversations as the first, newest first.
abbrev pub IsSameChat : Option Page → Option Page → Type 0
IsSameChat none none = Unit
IsSameChat none (some q) = ⊥
IsSameChat (some p) none = ⊥
IsSameChat (some p) (some q) =
    (q.shown.user_id ≡ p.shown.user_id)
    × (q.shown.conversations ≡ sort_by_recent p.shown.conversations)

module _ (codec : JsonCodec) where
  stored_chat :
      (b : Browser) (p : Page)
      → p.pending ≡ none
      → IsDurable codec (mounted b p)
      → load_conversations codec b p.shown.user_id ≡ map conversation_json p.shown.conversations
  stored_chat b p saved h = elim h.kept [ inl waits ↦ cc | inr (idle, stored) ↦ stored ]

  page_for-IsSameChat :
      (id : Text) (now : ℕ) (a : Auth) (page : Option Page)
      → IsSaved page
      → IsShown codec a page
      → IsSameChat page (page_for codec id now a.browser (view_of (current_user a)) none)
  unfolding chat_page commit
  page_for-IsSameChat id now a none saved out = rw out tt
  page_for-IsSameChat id now a (some p) saved (user, signed, mine, durable) = rw signed (
    load_user-user codec (user_id_of user) id now a.browser (ChatApp.start (user_id_of user))
        ∙ sym mine,
    ap (λ u. (load_user codec u id now a.browser (ChatApp.start (user_id_of user))).conversations)
          (sym mine)
        ∙ load_user-stored codec p.shown a.browser id now (ChatApp.start (user_id_of user))
            durable.sound (stored_chat a.browser p saved durable),
  )

  page_again :
      (id : Text) (now : ℕ) (a : Auth) (page : Option Page) (b : Browser) (v : View)
      → b ≡ a.browser
      → v ≡ view_of (current_user a)
      → IsSaved page
      → IsShown codec a page
      → IsSameChat page (page_for codec id now b v none)
  page_again id now a page b v same seen saved shown =
      rw (same, seen) (page_for-IsSameChat id now a page saved shown)

  module _ (coerce : Json → Text) where
    -- The page starts in an open browser, where the conversations of each user have distinct ids and
    -- whole turns. Then a person signs in and out, tokens are renewed or refused, other tabs change
    -- the session but no conversation, and the chat is used. Once no change waits for its timer, a
    -- reload shows the same screen, holds the same session, and lists the same conversations of the
    -- same user, newest first.
    pub launch-Reach :
        (id : Text) (now : ℕ) (b : Browser) (new_id : Text) (later : ℕ)
        → IsOpen b
        → ((u : Text) → IsStored codec u b)
        → {p : App} → Reach codec coerce (launch codec id now b) p
        → IsSaved p.page
        → let again = launch codec new_id later p.auth.browser in
          (home again.auth ≡ home p.auth)
          × (again.auth.session ≡ p.auth.session)
          × IsSameChat p.page again.page
    unfolding launch render current_user
    launch-Reach id now b new_id later ready stored {p} r saved =
        let h = Reach-IsCoherent codec coerce (launch-IsCoherent codec id now b ready stored) r in
        let held = mount-session codec p.auth.browser ∙ h.synced.same in
        let first =
          home_ready codec (AuthProvider.mount codec (AuthProvider.start p.auth.browser))
            (mount-ready codec p.auth.browser) in
        let seen = first ∙ ap (λ o. view_of (user_of o)) held in
        (
          seen ∙ sym (home_ready codec p.auth h.ready),
          held,
          page_again new_id later p.auth p.page _ _ (mount-browser codec p.auth.browser) seen saved
              h.shown,
        )
