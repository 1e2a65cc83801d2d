-- ===== src/App.antt =====
-- The page of frontend/src/app/page.tsx with what it shows: the session of
-- frontend/src/context/AuthProvider.tsx and, for the user of that session, the chat of
-- frontend/src/components/ChatApp.tsx. Both stand on one browser.
pub mod Sharing
pub mod Coherent
pub mod Restart
pub mod SignIn
use axiom_ai.Common.{
  ℕ, Bool, true, false, Option, none, some, List, if◌then◌else◌, Text, text_eq, ◌≡◌, or_else, codes,
}
use axiom_ai.Json.{Json, JsonCodec}
use axiom_ai.Browser.{Browser}
use axiom_ai.Types.{User, Conversation}
use axiom_ai.Conversations.{load_conversations}
use axiom_ai.AuthProvider
use axiom_ai.AuthProvider.{Auth}
use axiom_ai.AuthProvider.Steps
use axiom_ai.AuthProvider.Steps.{
  asked, renewed, denied, failed, entered, refused, left, session_elsewhere, other_elsewhere,
}
use axiom_ai.Home.{View, splash, auth_screen, chat, home}
use axiom_ai.ChatApp
use axiom_ai.ChatApp.{Chat}
use axiom_ai.ChatApp.Saving.{Mounted, commit, load_user, Event}

-- A chat on the screen, and what its timer will save.
pub record Page : Type 0 where
  pub shown : Chat
  pub pending : Option (Text × List Conversation)

pub record App : Type 0 where
  pub auth : Auth
  pub page : Option Page

abbrev pub mounted : Browser → Page → Mounted
mounted b p = record { chat = p.shown; browser = b; pending = p.pending }

abbrev pub page_of : Mounted → Page
page_of m = record { shown = m.chat; pending = m.pending }

-- `user?.id ?? "anonymous"`
abbrev pub user_id_of : User → Text
user_id_of user = or_else user.id (codes "anonymous")

module _ (codec : JsonCodec) where
  -- The chat for a user, mounted or kept: its loading effect runs with the first render and where
  -- the id of the user is another one.
  unfoldable pub chat_page : Text → ℕ → Browser → User → Option Page → Page
  unfolding load_user commit ChatApp.start text_eq
  chat_page id now b user none =
      let first : Mounted = record {
        chat = ChatApp.start (user_id_of user);
        browser = b;
        pending = none;
      } in
      page_of (commit true (load_user codec (user_id_of user) id now b first.chat) first)
  chat_page id now b user (some p) =
      if text_eq p.shown.user_id (user_id_of user)
      then p
      else page_of (commit true (load_user codec (user_id_of user) id now b p.shown) (mounted b p))

  -- A chat that leaves the screen takes its timer with it.
  abbrev pub page_for : Text → ℕ → Browser → View → Option Page → Option Page
  page_for id now b splash page = none
  page_for id now b auth_screen page = none
  page_for id now b (chat user) page = some (chat_page id now b user page)

  -- The commit after the session has become another one. `id` and `now` serve a new conversation.
  unfoldable pub render : Text → ℕ → Auth → Option Page → App
  unfolding home chat_page
  render id now a page = record { auth = a; page = page_for id now a.browser (home a) page }

  -- The page is loaded: the first render and its effects.
  unfoldable pub launch : Text → ℕ → Browser → App
  unfolding render AuthProvider.mount AuthProvider.start
  launch id now b = render id now (AuthProvider.mount codec (AuthProvider.start b)) none

  -- Another tab changes the session at most, and no conversations.
  abbrev pub IsAlone : {a b : Auth} → Steps.Step codec a b → Type 0
  IsAlone (asked a) = Unit
  IsAlone (renewed a token s flying issued) = Unit
  IsAlone (denied a token message flying) = Unit
  IsAlone (failed a token flying) = Unit
  IsAlone (entered a s issued) = Unit
  IsAlone (refused a message) = Unit
  IsAlone (left a) = Unit
  IsAlone (session_elsewhere a b ready u) =
      (v : Text) → load_conversations codec b v ≡ load_conversations codec a.browser v
  IsAlone (other_elsewhere a b key ready other same) =
      (v : Text) → load_conversations codec b v ≡ load_conversations codec a.browser v

  -- An event of the session with its commit, or one of the chat that is on the screen.
  module _ (coerce : Json → Text) where
    pub data Step : App → App → Type 0 where
      session_changed :
          (p : App) {a : Auth} (step : Steps.Step codec p.auth a) (id : Text) (now : ℕ)
          → IsAlone step
          → Step p (render id now a p.page)
      chat_changed :
          (p : App) (page : Page) {m : Mounted}
          → p.page ≡ some page
          → Event codec coerce (mounted p.auth.browser page) m
          → m.chat.user_id ≡ page.shown.user_id
          → Step p
              (record { auth = record p.auth { browser = m.browser }; page = some (page_of m) })

    pub data Reach (p : App) : App → Type 0 where
      here : Reach p p
      next : {q r : App} → Reach p q → Step q r → Reach p r
