-- ===== src/App/Coherent.antt =====
-- The invariant of the page: what is on the screen belongs to the session.
use axiom_ai.Common.{
  ℕ, true, Option, none, some, List, [], ◌∷◌, Text, text_eq, text_eq_iff, ◌≡◌, ◌⊎◌, inl, inr, refl,
  ap, sym, ◌∙◌, Bool-cases, Option-cases,
}
use axiom_ai.Json.{Json, JsonCodec}
use axiom_ai.Browser.{Browser}
use axiom_ai.Types.{User, Conversation}
use axiom_ai.SessionStorage.Laws.{IsOpen}
use axiom_ai.AuthProvider
use axiom_ai.AuthProvider.{
  Auth, current_user, refresh, refresh_settled, on_storage, sign_in, sign_out,
}
use axiom_ai.AuthProvider.Steps
use axiom_ai.AuthProvider.Steps.{
  asked, renewed, denied, failed, entered, refused, left, session_elsewhere, other_elsewhere,
}
use axiom_ai.AuthProvider.Sync.{IsSynced, Step-IsSynced, mount-IsSynced}
use axiom_ai.Home.{home, view_of, auth_screen, chat}
use axiom_ai.Home.Reload.{Step-ready, mount-ready, mount-browser, home_ready}
use axiom_ai.ChatApp
use axiom_ai.ChatApp.{Chat, switch_user, adopt_list}
use axiom_ai.ChatApp.Steps.{IsSound}
use axiom_ai.ChatApp.Saving.{Mounted, commit, load_user, Event, Run}
use axiom_ai.ChatApp.Durable.{IsDurable, IsStored, Run-IsDurable, opened-IsDurable}
use axiom_ai.App.{
  Page, App, mounted, page_of, chat_page, page_for, render, launch, IsAlone, Step, session_changed,
  chat_changed, Reach, here, next, user_id_of,
}
use axiom_ai.App.Sharing.{
  load_conversations-Step, IsStored-of_load, IsDurable-of_browser, Event-Spares,
}

-- The chat is on the screen exactly where a user is signed in, and is that user's.
abbrev pub IsShown : JsonCodec → Auth → Option Page → Type 0
IsShown codec a none = current_user a ≡ none
IsShown codec a (some p) =
    (user : User) × (current_user a ≡ some user)
    × (p.shown.user_id ≡ (user_id_of user))
    × IsDurable codec (mounted a.browser p)

module _ (codec : JsonCodec) where
  pub record IsCoherent (p : App) : Type 0 where
    pub synced : IsSynced codec p.auth
    pub ready : p.auth.is_ready ≡ true
    pub stored : (u : Text) → IsStored codec u p.auth.browser
    pub shown : IsShown codec p.auth p.page

  pub load_user-user :
      (user_id id : Text) (now : ℕ) (b : Browser) (s : Chat)
      → (load_user codec user_id id now b s).user_id ≡ user_id
  unfolding load_user switch_user
  load_user-user user_id id now b s = go _ _ _
    where
      go :
          (cs : List Conversation) (fresh : Conversation) (t : Chat)
          → (adopt_list cs fresh t).user_id ≡ t.user_id
      go [] fresh t = refl
      go (c ∷ cs) fresh t = refl

  -- What the browser holds is fit for any chat that opens or stays.
  chat_page-IsShown :
      (id : Text) (now : ℕ) (a : Auth) (user : User) (page : Option Page)
      → current_user a ≡ some user
      → IsOpen a.browser
      → ((u : Text) → IsStored codec u a.browser)
      → ((p : Page) → page ≡ some p → IsDurable codec (mounted a.browser p))
      → IsShown codec a (some (chat_page codec id now a.browser user page))
  unfolding chat_page commit
  chat_page-IsShown id now a user none signed ready stored kept = (
    user,
    signed,
    load_user-user (user_id_of user) id now a.browser (ChatApp.start (user_id_of user)),
    opened-IsDurable codec (λ v. []) (user_id_of user) id now a.browser
        (ChatApp.start (user_id_of user)) ready (stored (user_id_of user)),
  )
  chat_page-IsShown id now a user (some p) signed ready stored kept =
      elim (Bool-cases (text_eq p.shown.user_id (user_id_of user))) [
        | inl same ↦
            rw (same, chat_page)
              (user, signed, (text_eq_iff p.shown.user_id (user_id_of user)).0 same, kept p refl)
        | inr other ↦
            rw (other, chat_page)
              (
                user,
                signed,
                load_user-user (user_id_of user) id now a.browser p.shown,
                opened-IsDurable codec (λ v. []) (user_id_of user) id now a.browser p.shown ready
                    (stored (user_id_of user)),
              )
      ]

  render-IsShown :
      (id : Text) (now : ℕ) (a : Auth) (page : Option Page)
      → a.is_ready ≡ true
      → IsOpen a.browser
      → ((u : Text) → IsStored codec u a.browser)
      → ((p : Page) → page ≡ some p → IsDurable codec (mounted a.browser p))
      → IsShown codec a (page_for codec id now a.browser (home a) page)
  render-IsShown id now a page ready open_browser stored kept =
      elim (Option-cases (current_user a)) [
        | inl out ↦
            let shown : home a ≡ view_of none = home_ready codec a ready ∙ ap view_of out in
            rw shown out
        | inr (user, signed) ↦
            let shown : home a ≡ view_of (some user) =
              home_ready codec a ready ∙ ap view_of signed in
            rw shown (chat_page-IsShown id now a user page signed open_browser stored kept)
      ]

  shown-IsDurable :
      (a : Auth) (page : Option Page)
      → IsShown codec a page
      → (p : Page) → page ≡ some p
      → IsDurable codec (mounted a.browser p)
  shown-IsDurable a none h p e = cc
  shown-IsDurable a (some q) (user, signed, same, durable) p e =
      let q_is_p : q ≡ p = cc in rw (sym q_is_p) durable

  pub launch-IsCoherent :
      (id : Text) (now : ℕ) (b : Browser)
      → IsOpen b
      → ((u : Text) → IsStored codec u b)
      → IsCoherent (launch codec id now b)
  unfolding launch render AuthProvider.mount
  launch-IsCoherent id now b ready stored =
      let a = AuthProvider.mount codec (AuthProvider.start b) in
      let same : a.browser ≡ b = mount-browser codec b in
      record {
        synced = mount-IsSynced codec b ready;
        ready = mount-ready codec b;
        stored = λ u. rw same (stored u);
        shown =
            render-IsShown id now a none (mount-ready codec b) (rw same ready)
              (λ u. rw same (stored u)) (λ p (e : none ≡ some p). cc);
      }

  module _ (coerce : Json → Text) where
    session_changed-IsCoherent :
        (p : App) {a : Auth} (step : Steps.Step codec p.auth a) (id : Text) (now : ℕ)
        → IsAlone codec step
        → IsCoherent p
        → IsCoherent (render codec id now a p.page)
    unfolding render
    session_changed-IsCoherent p {a} step id now alone h =
        let synced = Step-IsSynced codec step h.synced in
        let ready = Step-ready codec step ∙ h.ready in
        let same = load_conversations-Step codec step alone in
        let stored : (u : Text) → IsStored codec u a.browser =
          λ u. IsStored-of_load codec u p.auth.browser a.browser (same u) (h.stored u) in
        record {
          synced = synced;
          ready = ready;
          stored = stored;
          shown = render-IsShown id now a p.page ready synced.ready stored (λ q e.
              IsDurable-of_browser codec p.auth.browser a.browser q synced.ready
                (same q.shown.user_id) (shown-IsDurable p.auth p.page h.shown q e));
        }

    chat_changed-IsCoherent :
        (p : App) (page : Page) {m : Mounted}
        → p.page ≡ some page
        → Event codec coerce (mounted p.auth.browser page) m
        → m.chat.user_id ≡ page.shown.user_id
        → IsCoherent p
        → IsCoherent
            (record { auth = record p.auth { browser = m.browser }; page = some (page_of m) })
    unfolding current_user
    chat_changed-IsCoherent p page {m} on_screen event same h =
        let (user, signed, mine, durable) = rw on_screen at h.shown in
        let after = Run-IsDurable codec coerce durable (Run.next Run.here event) in
        let spared = Event-Spares codec coerce event durable in
        record {
          synced = record { ready = after.ready; same = spared.session ∙ h.synced.same };
          ready = h.ready;
          stored = λ u. spared.stored u (h.stored u);
          shown = (user, signed, same ∙ mine, after);
        }

    Step-IsCoherent : {p q : App} → Step codec coerce p q → IsCoherent p → IsCoherent q
    Step-IsCoherent (session_changed p step id now alone) h =
        session_changed-IsCoherent p step id now alone h
    Step-IsCoherent (chat_changed p page on_screen event same) h =
        chat_changed-IsCoherent p page on_screen event same h

    pub Reach-IsCoherent : {p q : App} → IsCoherent p → Reach codec coerce p q → IsCoherent q
    Reach-IsCoherent h here = h
    Reach-IsCoherent h (next r step) = Step-IsCoherent step (Reach-IsCoherent h r)

    -- From the start of the page on, in an open browser where the conversations of each user have
    -- distinct ids and whole turns, whatever happens to the session and in the chat: no user is
    -- signed in and the sign-in form is shown, or the chat on the screen is that of the user who is
    -- signed in, and its list is sound: one of its conversations is open, no two share an id, and
    -- each one is a sequence of questions with their answers.
    pub home-Reach :
        (id : Text) (now : ℕ) (b : Browser)
        → IsOpen b
        → ((u : Text) → IsStored codec u b)
        → {p : App} → Reach codec coerce (launch codec id now b) p
        → ((home p.auth ≡ auth_screen) × (p.page ≡ none))
          ⊎ ((user : User) × (page : Page) × (home p.auth ≡ chat user)
              × (p.page ≡ some page)
              × (page.shown.user_id ≡ (user_id_of user))
              × IsSound page.shown)
    home-Reach id now b ready stored {p} r =
        let h = Reach-IsCoherent (launch-IsCoherent id now b ready stored) r in
        shown_home p.auth p.page (home_ready codec p.auth h.ready) h.shown
      where
        shown_home :
            (a : Auth) (page : Option Page)
            → home a ≡ view_of (current_user a)
            → IsShown codec a page
            → ((home a ≡ auth_screen) × (page ≡ none))
              ⊎ ((user : User) × (q : Page) × (home a ≡ chat user)
                  × (page ≡ some q)
                  × (q.shown.user_id ≡ (user_id_of user))
                  × IsSound q.shown)
        shown_home a none seen out = inl (seen ∙ ap view_of out, refl)
        shown_home a (some q) seen (user, signed, mine, durable) =
            inr (user, q, seen ∙ ap view_of signed, refl, mine, durable.sound)
