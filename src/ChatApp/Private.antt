-- ===== src/ChatApp/Private.antt =====
-- No user sees or stores the conversations of another one.
use axiom_ai.Common.{
  ℕ, arith, Bool, true, false, Option, none, some, List, [], ◌∷◌, Text, text_eq, text_eq_iff, ◌≡◌,
  inl, inr, sym, Bool-cases,
}
use axiom_ai.Json.{Json, JsonCodec}
use axiom_ai.Browser.{Browser}
use axiom_ai.Types.{Conversation}
use axiom_ai.SessionStorage.{IsFaithful}
use axiom_ai.SessionStorage.Laws.{IsOpen}
use axiom_ai.Conversations.{
  load_conversations, save_conversations, cast_conversations, sort_by_recent, create_conversation,
}
use axiom_ai.Conversations.Storage.{
  load_conversations-save_conversations, load_conversations-save_conversations_ne,
  IsOpen-save_conversations,
}
use axiom_ai.ChatApp.{
  Chat, set_input, set_sidebar, documents_changed, finish, handle_stop, handle_new_chat,
  handle_select, handle_delete, switch_user, messages, send, handle_submit,
}
use axiom_ai.ChatApp.Every.{All-delete_conversation, All-sort_by_recent}
use axiom_ai.ChatApp.Steps.{
  Step, typed, shown, documents, created, selected, deleted, prompted, submitted, pressed,
  regenerated, called, ended, stopped, switched,
}
use axiom_ai.ChatApp.Saving.{
  Mounted, schedule, commit, load_user, fire, saved_json, Event, rendered, unchanged, timeout,
}
use axiom_ai.ChatApp.Durable.{opened, fire_pending}
use axiom_ai.ChatApp.Owners.{
  AllOf, IsMine, IsOf, run_query-IsMine, handle_regenerate-IsMine, handle_call-IsMine,
  handle_key_down-IsMine, adopt_list-IsMine, after_delete-IsMine,
}

module _ (codec : JsonCodec) (owner : Text → Text) where
  -- What is stored for a user.
  abbrev pub stored_for : Browser → Text → List Conversation
  stored_for b u = cast_conversations (load_conversations codec b u)

  module _ (coerce : Json → Text) where
    -- A new id is one of the user on the screen, and the list of a new user is loaded from the browser.
    abbrev pub IsFor : Browser → {s t : Chat} → Step coerce s t → Type 0
    IsFor b (typed s text) = Unit
    IsFor b (shown s open_bar) = Unit
    IsFor b (documents s) = Unit
    IsFor b (created s id now new) = owner id ≡ s.user_id
    IsFor b (selected s id there) = Unit
    IsFor b (deleted s id fresh_id now) = owner fresh_id ≡ s.user_id
    IsFor b (prompted s prompt f) = Unit
    IsFor b (submitted s f) = Unit
    IsFor b (pressed s key shift f) = Unit
    IsFor b (regenerated s f) = Unit
    IsFor b (called s run call) = Unit
    IsFor b (ended s) = Unit
    IsFor b (stopped s) = Unit
    IsFor b (switched s u stored id now distinct turns) = (owner id ≡ u) × (stored ≡ stored_for b u)

    abbrev pub IsProper : {m n : Mounted} → Event codec coerce m n → Type 0
    IsProper (rendered m step) = IsFor m.browser step
    IsProper (unchanged m step u c) = IsFor m.browser step
    IsProper (timeout m u cs e faithful) = Unit

    pub data ProperRun (m : Mounted) : Mounted → Type 0 where
      here : ProperRun m m
      next :
          {n o : Mounted}
          → ProperRun m n
          → (e : Event codec coerce n o) → IsProper e
          → ProperRun m o

  -- Everything that is stored for a user is of that user.
  abbrev pub IsApart : Browser → Type 0
  IsApart b = (v : Text) → AllOf owner v (stored_for b v)

  -- What the timer will save for a user is of that user.
  abbrev pub IsPending : Option (Text × List Conversation) → Type 0
  IsPending none = Unit
  IsPending (some (u, cs)) = AllOf owner u cs

  pub record IsPrivate (m : Mounted) : Type 0 where
    pub ready : IsOpen m.browser
    pub screen : AllOf owner m.chat.user_id m.chat.conversations
    pub waiting : IsPending m.pending
    pub apart : IsApart m.browser

  saved-IsApart :
      (b : Browser) (u : Text) (cs : List Conversation)
      → IsOpen b
      → IsFaithful codec (saved_json cs)
      → AllOf owner u cs
      → IsApart b
      → IsApart (save_conversations codec b u cs)
  saved-IsApart b u cs ready faithful h apart v = elim (Bool-cases (text_eq u v)) [
    | inl same ↦
        let e = (text_eq_iff u v).0 same in
        rw (sym e) (rw ((load_conversations-save_conversations codec b u cs ready faithful).1) h)
    | inr other ↦
        rw
          (load_conversations-save_conversations_ne codec b u v cs
            (λ e. ground (arith, text_eq_iff u v)))
          (apart v)
  ]

  Step-IsMine :
      (coerce : Json → Text) (b : Browser) {s t : Chat} (step : Step coerce s t)
      → IsFor coerce b step
      → IsApart b
      → IsMine owner s
      → IsMine owner t
  unfolding set_input set_sidebar documents_changed finish handle_stop handle_new_chat handle_select
      handle_delete handle_submit switch_user create_conversation send
  Step-IsMine coerce b (typed s text) p apart h = h
  Step-IsMine coerce b (shown s open_bar) p apart h = h
  Step-IsMine coerce b (documents s) p apart h = h
  Step-IsMine coerce b (created s id now new) p apart h = (p, h)
  Step-IsMine coerce b (selected s id there) p apart h = h
  Step-IsMine coerce b (deleted s id fresh_id now) p apart h =
      after_delete-IsMine owner id _ (create_conversation fresh_id now) s p
        (All-delete_conversation (IsOf owner s.user_id) s.conversations id h)
  Step-IsMine coerce b (prompted s prompt f) p apart h =
      run_query-IsMine owner prompt (messages s) f s h
  Step-IsMine coerce b (submitted s f) p apart h = run_query-IsMine owner s.input (messages s) f s h
  Step-IsMine coerce b (pressed s key shift f) p apart h =
      handle_key_down-IsMine owner key shift f s h
  Step-IsMine coerce b (regenerated s f) p apart h = handle_regenerate-IsMine owner f s h
  Step-IsMine coerce b (called s run call) p apart h = handle_call-IsMine owner coerce run call s h
  Step-IsMine coerce b (ended s) p apart h = h
  Step-IsMine coerce b (stopped s) p apart h = h
  Step-IsMine coerce b (switched s u stored id now distinct turns) (mine, loaded) apart h =
      adopt_list-IsMine owner _ (create_conversation id now) (record s { user_id = u }) mine
        (All-sort_by_recent (IsOf owner u) stored (rw loaded (apart u)))

  schedule-IsPending :
      (u : Text) (cs : List Conversation) → AllOf owner u cs → IsPending (schedule u cs)
  unfolding schedule
  schedule-IsPending u [] h = tt
  schedule-IsPending u (c ∷ cs) h = h

  commit-IsPrivate :
      (changed : Bool) (m : Mounted) (t : Chat)
      → IsPrivate m
      → IsMine owner t
      → IsPrivate (commit changed t m)
  unfolding commit
  commit-IsPrivate true m t h mine = record {
    ready = h.ready;
    screen = mine;
    waiting = schedule-IsPending t.user_id t.conversations mine;
    apart = h.apart;
  }
  commit-IsPrivate false m t h mine = record {
    ready = h.ready;
    screen = mine;
    waiting = h.waiting;
    apart = h.apart;
  }

  fire-IsPrivate :
      (m : Mounted) (u : Text) (cs : List Conversation)
      → m.pending ≡ some (u, cs)
      → IsFaithful codec (saved_json cs)
      → IsPrivate m
      → IsPrivate (fire codec m)
  fire-IsPrivate m u cs e faithful h =
      let mine : AllOf owner u cs = rw e at (h.waiting) in
      rw (fire_pending codec m u cs e) (record {
        ready = IsOpen-save_conversations codec m.browser u cs h.ready;
        screen = h.screen;
        waiting = tt;
        apart = saved-IsApart m.browser u cs h.ready faithful mine h.apart;
      })

  module _ (coerce : Json → Text) where
    Event-IsPrivate :
        {m n : Mounted} (e : Event codec coerce m n) → IsProper coerce e → IsPrivate m → IsPrivate n
    Event-IsPrivate (rendered m {t} step) p h =
        commit-IsPrivate true m t h (Step-IsMine coerce m.browser step p h.apart h.screen)
    Event-IsPrivate (unchanged m {t} step u c) p h =
        commit-IsPrivate false m t h (Step-IsMine coerce m.browser step p h.apart h.screen)
    Event-IsPrivate (timeout m u cs e faithful) p h = fire-IsPrivate m u cs e faithful h

    ProperRun-IsPrivate : {m n : Mounted} → ProperRun coerce m n → IsPrivate m → IsPrivate n
    ProperRun-IsPrivate here h = h
    ProperRun-IsPrivate (next r e p) h = Event-IsPrivate e p (ProperRun-IsPrivate r h)

    -- In an open browser everything that is stored for a user is of that user, and a chat opens.
    -- From then on, in any order of events, where every new id is one of the user who is signed
    -- in, a new user gets what the browser stores for that user, and any stream may call late:
    -- every conversation on the screen is of the user who is signed in, and everything that is
    -- stored for a user is of that user.
    pub conversations_private :
        (user_id id : Text) (now : ℕ) (b : Browser) (s : Chat)
        → IsOpen b
        → IsApart b
        → owner id ≡ user_id
        → {m : Mounted} → ProperRun coerce (opened codec user_id id now b s) m
        → AllOf owner m.chat.user_id m.chat.conversations × IsApart m.browser
    unfolding load_user switch_user create_conversation commit
    conversations_private user_id id now b s ready apart mine r =
        let blank : IsPrivate
            (record { chat = record s { conversations = [] }; browser = b; pending = none }) =
          record { ready = ready; screen = tt; waiting = tt; apart = apart } in
        let start =
          adopt_list-IsMine owner (sort_by_recent (stored_for b user_id))
            (create_conversation id now) (record s { user_id = user_id }) mine
            (All-sort_by_recent (IsOf owner user_id) (stored_for b user_id) (apart user_id)) in
        let h = ProperRun-IsPrivate r (commit-IsPrivate true _ _ blank start) in (h.screen, h.apart)
