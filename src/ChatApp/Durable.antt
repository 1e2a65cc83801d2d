-- ===== src/ChatApp/Durable.antt =====
-- What a reload of the page finds of the conversations.
use axiom_ai.Common.{
  ℕ, true, false, none, some, List, [], ◌∷◌, map, any, Text, ◌≡◌, ◌≢◌, ◌⊎◌, inl, inr, refl, ap, ◌∙◌,
  arith,
}
use axiom_ai.Json.{Json, JsonCodec}
use axiom_ai.Browser.{Browser}
use axiom_ai.Types.{Conversation}
use axiom_ai.Types.Encode.{conversation_json}
use axiom_ai.SessionStorage.{IsFaithful}
use axiom_ai.SessionStorage.Laws.{IsOpen}
use axiom_ai.Conversations.{
  load_conversations, save_conversations, cast_conversations, sort_by_recent, insert_by_recent,
  create_conversation,
}
use axiom_ai.Conversations.Lists.{has, ids}
use axiom_ai.Conversations.Storage.{
  load_conversations-save_conversations, load_conversations-save_conversations_ne,
  cast_conversations_round, IsOpen-save_conversations,
}
use axiom_ai.ChatApp.{Chat, adopt_list, switch_user}
use axiom_ai.ChatApp.Steps
use axiom_ai.ChatApp.Steps.{Step, IsSound, Step-IsSound, mounted-IsSound}
use axiom_ai.ChatApp.Turns.{HasTurns}
use axiom_ai.Common.{IsDistinct, All}
use axiom_ai.ChatApp.Saving.{
  Mounted, schedule, commit, unmount, load_user, fire, saved_json, Event, rendered, unchanged,
  timeout, Run, here, next,
}

schedule-listed :
    (u i : Text) (cs : List Conversation) → has i cs ≡ true → schedule u cs ≡ some (u, cs)
unfolding schedule has any
schedule-listed u i [] h = cc
schedule-listed u i (c ∷ cs) h = refl

module _ (codec : JsonCodec) where
  -- The timer is about to save the list on the screen for its user, or no timer runs and that list
  -- is stored.
  abbrev pub IsKept : Mounted → Type 0
  IsKept m =
      (m.pending ≡ some (m.chat.user_id, m.chat.conversations))
      ⊎ ((m.pending ≡ none)
          × (load_conversations codec m.browser m.chat.user_id
              ≡ map conversation_json m.chat.conversations))

  pub record IsDurable (m : Mounted) : Type 0 where
    pub ready : IsOpen m.browser
    pub sound : IsSound m.chat
    pub kept : IsKept m

  commit-IsDurable :
      (m : Mounted) (t : Chat) → IsOpen m.browser → IsSound t → IsDurable (commit true t m)
  unfolding commit
  commit-IsDurable m t ready h = record {
    ready = ready;
    sound = h;
    kept = inl (schedule-listed t.user_id h.valid.open_id t.conversations h.valid.listed);
  }

  commit_same-IsKept :
      (m : Mounted) (t : Chat)
      → t.user_id ≡ m.chat.user_id
      → t.conversations ≡ m.chat.conversations
      → IsKept m
      → IsKept (commit false t m)
  unfolding commit
  commit_same-IsKept m t u c (inl k) = inl (rw (u, c) k)
  commit_same-IsKept m t u c (inr (idle, k)) = inr (idle, rw (u, c) k)

  pub fire_pending :
      (m : Mounted) (u : Text) (cs : List Conversation)
      → m.pending ≡ some (u, cs)
      → fire codec m
        ≡ record m { browser = save_conversations codec m.browser u cs; pending = none }
  unfolding fire
  fire_pending m u cs e = rw (e, fire) refl

  pub fire_idle : (m : Mounted) → m.pending ≡ none → fire codec m ≡ m
  unfolding fire
  fire_idle m e = ground arith

  pub fire-IsDurable :
      (m : Mounted)
      → IsFaithful codec (saved_json m.chat.conversations)
      → IsDurable m
      → IsDurable (fire codec m)
  fire-IsDurable m faithful h = elim h.kept [
    | inl waits ↦ rw (fire_pending m m.chat.user_id m.chat.conversations waits) (record {
      ready = IsOpen-save_conversations codec m.browser m.chat.user_id m.chat.conversations h.ready;
      sound = h.sound;
      kept = inr (
        refl,
        (load_conversations-save_conversations codec m.browser m.chat.user_id m.chat.conversations
            h.ready faithful).0,
      );
    })
    | inr (idle, stored) ↦ rw (fire_idle m idle) h
  ]

  module _ (coerce : Json → Text) where
    Event-IsDurable : {m n : Mounted} → Event codec coerce m n → IsDurable m → IsDurable n
    Event-IsDurable (rendered m {t} step) h =
        commit-IsDurable m t h.ready (Step-IsSound coerce step h.sound)
    Event-IsDurable (unchanged m {t} step u c) h = record {
      ready = unfold commit in h.ready;
      sound = unfold commit in Step-IsSound coerce step h.sound;
      kept = commit_same-IsKept m t u c h.kept;
    }
    Event-IsDurable (timeout m u cs e faithful) h = elim h.kept [
      | inl waits ↦
          fire-IsDurable m (let same : cs ≡ m.chat.conversations = cc in rw same at faithful) h
      | inr (idle, stored) ↦ cc
    ]

    pub Run-IsDurable : {m n : Mounted} → IsDurable m → Run codec coerce m n → IsDurable n
    Run-IsDurable h here = h
    Run-IsDurable h (next r event) = Event-IsDurable event (Run-IsDurable h r)

insert_by_recent-ne-nil : (c : Conversation) (cs : List Conversation) → insert_by_recent c cs ≢ []
unfolding insert_by_recent
insert_by_recent-ne-nil c [] = λ e. cc
insert_by_recent-ne-nil c (d ∷ cs) = ground arith

sort_by_recent-ne-nil :
    (i : Text) (cs : List Conversation) → has i cs ≡ true → sort_by_recent cs ≢ []
unfolding has any sort_by_recent
sort_by_recent-ne-nil i [] h = cc
sort_by_recent-ne-nil i (c ∷ cs) h = insert_by_recent-ne-nil c (sort_by_recent cs)

adopt_list_all :
    (cs : List Conversation) (fresh : Conversation) (s : Chat)
    → cs ≢ []
    → (adopt_list cs fresh s).conversations ≡ cs
adopt_list_all [] fresh s h = absurd (h refl)
adopt_list_all (c ∷ cs) fresh s h = refl

module _ (codec : JsonCodec) where
  -- The chat after its first effects: what is stored for the user is on the screen.
  abbrev pub opened : Text → Text → ℕ → Browser → Chat → Mounted
  opened user_id id now b s =
      commit true (load_user codec user_id id now b s)
        (record { chat = s; browser = b; pending = none })

  -- What this program stores of a user's conversations.
  pub record IsStored (user_id : Text) (b : Browser) : Type 0 where
    pub distinct : IsDistinct (ids (cast_conversations (load_conversations codec b user_id)))
    pub turns : All HasTurns (cast_conversations (load_conversations codec b user_id))

  fire-pending : (m : Mounted) → (fire codec m).pending ≡ none
  unfolding fire
  fire-pending m = ground arith

  fire-chat : (m : Mounted) → (fire codec m).chat ≡ m.chat
  unfolding fire
  fire-chat m = ground arith

  pub load-fire :
      (m : Mounted)
      → IsFaithful codec (saved_json m.chat.conversations)
      → IsDurable codec m
      → load_conversations codec (fire codec m).browser m.chat.user_id
        ≡ map conversation_json m.chat.conversations
  load-fire m faithful h = elim (fire-IsDurable codec m faithful h).kept [
    | inl waits ↦ cc (fire-pending m)
    | inr (idle, stored) ↦ rw (fire-chat m) at stored
  ]

  pub load-fire_ne :
      (m : Mounted) (v : Text)
      → IsDurable codec m
      → m.chat.user_id ≢ v
      → load_conversations codec (fire codec m).browser v ≡ load_conversations codec m.browser v
  load-fire_ne m v h other = elim h.kept [
    | inl waits ↦
        ap (λ (n : Mounted). load_conversations codec n.browser v)
          (fire_pending codec m m.chat.user_id m.chat.conversations waits)
        ∙ load_conversations-save_conversations_ne codec m.browser m.chat.user_id v
            m.chat.conversations other
    | inr (idle, stored) ↦
        ap (λ (n : Mounted). load_conversations codec n.browser v) (fire_idle codec m idle)
  ]

  -- Opening the chat of a user on the list that is stored for that user.
  pub load_user-stored :
      (c : Chat) (b : Browser) (id : Text) (now : ℕ) (s : Chat)
      → IsSound c
      → load_conversations codec b c.user_id ≡ map conversation_json c.conversations
      → (load_user codec c.user_id id now b s).conversations ≡ sort_by_recent c.conversations
  unfolding load_user switch_user
  load_user-stored c b id now s sound stored =
      let loaded = ap cast_conversations stored ∙ cast_conversations_round c.conversations in
      rw loaded (
        adopt_list_all (sort_by_recent c.conversations) (create_conversation id now) _
          (sort_by_recent-ne-nil sound.valid.open_id c.conversations sound.valid.listed))

  module _ (coerce : Json → Text) where
    pub opened-IsDurable :
        (user_id id : Text) (now : ℕ) (b : Browser) (s : Chat)
        → IsOpen b
        → IsStored user_id b
        → IsDurable codec (opened user_id id now b s)
    opened-IsDurable user_id id now b s ready stored =
        commit-IsDurable codec (record { chat = s; browser = b; pending = none })
          (load_user codec user_id id now b s) ready
          (unfold load_user in
            mounted-IsSound coerce s user_id _ id now stored.distinct stored.turns Steps.Reach.here)

    -- In an open browser a chat opens on what this program stored, and anything happens in it, a
    -- change of user included. Once the timer that may be pending has run out, a reload of the page
    -- shows the conversations that were on the screen, newest first; and the timer writes nothing
    -- that any other user loads.
    pub reload-fire :
        (user_id id : Text) (now : ℕ) (b : Browser) (s : Chat) (other : Text)
        → IsOpen b
        → IsStored user_id b
        → {m : Mounted} → Run codec coerce (opened user_id id now b s) m
        → IsFaithful codec (saved_json m.chat.conversations)
        → m.chat.user_id ≢ other
        → ((new_id : Text) (later : ℕ) (blank : Chat)
            → (load_user codec m.chat.user_id new_id later
                (fire codec m).browser
                blank).conversations
              ≡ sort_by_recent m.chat.conversations)
          × (load_conversations codec (fire codec m).browser other
              ≡ load_conversations codec m.browser other)
    reload-fire user_id id now b s other ready stored {m} r faithful apart =
        let durable =
          Run-IsDurable codec coerce (opened-IsDurable user_id id now b s ready stored) r in
        (
          λ new_id later blank.
              load_user-stored m.chat (fire codec m).browser new_id later blank durable.sound
                (load-fire m faithful durable),
          load-fire_ne m other durable apart,
        )

  -- Everything is saved, and a change is rendered. If the chat leaves the screen before the timer
  -- runs out, the change is lost: what is stored for the user is the list before the change.
  pub unmount_loses_change :
      (m : Mounted) (t : Chat)
      → IsDurable codec m
      → m.pending ≡ none
      → t.user_id ≡ m.chat.user_id
      → load_conversations codec (fire codec (unmount (commit true t m))).browser t.user_id
        ≡ map conversation_json m.chat.conversations
  unfolding fire unmount commit
  unmount_loses_change m t h idle same = elim h.kept [
    | inl waits ↦ cc
    | inr (_, stored) ↦ ap (load_conversations codec m.browser) same ∙ stored
  ]
