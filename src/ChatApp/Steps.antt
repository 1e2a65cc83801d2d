-- ===== src/ChatApp/Steps.antt =====
-- The events of the chat as a step relation: what a person does, what a stream calls, and a change
-- of user. A call may come from any run at any time, one that was aborted or has ended included. The
-- sidebar lists the conversations that there are, and a stored list is one that this program saved.
use axiom_ai.Common.{
  IsDistinct, ℕ, Bool, true, false, ◌&&◌, not, ◌||◌, Option, none, some, get_elem?, take, List, [],
  ◌∷◌, All, Text, codes, text_eq, text_truthy, trim, ◌≡◌, refl, Bool-cases, Option-cases, inl, inr,
}
use axiom_ai.Json.{Json}
use axiom_ai.Types.{Message, Conversation}
use axiom_ai.Conversations.{create_conversation}
use axiom_ai.Conversations.Lists.{ids, has}
use axiom_ai.Stream.{Call, on_token, on_sources, on_done, on_error}
use axiom_ai.ChatApp.{
  Chat, Run, Fresh, adopt_list, after_delete, switch_user, active_conversation, messages,
  handle_new_chat, handle_select, handle_delete, ask, start_run, run_query, patch_assistant, send,
  handle_submit, handle_key_down, handle_call, finish, handle_stop, handle_regenerate,
  last_user_index, set_input, set_sidebar, documents_changed,
}
use axiom_ai.ChatApp.Lookup.{ids-update_conversation}
use axiom_ai.ChatApp.Every.{All-delete_conversation, All-sort_by_recent}
use axiom_ai.ChatApp.Valid.{
  IsValid, IsValid-of_ids, handle_new_chat-IsValid, handle_select-IsValid, handle_delete-IsValid,
  switch_user-IsValid,
}
use axiom_ai.ChatApp.Turns.{
  HasTurns, handle_call-turns, run_query-turns, messages-IsTurns, handle_regenerate-turns,
}

module _ (coerce : Json → Text) where
  pub data Step : Chat → Chat → Type 0 where
    typed : (s : Chat) (text : Text) → Step s (set_input text s)
    shown : (s : Chat) (open_bar : Bool) → Step s (set_sidebar open_bar s)
    documents : (s : Chat) → Step s (documents_changed s)
    created :
        (s : Chat) (id : Text) (now : ℕ)
        → has id s.conversations ≡ false
        → Step s (handle_new_chat id now s)
    selected : (s : Chat) (id : Text) → has id s.conversations ≡ true → Step s (handle_select id s)
    deleted : (s : Chat) (id fresh_id : Text) (now : ℕ) → Step s (handle_delete id fresh_id now s)
    prompted : (s : Chat) (prompt : Text) (f : Fresh) → Step s (send prompt f s).0
    submitted : (s : Chat) (f : Fresh) → Step s (handle_submit f s).0
    pressed :
        (s : Chat) (key : Text) (shift : Bool) (f : Fresh)
        → Step s (handle_key_down key shift f s).0
    regenerated : (s : Chat) (f : Fresh) → Step s (handle_regenerate f s).0
    called : (s : Chat) (run : Run) (call : Call) → Step s (handle_call coerce run call s)
    ended : (s : Chat) → Step s (finish s)
    stopped : (s : Chat) → Step s (handle_stop s)
    switched :
        (s : Chat) (user_id : Text) (stored : List Conversation) (id : Text) (now : ℕ)
        → IsDistinct (ids stored)
        → All HasTurns stored
        → Step s (switch_user user_id stored id now s)

  pub data Reach (s : Chat) : Chat → Type 0 where
    here : Reach s s
    next : {t u : Chat} → Reach s t → Step t u → Reach s u

-- The invariant of the chat.
pub record IsSound (s : Chat) : Type 0 where
  pub valid : IsValid s
  pub turns : All HasTurns s.conversations

run_query-IsValid :
    (query : Text) (base : List Message) (f : Fresh) (s : Chat)
    → IsValid s
    → IsValid (run_query query base f s).0
unfolding run_query start_run ask
run_query-IsValid query base f s v =
    elim (Bool-cases (not (text_truthy (trim query)) || s.is_streaming)) [
      | inl refused ↦ rw (refused, run_query) v
      | inr accepted ↦ rw (accepted, run_query) (started (active_conversation s))
    ]
  where
    started : (o : Option Conversation) → IsValid (start_run query base f o s).0
    started none = v
    started (some c) =
        IsValid-of_ids s _
          (ids-update_conversation c.id (ask query base f) (λ d. refl) s.conversations) refl v

run_query-IsSound :
    (query : Text) (f : Fresh) (s : Chat) → IsSound s → IsSound (run_query query (messages s) f s).0
run_query-IsSound query f s h = record {
  valid = run_query-IsValid query (messages s) f s h.valid;
  turns = run_query-turns query (messages s) f s (messages-IsTurns s h.turns) h.turns;
}

handle_regenerate-IsValid : (f : Fresh) (s : Chat) → IsValid s → IsValid (handle_regenerate f s).0
unfolding handle_regenerate
handle_regenerate-IsValid f s v = elim (Option-cases (last_user_index (messages s))) [
  | inl none_asked ↦ rw (none_asked, handle_regenerate) v
  | inr (i, found) ↦ elim (Option-cases (get_elem? (messages s) i)) [
    | inl missing ↦ rw (found, handle_regenerate) (rw missing v)
    | inr (m, there) ↦
        rw (found, handle_regenerate)
          (rw there (run_query-IsValid m.content (take i (messages s)) f s v))
  ]
]

patch_assistant-IsValid :
    (run : Run) (g : Message → Message) (s : Chat) → IsValid s → IsValid (patch_assistant run g s)
unfolding patch_assistant
patch_assistant-IsValid run g s v =
    IsValid-of_ids s _ (ids-update_conversation run.conversation_id _ (λ c. refl) s.conversations)
      refl v

handle_call-IsValid :
    (coerce : Json → Text) (run : Run) (call : Call) (s : Chat)
    → IsValid s
    → IsValid (handle_call coerce run call s)
unfolding handle_call
handle_call-IsValid coerce run (on_token v) s h = patch_assistant-IsValid run _ s h
handle_call-IsValid coerce run (on_sources v) s h = patch_assistant-IsValid run _ s h
handle_call-IsValid coerce run on_done s h = IsValid-of_ids s _ refl refl h
handle_call-IsValid coerce run (on_error v) s h =
    IsValid-of_ids (patch_assistant run _ s) _ refl refl (patch_assistant-IsValid run _ s h)

send-IsSound : (query : Text) (f : Fresh) (s : Chat) → IsSound s → IsSound (send query f s).0
unfolding send
send-IsSound query f s h = run_query-IsSound query f s h

handle_key_down-IsSound :
    (key : Text) (shift : Bool) (f : Fresh) (s : Chat)
    → IsSound s
    → IsSound (handle_key_down key shift f s).0
unfolding handle_key_down
handle_key_down-IsSound key shift f s h =
    elim (Bool-cases (text_eq key (codes "Enter") && not shift)) [
      | inl enter ↦ rw enter (send-IsSound s.input f s h)
      | inr other ↦ rw other h
    ]

adopt_list-turns :
    (cs : List Conversation) (id : Text) (now : ℕ) (s : Chat)
    → All HasTurns cs
    → All HasTurns (adopt_list cs (create_conversation id now) s).conversations
unfolding create_conversation
adopt_list-turns [] id now s h = (tt, tt)
adopt_list-turns (c ∷ cs) id now s h = h

after_delete-turns :
    (gone : Text) (cs : List Conversation) (id : Text) (now : ℕ) (s : Chat)
    → All HasTurns cs
    → All HasTurns (after_delete gone cs (create_conversation id now) s).conversations
unfolding create_conversation
after_delete-turns gone [] id now s h = (tt, tt)
after_delete-turns gone (c ∷ cs) id now s h = h

module _ (coerce : Json → Text) where
  -- Every event keeps the invariant: a listed conversation is open, no two conversations share an
  -- id, and each one is a sequence of questions with their answers.
  pub Step-IsSound : {s t : Chat} → Step coerce s t → IsSound s → IsSound t
  unfolding set_input set_sidebar documents_changed finish handle_stop handle_new_chat handle_select
      handle_delete handle_submit switch_user create_conversation
  Step-IsSound (typed s text) h = record {
    valid = IsValid-of_ids s _ refl refl h.valid;
    turns = h.turns;
  }
  Step-IsSound (shown s open_bar) h = record {
    valid = IsValid-of_ids s _ refl refl h.valid;
    turns = h.turns;
  }
  Step-IsSound (documents s) h = record {
    valid = IsValid-of_ids s _ refl refl h.valid;
    turns = h.turns;
  }
  Step-IsSound (created s id now new) h = record {
    valid = handle_new_chat-IsValid s id now new h.valid;
    turns = (tt, h.turns);
  }
  Step-IsSound (selected s id there) h = record {
    valid = handle_select-IsValid s id there h.valid;
    turns = h.turns;
  }
  Step-IsSound (deleted s id fresh_id now) h = record {
    valid = handle_delete-IsValid s id fresh_id now h.valid;
    turns =
        after_delete-turns id _ fresh_id now s
          (All-delete_conversation HasTurns s.conversations id h.turns);
  }
  Step-IsSound (prompted s prompt f) h = send-IsSound prompt f s h
  Step-IsSound (submitted s f) h = send-IsSound s.input f s h
  Step-IsSound (pressed s key shift f) h = handle_key_down-IsSound key shift f s h
  Step-IsSound (regenerated s f) h = record {
    valid = handle_regenerate-IsValid f s h.valid;
    turns = handle_regenerate-turns f s h.turns;
  }
  Step-IsSound (called s run call) h = record {
    valid = handle_call-IsValid coerce run call s h.valid;
    turns = handle_call-turns coerce run call s h.turns;
  }
  Step-IsSound (ended s) h = record {
    valid = IsValid-of_ids s _ refl refl h.valid;
    turns = h.turns;
  }
  Step-IsSound (stopped s) h = record {
    valid = IsValid-of_ids s _ refl refl h.valid;
    turns = h.turns;
  }
  Step-IsSound (switched s user_id stored id now distinct turns) h = record {
    valid = switch_user-IsValid user_id stored id now s distinct;
    turns =
        adopt_list-turns _ id now (record s { user_id = user_id })
          (All-sort_by_recent HasTurns stored turns);
  }

  pub Reach-IsSound : {s t : Chat} → IsSound s → Reach coerce s t → IsSound t
  Reach-IsSound h here = h
  Reach-IsSound h (next r step) = Step-IsSound step (Reach-IsSound h r)

  -- The stored list has distinct ids and whole turns. From the effect that loads it on, whatever happens in
  -- whatever order: a listed conversation is open, no two conversations share an id, and every
  -- conversation is a sequence of turns, a question and its answer.
  pub mounted-IsSound :
      (start : Chat) (user_id : Text) (stored : List Conversation) (id : Text) (now : ℕ)
      → IsDistinct (ids stored)
      → All HasTurns stored
      → {t : Chat} → Reach coerce (switch_user user_id stored id now start) t
      → IsSound t
  unfolding switch_user
  mounted-IsSound start user_id stored id now distinct turns r =
      Reach-IsSound
        (record {
          valid = switch_user-IsValid user_id stored id now start distinct;
          turns =
              adopt_list-turns _ id now (record start { user_id = user_id })
                (All-sort_by_recent HasTurns stored turns);
        })
        r
