-- ===== src/ChatApp/Kept.antt =====
-- Which events may take a conversation off the list: its own deletion, and a change of user.
use axiom_ai.Common.{
  Bool, true, false, not, ◌||◌, ◌&&◌, Option, none, some, List, [], ◌∷◌, any, take, get_elem?, Text,
  codes, text_eq, text_truthy, trim, ◌≡◌, refl, arith, ap, sym, ◌∙◌, inl, inr, Bool-cases,
  Option-cases,
}
use axiom_ai.Json.{Json}
use axiom_ai.Types.{Message, Conversation}
use axiom_ai.Conversations.{create_conversation, delete_conversation}
use axiom_ai.Conversations.Lists.{ids, has}
use axiom_ai.Stream.{Call, on_token, on_sources, on_done, on_error}
use axiom_ai.ChatApp.{
  Chat, Run, Fresh, after_delete, active_conversation, messages, handle_new_chat, handle_select,
  handle_delete, ask, start_run, run_query, patch_assistant, send, handle_submit, handle_key_down,
  handle_call, finish, handle_stop, handle_regenerate, last_user_index, set_input, set_sidebar,
  documents_changed,
}
use axiom_ai.ChatApp.Lookup.{ids-update_conversation}
use axiom_ai.ChatApp.Valid.{has-ids, has-delete}
use axiom_ai.ChatApp.Steps.{
  Step, typed, shown, documents, created, selected, deleted, prompted, submitted, pressed,
  regenerated, called, ended, stopped, switched, Reach, here, next,
}

abbrev SameIds : Chat → Chat → Type 0
SameIds s t = ids t.conversations ≡ ids s.conversations

run_query-ids :
    (query : Text) (base : List Message) (f : Fresh) (s : Chat)
    → SameIds s (run_query query base f s).0
unfolding run_query start_run ask
run_query-ids query base f s =
    elim (Bool-cases (not (text_truthy (trim query)) || s.is_streaming)) [
      | inl refused ↦ rw (refused, run_query) refl
      | inr accepted ↦ rw (accepted, run_query) (started (active_conversation s))
    ]
  where
    started : (o : Option Conversation) → SameIds s (start_run query base f o s).0
    started none = refl
    started (some c) = ids-update_conversation c.id (ask query base f) (λ d. refl) s.conversations

handle_key_down-ids :
    (key : Text) (shift : Bool) (f : Fresh) (s : Chat) → SameIds s (handle_key_down key shift f s).0
unfolding handle_key_down send
handle_key_down-ids key shift f s = elim (Bool-cases (text_eq key (codes "Enter") && not shift)) [
  | inl enter ↦ rw enter (run_query-ids s.input (messages s) f s)
  | inr other ↦ rw other refl
]

handle_regenerate-ids : (f : Fresh) (s : Chat) → SameIds s (handle_regenerate f s).0
unfolding handle_regenerate
handle_regenerate-ids f s = elim (Option-cases (last_user_index (messages s))) [
  | inl none_asked ↦ rw (none_asked, handle_regenerate) refl
  | inr (i, found) ↦ elim (Option-cases (get_elem? (messages s) i)) [
    | inl missing ↦ rw (found, handle_regenerate) (rw missing refl)
    | inr (m, there) ↦
        rw (found, handle_regenerate) (rw there (run_query-ids m.content (take i (messages s)) f s))
  ]
]

handle_call-ids :
    (coerce : Json → Text) (run : Run) (call : Call) (s : Chat)
    → SameIds s (handle_call coerce run call s)
unfolding handle_call patch_assistant
handle_call-ids coerce run (on_token v) s =
    ids-update_conversation run.conversation_id _ (λ c. refl) s.conversations
handle_call-ids coerce run (on_sources v) s =
    ids-update_conversation run.conversation_id _ (λ c. refl) s.conversations
handle_call-ids coerce run on_done s = refl
handle_call-ids coerce run (on_error v) s =
    ids-update_conversation run.conversation_id _ (λ c. refl) s.conversations

has-same :
    (i : Text) (s t : Chat)
    → SameIds s t
    → has i s.conversations ≡ true
    → has i t.conversations ≡ true
has-same i s t same there =
    has-ids i t.conversations
    ∙ ap (any (λ j. text_eq j i)) same
    ∙ sym (has-ids i s.conversations)
    ∙ there

has-cons :
    (i : Text) (c : Conversation) (cs : List Conversation) → has i cs ≡ true → has i (c ∷ cs) ≡ true
unfolding has any
has-cons i c cs there = ground arith

after_delete-has :
    (i gone : Text) (cs : List Conversation) (fresh : Conversation) (s : Chat)
    → has i cs ≡ true
    → has i (after_delete gone cs fresh s).conversations ≡ true
unfolding has any
after_delete-has i gone [] fresh s there = cc
after_delete-has i gone (c ∷ cs) fresh s there = there

module _ (coerce : Json → Text) (i : Text) where
  -- Neither the deletion of the conversation nor a change of user.
  abbrev pub Spares : {s t : Chat} → Step coerce s t → Type 0
  Spares (typed s text) = Unit
  Spares (shown s open_bar) = Unit
  Spares (documents s) = Unit
  Spares (created s id now new) = Unit
  Spares (selected s id there) = Unit
  Spares (deleted s gone fresh_id now) = text_eq gone i ≡ false
  Spares (prompted s prompt f) = Unit
  Spares (submitted s f) = Unit
  Spares (pressed s key shift f) = Unit
  Spares (regenerated s f) = Unit
  Spares (called s run call) = Unit
  Spares (ended s) = Unit
  Spares (stopped s) = Unit
  Spares (switched s user_id stored id now distinct turns) = ⊥

  abbrev pub AllSpare : {s t : Chat} → Reach coerce s t → Type 0
  AllSpare here = Unit
  AllSpare (next r step) = AllSpare r × Spares step

  Step-has :
      {s t : Chat} (step : Step coerce s t)
      → Spares step
      → has i s.conversations ≡ true
      → has i t.conversations ≡ true
  unfolding set_input set_sidebar documents_changed finish handle_stop handle_submit send
      handle_new_chat handle_select handle_delete
  Step-has (typed s text) k h = h
  Step-has (shown s open_bar) k h = h
  Step-has (documents s) k h = h
  Step-has (created s id now new) k h = has-cons i (create_conversation id now) s.conversations h
  Step-has (selected s id there) k h = h
  Step-has (deleted s gone fresh_id now) k h =
      after_delete-has i gone (delete_conversation s.conversations gone)
        (create_conversation fresh_id now) s (has-delete i gone s.conversations k h)
  Step-has (prompted s prompt f) k h =
      has-same i s (send prompt f s).0 (run_query-ids prompt (messages s) f s) h
  Step-has (submitted s f) k h =
      has-same i s (send s.input f s).0 (run_query-ids s.input (messages s) f s) h
  Step-has (pressed s key shift f) k h =
      has-same i s (handle_key_down key shift f s).0 (handle_key_down-ids key shift f s) h
  Step-has (regenerated s f) k h =
      has-same i s (handle_regenerate f s).0 (handle_regenerate-ids f s) h
  Step-has (called s run call) k h =
      has-same i s (handle_call coerce run call s) (handle_call-ids coerce run call s) h
  Step-has (ended s) k h = h
  Step-has (stopped s) k h = h
  Step-has (switched s user_id stored id now distinct turns) k h = absurd k

  -- A conversation that is listed stays listed through any events of the chat, other conversations'
  -- deletions, stops and failures included, until it is deleted itself or the user is another one.
  pub Reach-has :
      {s t : Chat} (r : Reach coerce s t)
      → AllSpare r
      → has i s.conversations ≡ true
      → has i t.conversations ≡ true
  Reach-has here k h = h
  Reach-has (next r step) k h = Step-has step k.1 (Reach-has r k.0 h)
