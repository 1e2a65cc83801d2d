-- ===== src/ChatApp/Owners.antt =====
-- Whose conversations are on the screen and in the browser. `owner` says for which user an id was
-- made: `generateId` never makes one id twice.
use axiom_ai.Common.{
  Bool, not, ◌&&◌, ◌||◌, Option, none, some, List, [], ◌∷◌, All, Text, codes, text_eq, text_truthy,
  trim, get_elem?, take, ◌≡◌, inl, inr, Bool-cases, Option-cases,
}
use axiom_ai.Json.{Json}
use axiom_ai.Types.{Message, Conversation}
use axiom_ai.Stream.{Call, on_token, on_sources, on_done, on_error}
use axiom_ai.ChatApp.{
  Chat, Run, Fresh, adopt_list, after_delete, active_conversation, messages, ask, start_run,
  run_query, patch_assistant, send, handle_call, handle_key_down, handle_regenerate,
  last_user_index,
}
use axiom_ai.ChatApp.Every.{All-update_conversation}

module _ (owner : Text → Text) where
  abbrev pub IsOf : Text → Conversation → Type 0
  IsOf u c = owner c.id ≡ u

  abbrev pub AllOf : Text → List Conversation → Type 0
  AllOf u = All (IsOf u)

  -- All conversations of the chat are of its user.
  abbrev pub IsMine : Chat → Type 0
  IsMine s = AllOf s.user_id s.conversations

  pub run_query-IsMine :
      (query : Text) (base : List Message) (f : Fresh) (s : Chat)
      → IsMine s
      → IsMine (run_query query base f s).0
  unfolding run_query start_run ask
  run_query-IsMine query base f s h =
      elim (Bool-cases (not (text_truthy (trim query)) || s.is_streaming)) [
        | inl refused ↦ rw (refused, run_query) h
        | inr accepted ↦ rw (accepted, run_query) (started (active_conversation s))
      ]
    where
      started : (o : Option Conversation) → IsMine (start_run query base f o s).0
      started none = h
      started (some c) =
          All-update_conversation (IsOf s.user_id) c.id (ask query base f) s.conversations
            (λ d p. p) h

  pub handle_regenerate-IsMine :
      (f : Fresh) (s : Chat) → IsMine s → IsMine (handle_regenerate f s).0
  unfolding handle_regenerate
  handle_regenerate-IsMine f s h = elim (Option-cases (last_user_index (messages s))) [
    | inl none_asked ↦ rw (none_asked, handle_regenerate) h
    | inr (i, found) ↦ elim (Option-cases (get_elem? (messages s) i)) [
      | inl missing ↦ rw (found, handle_regenerate) (rw missing h)
      | inr (m, there) ↦
          rw (found, handle_regenerate)
            (rw there (run_query-IsMine m.content (take i (messages s)) f s h))
    ]
  ]

  patch_assistant-IsMine :
      (run : Run) (g : Message → Message) (s : Chat) → IsMine s → IsMine (patch_assistant run g s)
  unfolding patch_assistant
  patch_assistant-IsMine run g s h =
      All-update_conversation (IsOf s.user_id) run.conversation_id _ s.conversations (λ d p. p) h

  pub handle_call-IsMine :
      (coerce : Json → Text) (run : Run) (call : Call) (s : Chat)
      → IsMine s
      → IsMine (handle_call coerce run call s)
  unfolding handle_call
  handle_call-IsMine coerce run (on_token v) s h = patch_assistant-IsMine run _ s h
  handle_call-IsMine coerce run (on_sources v) s h = patch_assistant-IsMine run _ s h
  handle_call-IsMine coerce run on_done s h = h
  handle_call-IsMine coerce run (on_error v) s h = patch_assistant-IsMine run _ s h

  pub handle_key_down-IsMine :
      (key : Text) (shift : Bool) (f : Fresh) (s : Chat)
      → IsMine s
      → IsMine (handle_key_down key shift f s).0
  unfolding handle_key_down send
  handle_key_down-IsMine key shift f s h =
      elim (Bool-cases (text_eq key (codes "Enter") && not shift)) [
        | inl enter ↦ rw enter (run_query-IsMine s.input (messages s) f s h)
        | inr other ↦ rw other h
      ]

  pub adopt_list-IsMine :
      (cs : List Conversation) (fresh : Conversation) (s : Chat)
      → owner fresh.id ≡ s.user_id
      → AllOf s.user_id cs
      → IsMine (adopt_list cs fresh s)
  adopt_list-IsMine [] fresh s mine h = (mine, tt)
  adopt_list-IsMine (c ∷ cs) fresh s mine h = h

  pub after_delete-IsMine :
      (gone : Text) (cs : List Conversation) (fresh : Conversation) (s : Chat)
      → owner fresh.id ≡ s.user_id
      → AllOf s.user_id cs
      → IsMine (after_delete gone cs fresh s)
  after_delete-IsMine gone [] fresh s mine h = (mine, tt)
  after_delete-IsMine gone (c ∷ cs) fresh s mine h = h
