-- ===== src/ChatApp.antt =====
-- frontend/src/components/ChatApp.tsx: the state of the chat and its event handlers. A handler is a
-- function from the state of the last render; what `generateId` and `Date.now` return is an
-- argument. `coerce` is the language's conversion of a value to a string.
pub mod Lookup
pub mod Valid
pub mod Every
pub mod Steps
pub mod Answer
pub mod Turns
pub mod EndToEnd
pub mod Renewed
pub mod CutOff
pub mod Stopping
pub mod Races
pub mod Saving
pub mod Durable
pub mod Overwritten
pub mod View
pub mod Buttons
pub mod Rows
pub mod Owners
pub mod Private
pub mod Notebook
pub mod Order
pub mod Kept
pub mod Refines
pub mod Asks
pub mod Requests
use axiom_ai.Common.{
  ℕ, zero, suc, ◌+◌, Bool, true, false, not, ◌&&◌, ◌||◌, Option, none, some, List, [], ◌∷◌, ◌++◌,
  map, find, take, get_elem?, length, if◌then◌else◌, Text, codes, text_eq, text_truthy, trim,
  is_some,
}
use axiom_ai.Json.{Json}
use axiom_ai.Types.{Role, user, assistant, Message, Conversation}
use axiom_ai.Conversations.{
  create_conversation, title_from_message, has_id, upsert_conversation, delete_conversation,
  sort_by_recent,
}
use axiom_ai.Stream.{Call, on_token, on_sources, on_done, on_error}

-- `abort_ref` names the run whose controller `abortRef` holds, `aborted` those that were aborted.
pub record Chat : Type 0 where
  pub user_id : Text
  pub conversations : List Conversation
  pub active_id : Option Text
  pub input : Text
  pub is_streaming : Bool
  pub is_sidebar_open : Bool
  pub documents_version : ℕ
  pub abort_ref : Option Text
  pub aborted : List Text

-- The first render, before the effects.
unfoldable pub start : Text → Chat
start user_id = record {
  user_id = user_id;
  conversations = [];
  active_id = none;
  input = [];
  is_streaming = false;
  is_sidebar_open = false;
  documents_version = 0;
  abort_ref = none;
  aborted = [];
}

-- What the callbacks of one call of `runQuery` close over; a run is named by its assistant message.
pub record Run : Type 0 where
  pub conversation_id : Text
  pub assistant_id : Text
  pub query : Text
  pub history : List (Role × Text)

-- The ids and times that one call of `runQuery` draws.
pub record Fresh : Type 0 where
  pub user_message_id : Text
  pub assistant_message_id : Text
  pub user_time : ℕ
  pub assistant_time : ℕ
  pub update_time : ℕ

abbrev pub adopt_list : List Conversation → Conversation → Chat → Chat
adopt_list [] fresh s = record s { conversations = fresh ∷ []; active_id = some fresh.id }
adopt_list (c ∷ cs) fresh s = record s { conversations = c ∷ cs; active_id = some c.id }

-- The effect on `userId`: `stored` is what `loadConversations` gives, and `id` and `now` serve the
-- conversation that is made where nothing is stored.
unfoldable pub switch_user : Text → List Conversation → Text → ℕ → Chat → Chat
unfolding create_conversation
switch_user user_id stored id now s =
    adopt_list (sort_by_recent stored) (create_conversation id now) (record s { user_id = user_id })

unfoldable pub active_conversation : Chat → Option Conversation
unfolding find text_eq
active_conversation s = elim s.active_id [
  | none ↦ none
  | some id ↦ find (has_id id) s.conversations
]

abbrev pub messages_of : Option Conversation → List Message
messages_of none = []
messages_of (some c) = c.messages

unfoldable pub messages : Chat → List Message
unfolding active_conversation
messages s = messages_of (active_conversation s)

unfoldable pub handle_new_chat : Text → ℕ → Chat → Chat
unfolding create_conversation
handle_new_chat id now s = record s {
  conversations = create_conversation id now ∷ s.conversations;
  active_id = some id;
  is_sidebar_open = false;
}

unfoldable pub handle_select : Text → Chat → Chat
handle_select id s = record s { active_id = some id; is_sidebar_open = false }

abbrev is_active : Text → Option Text → Bool
is_active id none = false
is_active id (some a) = text_eq id a

abbrev after_delete : Text → List Conversation → Conversation → Chat → Chat
after_delete id [] fresh s = record s { conversations = fresh ∷ []; active_id = some fresh.id }
after_delete id (c ∷ cs) fresh s = record s {
  conversations = c ∷ cs;
  active_id = if is_active id s.active_id then some c.id else s.active_id;
}

unfoldable pub handle_delete : Text → Text → ℕ → Chat → Chat
unfolding create_conversation text_eq
handle_delete id fresh_id now s =
    after_delete id (delete_conversation s.conversations id) (create_conversation fresh_id now) s

-- `setConversations((prev) => …)` of `runQuery` and `patchAssistant`: a conversation that is gone
-- is left alone.
unfoldable pub update_conversation :
    Text → (Conversation → Conversation) → List Conversation → List Conversation
unfolding find text_eq
update_conversation id change prev = elim (find (has_id id) prev) [
  | none ↦ prev
  | some conversation ↦ upsert_conversation prev (change conversation)
]

abbrev is_empty {ℓ} : {A : Type ℓ} → List A → Bool
is_empty [] = true
is_empty (_ ∷ _) = false

abbrev pub user_message : Text → Fresh → Message
user_message query f = record {
  id = f.user_message_id;
  role = user;
  content = query;
  citations = none;
  created_at = f.user_time;
  is_error = false;
}

abbrev pub assistant_message : Fresh → Message
assistant_message f = record {
  id = f.assistant_message_id;
  role = assistant;
  content = [];
  citations = none;
  created_at = f.assistant_time;
  is_error = false;
}

-- The conversation with the question and the empty answer behind the base messages.
unfoldable pub ask : Text → List Message → Fresh → Conversation → Conversation
ask query base f c = record c {
  title = if is_empty base then title_from_message query else c.title;
  messages = base ++ user_message query f ∷ assistant_message f ∷ [];
  updated_at = f.update_time;
}

abbrev pub history_of : List Message → List (Role × Text)
history_of = map (λ m. (m.role, m.content))

-- `runQuery` up to its `await`: the new state, and the run that `streamChat` is started for.
pub start_run : Text → List Message → Fresh → Option Conversation → Chat → Chat × Option Run
unfolding ask update_conversation
start_run query base f none s = (s, none)
start_run query base f (some c) s = (
  record s {
    conversations = update_conversation c.id (ask query base f) s.conversations;
    input = [];
    is_streaming = true;
    abort_ref = some f.assistant_message_id;
  },
  some (record {
    conversation_id = c.id;
    assistant_id = f.assistant_message_id;
    query = query;
    history = history_of base;
  }),
)

unfoldable pub run_query : Text → List Message → Fresh → Chat → Chat × Option Run
unfolding start_run trim active_conversation
run_query query base f s =
    if not (text_truthy (trim query)) || s.is_streaming
    then (s, none)
    else start_run query base f (active_conversation s) s

unfoldable pub patch_assistant : Run → (Message → Message) → Chat → Chat
unfolding update_conversation
patch_assistant run updater s = record s {
  conversations =
      update_conversation run.conversation_id
        (λ c. record c {
          messages = map (λ m. if text_eq m.id run.assistant_id then updater m else m) c.messages;
        })
        s.conversations;
}

-- What a call makes of the assistant's message.
unfoldable pub amend : (Json → Text) → Call → Message → Message
amend coerce (on_token v) m = record m { content = m.content ++ coerce v }
amend coerce (on_sources v) m = record m { citations = some v }
amend coerce on_done m = m
amend coerce (on_error v) m = record m {
  content = if text_truthy m.content then m.content else coerce v;
  is_error = true;
}

-- The four callbacks of `runQuery`.
unfoldable pub handle_call : (Json → Text) → Run → Call → Chat → Chat
unfolding patch_assistant amend
handle_call coerce run (on_token v) s = patch_assistant run (amend coerce (on_token v)) s
handle_call coerce run (on_sources v) s = patch_assistant run (amend coerce (on_sources v)) s
handle_call coerce run on_done s = record s { is_streaming = false }
handle_call coerce run (on_error v) s = record (patch_assistant run (amend coerce (on_error v)) s) {
  is_streaming = false;
}

-- What stands behind the `await`.
unfoldable pub finish : Chat → Chat
finish s = record s { is_streaming = false }

unfoldable pub send : Text → Fresh → Chat → Chat × Option Run
unfolding run_query messages
send query f s = run_query query (messages s) f s

unfoldable pub handle_submit : Fresh → Chat → Chat × Option Run
handle_submit f s = send s.input f s

-- Enter sends, and Shift+Enter is left to the text area.
unfoldable pub handle_key_down : Text → Bool → Fresh → Chat → Chat × Option Run
unfolding text_eq
handle_key_down key shift f s =
    if text_eq key (codes "Enter") && not shift then send s.input f s else (s, none)

abbrev abort_in : Option Text → List Text → List Text
abort_in none aborted = aborted
abort_in (some run) aborted = run ∷ aborted

unfoldable pub handle_stop : Chat → Chat
handle_stop s = record s { aborted = abort_in s.abort_ref s.aborted; is_streaming = false }

abbrev pub is_user : Role → Bool
is_user user = true
is_user assistant = false

-- `lastIndexOf("user")` on the roles, -1 as `none`.
unfoldable pub last_user_index : List Message → Option ℕ
last_user_index [] = none
last_user_index (m ∷ ms) = elim (last_user_index ms) [
  | some i ↦ some (suc i)
  | none ↦ if is_user m.role then some 0 else none
]

unfoldable pub handle_regenerate : Fresh → Chat → Chat × Option Run
unfolding run_query messages last_user_index
handle_regenerate f s = elim (last_user_index (messages s)) [
  | none ↦ (s, none)
  | some i ↦ elim (get_elem? (messages s) i) [
    | none ↦ (s, none)
    | some m ↦ run_query m.content (take i (messages s)) f s
  ]
]

unfoldable pub set_input : Text → Chat → Chat
set_input text s = record s { input = text }

unfoldable pub set_sidebar : Bool → Chat → Chat
set_sidebar shown s = record s { is_sidebar_open = shown }

unfoldable pub documents_changed : Chat → Chat
documents_changed s = record s { documents_version = s.documents_version + 1 }
