-- ===== src/ChatApp/Answer.antt =====
-- From the question to the answer on the screen.
use axiom_ai.Common.{
  Bool, true, false, not, ◌||◌, Option, none, some, List, [], ◌∷◌, ◌++◌, map, All, map_option,
  if◌then◌else◌, Text, text_eq, text_eq_iff, text_eq_refl, text_truthy, trim, ◌≡◌, refl, arith, ap,
  ◌∙◌,
}
use axiom_ai.Json.{Json}
use axiom_ai.Types.{Message, Conversation}
use axiom_ai.Conversations.Lists.{lookup}
use axiom_ai.Stream.{Call, on_token, on_sources, on_done, on_error}
use axiom_ai.ChatApp.{
  Chat, Run, Fresh, user_message, assistant_message, active_conversation, ask, history_of,
  start_run, run_query, patch_assistant, amend, handle_call,
}
use axiom_ai.ChatApp.Lookup.{lookup-update_conversation, id_of_lookup}
use axiom_ai.ChatApp.Turns.{active-listed}

-- The conversation with its run's answer amended.
abbrev pub patched : Run → (Message → Message) → Conversation → Conversation
patched run g c = record c {
  messages = map (λ m. if text_eq m.id run.assistant_id then g m else m) c.messages;
}

map-same : (p : Message → Bool) (ms : List Message) → map (λ m. if p m then m else m) ms ≡ ms
map-same p [] = refl
map-same p (m ∷ ms) = ground (arith, map-same p ms)

lookup-patch_assistant :
    (run : Run) (g : Message → Message) (s : Chat) (j : Text)
    → lookup j (patch_assistant run g s).conversations ≡ (
        if text_eq run.conversation_id j
        then map_option (patched run g) (lookup run.conversation_id s.conversations)
        else lookup j s.conversations)
unfolding patch_assistant
lookup-patch_assistant run g s j =
    lookup-update_conversation run.conversation_id (patched run g) (λ c. refl) s.conversations j

patched_same :
    (coerce : Json → Text) (run : Run) (o : Option Conversation)
    → map_option (patched run (amend coerce on_done)) o ≡ o
unfolding amend
patched_same coerce run none = refl
patched_same coerce run (some c) =
    ap (λ ms. some (record c { messages = ms }))
      (map-same (λ m. text_eq m.id run.assistant_id) c.messages)

-- The run that a question starts.
abbrev pub run_of : Text → List Message → Fresh → Conversation → Run
run_of query base f c = record {
  conversation_id = c.id;
  assistant_id = f.assistant_message_id;
  query = query;
  history = history_of base;
}

pub run_query-start_run :
    (query : Text) (base : List Message) (f : Fresh) (s : Chat) (c : Conversation)
    → active_conversation s ≡ some c
    → text_truthy (trim query) ≡ true
    → s.is_streaming ≡ false
    → run_query query base f s ≡ start_run query base f (some c) s
unfolding run_query
run_query-start_run query base f s c shown asks idle =
    let accepted : (not (text_truthy (trim query)) || s.is_streaming) ≡ false = ground arith in
    rw (accepted, run_query) (ap (λ o. start_run query base f o s) shown)

pub lookup-active :
    (s : Chat) (c : Conversation)
    → active_conversation s ≡ some c
    → lookup c.id s.conversations ≡ some c
lookup-active s c shown =
    let (a, _, there) = active-listed s c shown in
    ap (λ i. lookup i s.conversations) (id_of_lookup a s.conversations c there) ∙ there

pub lookup-start_run :
    (query : Text) (base : List Message) (f : Fresh) (s : Chat) (c : Conversation)
    → active_conversation s ≡ some c
    → lookup c.id (start_run query base f (some c) s).0.conversations ≡ some (ask query base f c)
unfolding start_run ask
lookup-start_run query base f s c shown =
    lookup-update_conversation c.id (ask query base f) (λ d. refl) s.conversations c.id
    ∙ rw (text_eq_refl c.id, lookup-active s c shown) refl

module _ (coerce : Json → Text) where
  -- A call of a stream amends the answer of its own run, where its conversation is still there, and
  -- no other conversation.
  pub lookup-handle_call :
      (run : Run) (call : Call) (s : Chat) (j : Text)
      → lookup j (handle_call coerce run call s).conversations ≡ (
          if text_eq run.conversation_id j
          then map_option
              (patched run (amend coerce call))
              (lookup run.conversation_id s.conversations)
          else lookup j s.conversations)
  unfolding handle_call
  lookup-handle_call run (on_token v) s j = lookup-patch_assistant run _ s j
  lookup-handle_call run (on_sources v) s j = lookup-patch_assistant run _ s j
  lookup-handle_call run on_done s j =
      rw (patched_same coerce run (lookup run.conversation_id s.conversations))
        (ground (arith, text_eq_iff run.conversation_id j))
  lookup-handle_call run (on_error v) s j = lookup-patch_assistant run _ s j

  -- The calls of one stream, one after the other.
  unfoldable pub handle_calls : Run → List Call → Chat → Chat
  handle_calls run [] s = s
  handle_calls run (call ∷ more) s = handle_calls run more (handle_call coerce run call s)

  unfoldable pub answered : List Call → Message → Message
  answered [] m = m
  answered (call ∷ more) m = answered more (amend coerce call m)

  amend-id : (call : Call) (m : Message) → (amend coerce call m).id ≡ m.id
  unfolding amend
  amend-id (on_token v) m = refl
  amend-id (on_sources v) m = refl
  amend-id on_done m = refl
  amend-id (on_error v) m = refl

  -- The messages before the answer are not the run's.
  abbrev Others : Run → List Message → Type 0
  Others run = All (λ m. text_eq m.id run.assistant_id ≡ false)

  map-Others :
      (run : Run) (g : Message → Message) (base : List Message) (q m : Message)
      → Others run base
      → text_eq q.id run.assistant_id ≡ false
      → m.id ≡ run.assistant_id
      → map (λ n. if text_eq n.id run.assistant_id then g n else n) (base ++ q ∷ m ∷ [])
        ≡ base ++ q ∷ g m ∷ []
  map-Others run g [] q m h k e = rw (k, e, text_eq_refl run.assistant_id)
  map-Others run g (n ∷ base) q m h k e = rw h.0 (ap (n ∷◌) (map-Others run g base q m h.1 k e))

  lookup-handle_calls :
      (run : Run) (base : List Message) (q : Message)
      → Others run base
      → text_eq q.id run.assistant_id ≡ false
      → (calls : List Call) (m : Message) (c : Conversation) (s : Chat) → m.id ≡ run.assistant_id
      → lookup run.conversation_id s.conversations
        ≡ some (record c { messages = base ++ q ∷ m ∷ [] })
      → lookup run.conversation_id (handle_calls run calls s).conversations
        ≡ some (record c { messages = base ++ q ∷ answered calls m ∷ [] })
  unfolding handle_calls answered
  lookup-handle_calls run base q h k [] m c s e there = there
  lookup-handle_calls run base q h k (call ∷ more) m c s e there =
      lookup-handle_calls run base q h k more (amend coerce call m) c
        (handle_call coerce run call s) (amend-id call m ∙ e)
        (lookup-handle_call run call s run.conversation_id
          ∙ rw (text_eq_refl run.conversation_id, there)
              (ap (λ ms. some (record c { messages = ms }))
                (map-Others run (amend coerce call) base q m h k e)))

  -- The question is accepted, and its stream has made these calls: the conversation that was open
  -- holds the base messages, the question, and an answer amended by the calls, in this order.
  pub run_query-answered :
      (query : Text) (base : List Message) (f : Fresh) (s : Chat) (c : Conversation)
      (calls : List Call)
      → active_conversation s ≡ some c
      → text_truthy (trim query) ≡ true
      → s.is_streaming ≡ false
      → All (λ m. text_eq m.id f.assistant_message_id ≡ false) base
      → text_eq f.user_message_id f.assistant_message_id ≡ false
      → ((run_query query base f s).1 ≡ some (run_of query base f c))
        × (lookup c.id
              (handle_calls
                (run_of query base f c)
                calls
                (run_query query base f s).0).conversations
            ≡ some (record (ask query base f c) {
              messages = base ++ user_message query f ∷ answered calls (assistant_message f) ∷ [];
            }))
  unfolding start_run ask
  run_query-answered query base f s c calls shown asks idle others own =
      let started = run_query-start_run query base f s c shown asks idle in
      let run = run_of query base f c in
      let asked = lookup-start_run query base f s c shown in
      rw started (
        refl,
        lookup-handle_calls run base (user_message query f) others own calls (assistant_message f)
            (ask query base f c) (start_run query base f (some c) s).0 refl asked,
      )
