-- ===== src/ChatApp/Turns.antt =====
-- A conversation is a sequence of turns, a question and its answer: no event breaks one up.
use axiom_ai.Common.{
  ℕ, suc, Bool, true, false, ◌||◌, not, Option, none, some, List, [], ◌∷◌, ◌++◌, map, All, take,
  or_else, map_option, get_elem?, if◌then◌else◌, Text, text_eq, text_truthy, trim, ◌≡◌, refl, arith,
  Bool-cases, Option-cases, inl, inr,
}
use axiom_ai.Json.{Json}
use axiom_ai.Types.{user, assistant, Message, Conversation}
use axiom_ai.Conversations.Lists.{lookup}
use axiom_ai.Stream.{Call, on_token, on_sources, on_done, on_error}
use axiom_ai.ChatApp.{
  Chat, Run, Fresh, user_message, assistant_message, active_conversation, messages, ask, start_run,
  run_query, patch_assistant, amend, handle_call, last_user_index, handle_regenerate, messages_of,
}
use axiom_ai.ChatApp.Every.{All-lookup, All-update_conversation}

abbrev pub IsTurns : List Message → Type 0
IsTurns [] = Unit
IsTurns (q ∷ []) = ⊥
IsTurns (q ∷ a ∷ ms) = (q.role ≡ user) × (a.role ≡ assistant) × IsTurns ms

abbrev pub HasTurns : Conversation → Type 0
HasTurns c = IsTurns c.messages

IsTurns-append : (ms ns : List Message) → IsTurns ms → IsTurns ns → IsTurns (ms ++ ns)
IsTurns-append [] ns h k = k
IsTurns-append (q ∷ []) ns h k = absurd h
IsTurns-append (q ∷ a ∷ ms) ns h k = (h.0, h.1, IsTurns-append ms ns h.2 k)

-- A question and its empty answer.
pub IsTurns-ask :
    (query : Text) (base : List Message) (f : Fresh) (c : Conversation)
    → IsTurns base
    → HasTurns (ask query base f c)
unfolding ask
IsTurns-ask query base f c h =
    IsTurns-append base (user_message query f ∷ assistant_message f ∷ []) h (refl, refl, tt)

IsTurns-map :
    (g : Message → Message) (ms : List Message)
    → ((m : Message) → (g m).role ≡ m.role)
    → IsTurns ms
    → IsTurns (map g ms)
IsTurns-map g [] same h = tt
IsTurns-map g (q ∷ []) same h = h
IsTurns-map g (q ∷ a ∷ ms) same h = (rw (same q) h.0, rw (same a) h.1, IsTurns-map g ms same h.2)

amend-role :
    (coerce : Json → Text) (call : Call) (m : Message) → (amend coerce call m).role ≡ m.role
unfolding amend
amend-role coerce (on_token v) m = refl
amend-role coerce (on_sources v) m = refl
amend-role coerce on_done m = refl
amend-role coerce (on_error v) m = refl

pub patch_assistant-turns :
    (run : Run) (g : Message → Message) (s : Chat)
    → ((m : Message) → (g m).role ≡ m.role)
    → All HasTurns s.conversations
    → All HasTurns (patch_assistant run g s).conversations
unfolding patch_assistant
patch_assistant-turns run g s same h =
    All-update_conversation HasTurns run.conversation_id _ s.conversations
      (λ c turns. IsTurns-map _ c.messages (λ m. kept m (text_eq m.id run.assistant_id)) turns) h
  where
    kept : (m : Message) (b : Bool) → (if b then g m else m).role ≡ m.role
    kept m true = same m
    kept m false = refl

-- No call of a stream breaks up a turn.
pub handle_call-turns :
    (coerce : Json → Text) (run : Run) (call : Call) (s : Chat)
    → All HasTurns s.conversations
    → All HasTurns (handle_call coerce run call s).conversations
unfolding handle_call
handle_call-turns coerce run (on_token v) s h =
    patch_assistant-turns run _ s (amend-role coerce (on_token v)) h
handle_call-turns coerce run (on_sources v) s h =
    patch_assistant-turns run _ s (amend-role coerce (on_sources v)) h
handle_call-turns coerce run on_done s h = h
handle_call-turns coerce run (on_error v) s h =
    patch_assistant-turns run _ s (amend-role coerce (on_error v)) h

pub run_query-turns :
    (query : Text) (base : List Message) (f : Fresh) (s : Chat)
    → IsTurns base
    → All HasTurns s.conversations
    → All HasTurns (run_query query base f s).0.conversations
unfolding run_query
run_query-turns query base f s turns h =
    elim (Bool-cases (not (text_truthy (trim query)) || s.is_streaming)) [
      | inl refused ↦ rw (refused, run_query) h
      | inr accepted ↦ rw (accepted, run_query) (started (active_conversation s))
    ]
  where
    started : (o : Option Conversation) → All HasTurns (start_run query base f o s).0.conversations
    started none = h
    started (some c) =
        All-update_conversation HasTurns c.id (ask query base f) s.conversations
          (λ d _. IsTurns-ask query base f d turns) h

-- The conversation on the screen is a listed one.
pub active-listed :
    (s : Chat) (c : Conversation)
    → active_conversation s ≡ some c
    → (a : Text) × (s.active_id ≡ some a) × (lookup a s.conversations ≡ some c)
unfolding active_conversation
active-listed s c h = elim (Option-cases s.active_id) [
  | inl closed ↦ let nothing = rw (closed, active_conversation) at h in cc
  | inr (a, e) ↦ (a, e, rw (e, active_conversation) at h)
]

-- The messages on the screen are turns.
pub messages-IsTurns : (s : Chat) → All HasTurns s.conversations → IsTurns (messages s)
unfolding messages
messages-IsTurns s h = shown (active_conversation s) refl
  where
    shown : (o : Option Conversation) → active_conversation s ≡ o → IsTurns (messages_of o)
    shown none e = tt
    shown (some c) e =
        let (a, _, there) = active-listed s c e in All-lookup HasTurns a s.conversations c h there

last_user_index-turn :
    (q a : Message) (ms : List Message)
    → q.role ≡ user
    → a.role ≡ assistant
    → last_user_index (q ∷ a ∷ ms)
      ≡ some (or_else (map_option (λ j. suc (suc j)) (last_user_index ms)) 0)
unfolding last_user_index
last_user_index-turn q a ms h k = ground arith

-- What stands before the last question is turns again.
pub take-last_user_index :
    (ms : List Message) (i : ℕ) → IsTurns ms → last_user_index ms ≡ some i → IsTurns (take i ms)
take-last_user_index [] i h e = unfold last_user_index in cc
take-last_user_index (q ∷ []) i h e = absurd h
take-last_user_index (q ∷ a ∷ ms) i h e = elim (Option-cases (last_user_index ms)) [
  | inl only ↦
      let at_start : i ≡ 0 = first (last_user_index-turn q a ms h.0 h.1) only in rw at_start tt
  | inr (j, found) ↦
      let at_turn : i ≡ suc (suc j) = later (last_user_index-turn q a ms h.0 h.1) found in
      rw at_turn (h.0, h.1, take-last_user_index ms j h.2 found)
]
  where
    first :
        last_user_index (q ∷ a ∷ ms)
          ≡ some (or_else (map_option (λ j. suc (suc j)) (last_user_index ms)) 0)
        → last_user_index ms ≡ none
        → i ≡ 0
    first turn only = let here = rw only at turn in cc

    later :
        last_user_index (q ∷ a ∷ ms)
          ≡ some (or_else (map_option (λ j. suc (suc j)) (last_user_index ms)) 0)
        → {j : ℕ} → last_user_index ms ≡ some j
        → i ≡ suc (suc j)
    later turn found = let here = rw found at turn in cc

-- Asking again keeps the turns before the last question.
pub handle_regenerate-turns :
    (f : Fresh) (s : Chat)
    → All HasTurns s.conversations
    → All HasTurns (handle_regenerate f s).0.conversations
unfolding handle_regenerate
handle_regenerate-turns f s h = elim (Option-cases (last_user_index (messages s))) [
  | inl none_asked ↦ rw (none_asked, handle_regenerate) h
  | inr (i, found) ↦ elim (Option-cases (get_elem? (messages s) i)) [
    | inl missing ↦ rw (found, handle_regenerate) (rw missing h)
    | inr (m, there) ↦
        rw (found, handle_regenerate)
          (rw there (
            run_query-turns m.content (take i (messages s)) f s
              (take-last_user_index (messages s) i (messages-IsTurns s h) found) h))
  ]
]
