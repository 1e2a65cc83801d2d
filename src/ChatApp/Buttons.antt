-- ===== src/ChatApp/Buttons.antt =====
-- The buttons of the composer and their handlers.
use axiom_ai.Common.{
  true, false, not, ◌||◌, Option, none, some, List, [], ◌∷◌, ◌++◌, All, take, get_elem?, length,
  is_some, Text, text_truthy, trim, ◌≡◌, ◌⊎◌, refl, inl, inr, arith, ap, sym, ◌∙◌, Bool-cases,
  Option-cases,
}
use axiom_ai.Types.{user, Message, Conversation, User}
use axiom_ai.Conversations.Lists.{lookup}
use axiom_ai.ChatApp.{
  Chat, Run, Fresh, active_conversation, messages, start_run, run_query, send, handle_submit,
  handle_regenerate, last_user_index, is_user,
}
use axiom_ai.ChatApp.Lookup.{has-lookup}
use axiom_ai.ChatApp.Valid.{IsValid}
use axiom_ai.ChatApp.Answer.{run_of, run_query-start_run}
use axiom_ai.ChatApp.View.{view}

-- A valid chat shows a conversation.
pub IsValid-active : (s : Chat) → IsValid s → (c : Conversation) × (active_conversation s ≡ some c)
unfolding active_conversation
IsValid-active s v = elim (Option-cases (lookup v.open_id s.conversations)) [
  | inl gone ↦
      (let absent = sym v.listed ∙ has-lookup v.open_id s.conversations ∙ ap is_some gone in cc)
  | inr (c, there) ↦ (c, rw (v.active, active_conversation) there)
]

-- The question is taken: its run is started, the composer is empty, and the answer streams.
abbrev pub IsStarted : Run → Chat × Option Run → Type 0
IsStarted run (t, o) = (o ≡ some run) × (t.input ≡ []) × (t.is_streaming ≡ true)

submitted :
    (f : Fresh) (s : Chat) (c : Conversation)
    → active_conversation s ≡ some c
    → text_truthy (trim s.input) ≡ true
    → s.is_streaming ≡ false
    → IsStarted (run_of s.input (messages s) f c) (handle_submit f s)
unfolding handle_submit send start_run
submitted f s c shown asks idle =
    rw (run_query-start_run s.input (messages s) f s c shown asks idle) (refl, refl, refl)

refused :
    (f : Fresh) (s : Chat)
    → (not (text_truthy (trim s.input)) || s.is_streaming) ≡ true
    → handle_submit f s ≡ (s, none)
unfolding handle_submit send run_query
refused f s e = rw (e, run_query) refl

pub last_user_index-none :
    (ms : List Message) → All (λ m. is_user m.role ≡ false) ms → last_user_index ms ≡ none
unfolding last_user_index
last_user_index-none [] h = refl
last_user_index-none (m ∷ ms) h = rw (last_user_index-none ms h.1, last_user_index) (rw h.0 refl)

module _ (q : Message) (after : List Message) (asked : q.role ≡ user)
    (none_later : All (λ m. is_user m.role ≡ false) after) where
  last_user_index-append :
      (before : List Message) → last_user_index (before ++ q ∷ after) ≡ some (length before)
  unfolding last_user_index
  last_user_index-append [] =
      rw (last_user_index-none after none_later, last_user_index) (rw asked refl)
  last_user_index-append (m ∷ before) = rw (last_user_index-append before, last_user_index) refl

get_elem?-append :
    (before : List Message) (q : Message) (after : List Message)
    → get_elem? (before ++ q ∷ after) (length before) ≡ some q
get_elem?-append [] q after = refl
get_elem?-append (m ∷ before) q after = get_elem?-append before q after

take-append :
    (before : List Message) (rest : List Message) → take (length before) (before ++ rest) ≡ before
take-append [] rest = refl
take-append (m ∷ before) rest = ap (m ∷◌) (take-append before rest)

pub handle_regenerate-last :
    (f : Fresh) (s : Chat) (before : List Message) (q : Message) (after : List Message)
    → messages s ≡ before ++ q ∷ after
    → q.role ≡ user
    → All (λ m. is_user m.role ≡ false) after
    → handle_regenerate f s ≡ run_query q.content before f s
unfolding handle_regenerate
handle_regenerate-last f s before q after e asked later =
    let index = ap last_user_index e ∙ last_user_index-append q after asked later before in
    let found = ap (λ ms. get_elem? ms (length before)) e ∙ get_elem?-append before q after in
    rw (index, handle_regenerate)
      (rw found (
        ap (λ (b : List Message). run_query q.content b f s)
          (ap (take (length before)) e ∙ take-append before (q ∷ after))))

module _ (upper : Text → Text) (u : Option User) where
  -- In a valid chat the send button is disabled exactly where submitting does nothing; where it is
  -- enabled, submitting starts the run of the text in the composer, empties the composer, and the
  -- stop button takes its place.
  pub send_disabled-handle_submit :
      (f : Fresh) (s : Chat)
      → IsValid s
      → (((view upper u s).send_disabled ≡ true) × (handle_submit f s ≡ (s, none)))
        ⊎ (((view upper u s).send_disabled ≡ false)
            × ((c : Conversation) × (active_conversation s ≡ some c)
                × IsStarted (run_of s.input (messages s) f c) (handle_submit f s))
            × ((view upper u (handle_submit f s).0).stop_button ≡ true))
  unfolding view
  send_disabled-handle_submit f s v = elim (Bool-cases s.is_streaming) [
    | inl busy ↦ inl (rw busy refl, refused f s (rw busy (ground arith)))
    | inr idle ↦ elim (Bool-cases (text_truthy (trim s.input))) [
      | inl asks ↦
          let (c, shown) = IsValid-active s v in
          let started = submitted f s c shown asks idle in
          inr (rw (idle, asks) refl, (c, shown, started), started.2)
      | inr blank ↦ inl (rw (idle, blank) refl, refused f s (rw blank refl))
    ]
  ]
