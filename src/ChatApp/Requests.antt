-- ===== src/ChatApp/Requests.antt =====
-- What the chat asks the gateway for: the JSON of each request it starts.
use axiom_ai.Common.{
  true, not, ◌||◌, Option, none, some, List, [], ◌∷◌, map, take, get_elem?, Text, codes, text_eq,
  text_truthy, trim, ◌≡◌, ◌⊎◌, inl, inr, refl, arith, ap, sym, Bool-cases, Option-cases,
}
use axiom_ai.Json.{Json, str, arr, obj, field, end, of_items, prop, JsonCodec}
use axiom_ai.Types.{Role, user, assistant, Message, Conversation}
use axiom_ai.Types.Encode.{role_text}
use axiom_ai.Auth.{text_body}
use axiom_ai.Api.{chat_request, turn_json}
use axiom_ai.ChatApp.{
  Chat, Run, Fresh, history_of, active_conversation, messages, start_run, run_query, send,
  handle_regenerate, last_user_index,
}
use axiom_ai.ChatApp.Turns.{IsTurns, messages-IsTurns, take-last_user_index}
use axiom_ai.ChatApp.Steps.{IsSound}
use axiom_ai.ChatApp.Answer.{run_of}

-- An object with a role and a text.
pub record IsTurn (role : Text) (v : Json) : Type 0 where
  pub content : Text
  pub has_role : prop (codes "role") v ≡ some (str role)
  pub has_content : prop (codes "content") v ≡ some (str content)

-- Questions and answers in turn.
abbrev pub IsDialogue : List Json → Type 0
IsDialogue [] = Unit
IsDialogue (q ∷ []) = ⊥
IsDialogue (q ∷ a ∷ vs) = IsTurn (codes "user") q × IsTurn (codes "assistant") a × IsDialogue vs

-- What the service takes: a question that is not blank, and the dialogue before it.
pub record IsChatRequest (v : Json) : Type 0 where
  pub query : Text
  pub turns : List Json
  pub has_query : prop (codes "query") v ≡ some (str query)
  pub asks : text_truthy (trim query) ≡ true
  pub has_history : prop (codes "history") v ≡ some (arr (of_items turns))
  pub dialogue : IsDialogue turns

message-IsTurn :
    (m : Message) (r : Role) → m.role ≡ r → IsTurn (role_text r) (turn_json (m.role, m.content))
unfolding prop text_eq
message-IsTurn m r same = record {
  content = m.content;
  has_role = rw same refl;
  has_content = refl;
}

history-IsDialogue : (ms : List Message) → IsTurns ms → IsDialogue (map turn_json (history_of ms))
unfolding role_text
history-IsDialogue [] h = tt
history-IsDialogue (q ∷ []) h = absurd h
history-IsDialogue (q ∷ a ∷ ms) h =
    (message-IsTurn q user h.0, message-IsTurn a assistant h.1, history-IsDialogue ms h.2)

-- The run of a question that was accepted.
run_query-asks :
    (query : Text) (base : List Message) (f : Fresh) (s : Chat) (run : Run)
    → (run_query query base f s).1 ≡ some run
    → (text_truthy (trim query) ≡ true) × (run.query ≡ query) × (run.history ≡ history_of base)
unfolding run_query start_run
run_query-asks query base f s run e =
    elim (Bool-cases (not (text_truthy (trim query)) || s.is_streaming)) [
      | inl refused ↦ let nothing = rw (refused, run_query) at e in cc
      | inr accepted ↦
          let (same, history) = started (active_conversation s) (rw (accepted, run_query) at e) in
          (ground arith, same, history)
    ]
  where
    started :
        (o : Option Conversation)
        → (start_run query base f o s).1 ≡ some run
        → (run.query ≡ query) × (run.history ≡ history_of base)
    started none e = cc
    started (some c) e =
        let same : run_of query base f c ≡ run = cc in
        (ap (λ r. r.query) (sym same), ap (λ r. r.history) (sym same))

module _ (api_base : Text) (codec : JsonCodec) where
  abbrev Conforms : Run → Type 0
  Conforms run =
      (v : Json) × ((chat_request api_base codec run.query run.history).body
        ≡ text_body (codec.stringify v))
      × IsChatRequest v

  run_query-Conforms :
      (query : Text) (base : List Message) (f : Fresh) (s : Chat) (run : Run)
      → IsTurns base
      → (run_query query base f s).1 ≡ some run
      → Conforms run
  unfolding chat_request prop text_eq
  run_query-Conforms query base f s run turns e =
      let (asks, same, history) = run_query-asks query base f s run e in
      (
        obj (
            field (codes "query") (str query)
              (field (codes "history") (arr (of_items (map turn_json (history_of base)))) end)),
        rw (same, history) refl,
        record {
          query = query;
          turns = map turn_json (history_of base);
          has_query = refl;
          asks = asks;
          has_history = refl;
          dialogue = history-IsDialogue base turns;
        },
      )

  -- A sound chat that sends a prompt or asks again: the request has a query that is not blank, and its
  -- history is a dialogue, whose roles are the user's and the assistant's in turn, each with a
  -- text.
  pub asked-IsChatRequest :
      (s : Chat) (prompt : Text) (f : Fresh) (run : Run)
      → IsSound s
      → ((send prompt f s).1 ≡ some run) ⊎ ((handle_regenerate f s).1 ≡ some run)
      → (v : Json) × ((chat_request api_base codec run.query run.history).body
          ≡ text_body (codec.stringify v))
        × IsChatRequest v
  unfolding send handle_regenerate
  asked-IsChatRequest s prompt f run h (inl sent) =
      run_query-Conforms prompt (messages s) f s run (messages-IsTurns s h.turns) sent
  asked-IsChatRequest s prompt f run h (inr again) =
      elim (Option-cases (last_user_index (messages s))) [
        | inl none_asked ↦ let nothing = rw (none_asked, handle_regenerate) at again in cc
        | inr (i, found) ↦ elim (Option-cases (get_elem? (messages s) i)) [
          | inl missing ↦ let nothing = rw (found, missing, handle_regenerate) at again in cc
          | inr (m, there) ↦
              run_query-Conforms m.content (take i (messages s)) f s run
                (take-last_user_index (messages s) i (messages-IsTurns s h.turns) found)
                (rw (found, there, handle_regenerate) at again)
        ]
      ]
