-- ===== src/Examples/Contracts.antt =====
-- Examples for what the chat promises: its notebook, and the requests that it sends.
use axiom_ai.Common.{codes, text_eq, trim, find, any, ◌≡◌, refl, inl, true}
use axiom_ai.Json.{Json, arr, nil}
use axiom_ai.Auth.{text_body}
use axiom_ai.Api.{chat_request}
use axiom_ai.Conversations.Lists.{has}
use axiom_ai.ChatApp.{set_input, handle_submit, handle_stop, send, messages, Chat}
use axiom_ai.ChatApp.Steps.{Reach, IsSound, typed, submitted, stopped, created, deleted, here, next}
use axiom_ai.ChatApp.Kept.{Reach-has}
use axiom_ai.Conversations.{delete_conversation}
use axiom_ai.ChatApp.{handle_delete, handle_new_chat}
use axiom_ai.Common.{filter}
use axiom_ai.ChatApp.Answer.{run_of}
use axiom_ai.ChatApp.Notebook.{notebook, actions, Moves}
use axiom_ai.ChatApp.Refines.{Reach-Moves}
use axiom_ai.ChatApp.Requests.{IsChatRequest, asked-IsChatRequest}
use axiom_ai.Examples.Fixtures.{as_string, constant_codec, chat, talk, fresh}

chat-IsSound : IsSound chat
unfolding text_eq has any
chat-IsSound = record {
  valid = record {
    open_id = codes "c1";
    active = refl;
    listed = refl;
    distinct = ((refl, tt), (tt, tt));
  };
  turns = ((refl, refl, tt), (tt, tt));
}

abbrev asking_chat : Chat
asking_chat = set_input (codes "why?") chat

abbrev asked_and_stopped : Reach as_string chat (handle_stop (handle_submit fresh asking_chat).0)
asked_and_stopped =
    next (next (next here (typed chat (codes "why?"))) (submitted asking_chat fresh))
      (stopped (handle_submit fresh asking_chat).0)

Reach-Moves_example :
    Moves as_string
      (actions as_string asked_and_stopped)
      (notebook chat)
      (notebook (handle_stop (handle_submit fresh asking_chat).0))
Reach-Moves_example = Reach-Moves as_string chat-IsSound asked_and_stopped

asked-IsChatRequest_example :
    (v : Json) × ((chat_request
        (codes "http://x")
        (constant_codec (arr nil))
        (codes "and then?")
        (run_of (codes "and then?") (messages chat) fresh talk).history).body
      ≡ text_body (codes "x"))
    × IsChatRequest v
unfolding text_eq find trim send
asked-IsChatRequest_example =
    asked-IsChatRequest (codes "http://x") (constant_codec (arr nil)) chat (codes "and then?") fresh
      (run_of (codes "and then?") (messages chat) fresh talk) chat-IsSound (inl refl)

-- The second talk is deleted and a new one begun.
abbrev without_second : Chat
without_second = handle_delete (codes "c2") (codes "c7") 30 chat

Reach-has_example :
    has (codes "c1") (handle_new_chat (codes "c8") 31 without_second).conversations ≡ true
unfolding text_eq has any filter handle_delete delete_conversation
Reach-has_example =
    Reach-has as_string (codes "c1")
      (next (next here (deleted chat (codes "c2") (codes "c7") 30))
        (created without_second (codes "c8") 31 refl))
      ((tt, refl), tt) refl
