-- ===== src/ChatApp/EndToEnd.antt =====
-- From the bytes of the server's answer to the message on the screen.
use mathlib.Core.List.{flatten}
use axiom_ai.Common.{
  ℕ, true, false, Option, some, List, [], ◌∷◌, ◌++◌, All, if◌then◌else◌, Text, text_eq, text_truthy,
  trim, ◌≡◌, refl, arith, ap, sym, ◌∙◌, append_assoc, append-nil,
}
use axiom_ai.Json.{Json, str, arr, nil, JsonCodec}
use axiom_ai.Types.{Message, Conversation}
use axiom_ai.Conversations.Lists.{lookup}
use axiom_ai.Stream.{Call, stream_chat, nullish}
use axiom_ai.Stream.Chunks.{IsStreaming, answer}
use axiom_ai.Stream.Replay.{
  Event, token, sources, finished, failure, IsPrinted, wire, all_made, made, stream_chat-wire,
}
use axiom_ai.ChatApp.{
  Chat, Fresh, user_message, assistant_message, active_conversation, messages, ask, amend, finish,
  send,
}
use axiom_ai.ChatApp.Answer.{answered, handle_calls, run_of, run_query-answered}

-- What `event_stream` of the server sends for an answer, and where it fails on the way.
unfoldable pub good_answer : List Text → Json → List Event
good_answer [] v = sources v ∷ finished ∷ []
good_answer (t ∷ ts) v = token t ∷ good_answer ts v

unfoldable pub failed_answer : List Text → Text → List Event
failed_answer [] reason = failure reason ∷ []
failed_answer (t ∷ ts) reason = token t ∷ failed_answer ts reason

-- The answer with all its text and its sources.
abbrev pub complete : Message → Text → Json → Message
complete m text v = record m { content = text; citations = some (nullish (some v) (arr nil)) }

-- The token texts, or the reason of the failure where no token came before it.
abbrev pub broken : Message → Text → Text → Message
broken m text reason = record m {
  content = if text_truthy text then text else reason;
  is_error = true;
}

-- What the screen shows once the stream of a question has ended.
abbrev pub after_answer :
    {D : Type 0}
    → (Json → Text)
    → JsonCodec
    → (D → List ℕ → D × Text)
    → Text
    → Fresh
    → Chat
    → Conversation
    → D
    → Option Json
    → List (List ℕ)
    → Chat
after_answer coerce codec decode query f s c d json bs = finish (
    handle_calls coerce (run_of query (messages s) f c)
      (stream_chat codec decode d (answer 200 json bs [])) (send query f s).0)

module _ (coerce : Json → Text) (coerce_text : (t : Text) → coerce (str t) ≡ t) where
  -- A token, the empty one too, puts its text behind the answer.
  pub answered-token :
      (t : Text) (more : List Call) (m : Message)
      → answered coerce (made (token t) ++ more) m
        ≡ answered coerce more (record m { content = m.content ++ t })
  unfolding made answered amend
  answered-token [] more m =
      ap (λ (t : Text). answered coerce more (record m { content = t }))
        (sym (append-nil m.content))
  answered-token (x ∷ t) more m =
      ap (λ (w : Text). answered coerce more (record m { content = m.content ++ w }))
        (coerce_text (x ∷ t))

  answered-good_answer :
      (ts : List Text) (v : Json) (m : Message)
      → answered coerce (all_made (good_answer ts v)) m ≡ complete m (m.content ++ flatten ts) v
  unfolding good_answer all_made flatten
  answered-good_answer [] v m =
      unfold made answered amend in ap (λ (w : Text). complete m w v) (sym (append-nil m.content))
  answered-good_answer (t ∷ ts) v m =
      answered-token t (all_made (good_answer ts v)) m
      ∙ answered-good_answer ts v (record m { content = m.content ++ t })
      ∙ ap (λ w. complete m w v) (append_assoc m.content t (flatten ts))

  answered-failed_answer :
      (ts : List Text) (reason : Text) (m : Message)
      → answered coerce (all_made (failed_answer ts reason)) m
        ≡ broken m (m.content ++ flatten ts) reason
  unfolding failed_answer all_made flatten
  answered-failed_answer [] reason m =
      unfold made answered amend in rw (append-nil m.content, coerce_text reason)
  answered-failed_answer (t ∷ ts) reason m =
      answered-token t (all_made (failed_answer ts reason)) m
      ∙ answered-failed_answer ts reason (record m { content = m.content ++ t })
      ∙ ap (λ w. broken m w reason) (append_assoc m.content t (flatten ts))

  module _ (codec : JsonCodec) (print : Event → Text) {D : Type 0} (decode : D → List ℕ → D × Text)
      (streaming : IsStreaming decode) where
    -- A question is sent in an open conversation and the server answers it: however the network
    -- cuts the bytes, the conversation ends with the question and with an answer that is all the
    -- tokens in a row, with the sources and without an error mark, and the chat no longer streams.
    pub answer_shown :
        (query : Text) (f : Fresh) (s : Chat) (c : Conversation) (d : D) (json : Option Json)
        (bs : List (List ℕ)) (ts : List Text) (v : Json)
        → active_conversation s ≡ some c
        → text_truthy (trim query) ≡ true
        → s.is_streaming ≡ false
        → All (λ m. text_eq m.id f.assistant_message_id ≡ false) (messages s)
        → text_eq f.user_message_id f.assistant_message_id ≡ false
        → (decode d (flatten bs)).1 ≡ wire print (good_answer ts v)
        → All (λ e. IsPrinted codec e (print e)) (good_answer ts v)
        → (lookup c.id (after_answer coerce codec decode query f s c d json bs).conversations
            ≡ some (record (ask query (messages s) f c) {
              messages =
                  messages s
                  ++ user_message query f ∷ complete (assistant_message f) (flatten ts) v ∷ [];
            }))
          × ((after_answer coerce codec decode query f s c d json bs).is_streaming ≡ false)
    unfolding send finish
    answer_shown query f s c d json bs ts v shown asks idle others own sent printed =
        let received =
          stream_chat-wire codec print decode streaming d 200 json bs (good_answer ts v)
            (omega arith) (omega arith) sent printed in
        let answered_all =
          run_query-answered coerce query (messages s) f s c (all_made (good_answer ts v)) shown
            asks idle others own in
        (
          rw received (
              answered_all.1
              ∙ ap
                  (λ m. some (record (ask query (messages s) f c) {
                    messages = messages s ++ user_message query f ∷ m ∷ [];
                  }))
                  (answered-good_answer ts v (assistant_message f))),
          refl,
        )

    -- The same where the server fails after some tokens, possibly none: the tokens stay, or the
    -- reason stands in their place, and the answer is marked as an error.
    pub failure_shown :
        (query : Text) (f : Fresh) (s : Chat) (c : Conversation) (d : D) (json : Option Json)
        (bs : List (List ℕ)) (ts : List Text) (reason : Text)
        → active_conversation s ≡ some c
        → text_truthy (trim query) ≡ true
        → s.is_streaming ≡ false
        → All (λ m. text_eq m.id f.assistant_message_id ≡ false) (messages s)
        → text_eq f.user_message_id f.assistant_message_id ≡ false
        → (decode d (flatten bs)).1 ≡ wire print (failed_answer ts reason)
        → All (λ e. IsPrinted codec e (print e)) (failed_answer ts reason)
        → (lookup c.id (after_answer coerce codec decode query f s c d json bs).conversations
            ≡ some (record (ask query (messages s) f c) {
              messages =
                  messages s
                  ++ user_message query f ∷ broken (assistant_message f) (flatten ts) reason ∷ [];
            }))
          × ((after_answer coerce codec decode query f s c d json bs).is_streaming ≡ false)
    unfolding send finish
    failure_shown query f s c d json bs ts reason shown asks idle others own sent printed =
        let received =
          stream_chat-wire codec print decode streaming d 200 json bs (failed_answer ts reason)
            (omega arith) (omega arith) sent printed in
        let answered_all =
          run_query-answered coerce query (messages s) f s c (all_made (failed_answer ts reason))
            shown asks idle others own in
        (
          rw received (
              answered_all.1
              ∙ ap
                  (λ m. some (record (ask query (messages s) f c) {
                    messages = messages s ++ user_message query f ∷ m ∷ [];
                  }))
                  (answered-failed_answer ts reason (assistant_message f))),
          refl,
        )
