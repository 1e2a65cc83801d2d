-- ===== src/ChatApp/CutOff.antt =====
-- An answer that is cut off.
use mathlib.Core.List.{flatten}
use axiom_ai.Common.{
  ℕ, true, false, Option, some, List, [], ◌∷◌, ◌++◌, All, map, if◌then◌else◌, Text, codes, text_eq,
  text_truthy, trim, ◌≡◌, refl, arith, ap, ◌∙◌, append_assoc, append-nil, Bool-cases, inl, inr,
}
use axiom_ai.Json.{Json, str, JsonCodec}
use axiom_ai.Types.{Message, Conversation}
use axiom_ai.Conversations.Lists.{lookup}
use axiom_ai.Stream.{Call, Read, failed, is_abort, stream_chat}
use axiom_ai.Stream.Chunks.{IsStreaming, answer}
use axiom_ai.Stream.Replay.{Event, token, IsPrinted, wire, all_made, made}
use axiom_ai.Stream.BrokenOff.{IsPartial, calls_for, stream_chat-broken_off}
use axiom_ai.ChatApp.{
  Chat, Fresh, user_message, assistant_message, active_conversation, messages, ask, amend, finish,
  send,
}
use axiom_ai.ChatApp.Answer.{answered, handle_calls, run_of, run_query-answered}
use axiom_ai.ChatApp.EndToEnd.{broken, answered-token}

abbrev pub interruption : Text
interruption = codes "Connection to Axiom Gateway was interrupted."

-- The answer with the tokens that came, and an error mark where the connection broke.
abbrev pub cut_off : Text → Message → Text → Message
cut_off name m text =
    if is_abort name then record m { content = text } else broken m text interruption

-- The chat after the calls of the stream of a question, before its end.
abbrev pub while_answered :
    {D : Type 0}
    → (Json → Text)
    → JsonCodec
    → (D → List ℕ → D × Text)
    → Text
    → Fresh
    → Chat
    → Conversation
    → D
    → Option Json
    → List (List ℕ)
    → List Read
    → Chat
while_answered coerce codec decode query f s c d json bs ending =
    handle_calls coerce (run_of query (messages s) f c)
      (stream_chat codec decode d (answer 200 json bs ending)) (send query f s).0

module _ (coerce : Json → Text) (coerce_text : (t : Text) → coerce (str t) ≡ t) where
  answered-cut_off :
      (ts : List Text) (name : Text) (m : Message)
      → answered coerce (all_made (map token ts) ++ calls_for name) m
        ≡ cut_off name m (m.content ++ flatten ts)
  unfolding all_made flatten
  answered-cut_off [] name m = elim (Bool-cases (is_abort name)) [
    | inl aborted ↦ unfold answered in rw (aborted, append-nil m.content) refl
    | inr other ↦
        unfold answered amend in rw (other, append-nil m.content, coerce_text interruption) refl
  ]
  answered-cut_off (t ∷ ts) name m =
      ap (λ (calls : List Call). answered coerce calls m)
        (append_assoc (made (token t)) (all_made (map token ts)) (calls_for name))
      ∙ answered-token coerce coerce_text t (all_made (map token ts) ++ calls_for name) m
      ∙ answered-cut_off ts name (record m { content = m.content ++ t })
      ∙ ap (cut_off name m) (append_assoc m.content t (flatten ts))

  module _ (codec : JsonCodec) (print : Event → Text) {D : Type 0} (decode : D → List ℕ → D × Text)
      (streaming : IsStreaming decode) where
    module _ (query : Text) (f : Fresh) (s : Chat) (c : Conversation) (d : D) (json : Option Json)
        (bs : List (List ℕ)) (ts : List Text) (partial : Text) (rest : List Read) where
      pub lookup-while_answered :
          (name : Text)
          → active_conversation s ≡ some c
          → text_truthy (trim query) ≡ true
          → s.is_streaming ≡ false
          → All (λ m. text_eq m.id f.assistant_message_id ≡ false) (messages s)
          → text_eq f.user_message_id f.assistant_message_id ≡ false
          → (decode d (flatten bs)).1 ≡ wire print (map token ts) ++ partial
          → IsPartial partial
          → All (λ e. IsPrinted codec e (print e)) (map token ts)
          → lookup c.id
              (while_answered coerce codec decode query f s c d json bs
                (failed name ∷ rest)).conversations
            ≡ some (record (ask query (messages s) f c) {
              messages =
                  messages s
                  ++ user_message query f ∷ cut_off name (assistant_message f) (flatten ts) ∷ [];
            })
      unfolding send
      lookup-while_answered name shown asks idle others own sent open_end printed =
          let received =
            stream_chat-broken_off codec print decode streaming d 200 json bs (map token ts) partial
              name rest (omega arith) (omega arith) sent open_end printed in
          rw received (
            (run_query-answered coerce query (messages s) f s c
              (all_made (map token ts) ++ calls_for name) shown asks idle others own).1
            ∙ ap
                (λ m. some (record (ask query (messages s) f c) {
                  messages = messages s ++ user_message query f ∷ m ∷ [];
                }))
                (answered-cut_off ts name (assistant_message f)))

    -- A question that is not blank is sent in an open conversation while nothing streams, its new ids
    -- are new among the messages, and the server answers with status 200. Some tokens come, each
    -- printed on one line, and maybe a part of a frame, and then the connection breaks by an error that
    -- is no abort. The tokens that came stay, or without one the text of the interruption stands there,
    -- the answer is marked as an error, the messages before it stay, and the chat no longer streams.
    pub connection_lost_shown :
        (query : Text) (f : Fresh) (s : Chat) (c : Conversation) (d : D) (json : Option Json)
        (bs : List (List ℕ)) (ts : List Text) (partial : Text) (rest : List Read) (name : Text)
        → active_conversation s ≡ some c
        → text_truthy (trim query) ≡ true
        → s.is_streaming ≡ false
        → All (λ m. text_eq m.id f.assistant_message_id ≡ false) (messages s)
        → text_eq f.user_message_id f.assistant_message_id ≡ false
        → (decode d (flatten bs)).1 ≡ wire print (map token ts) ++ partial
        → IsPartial partial
        → All (λ e. IsPrinted codec e (print e)) (map token ts)
        → is_abort name ≡ false
        → let t =
            finish
              (while_answered coerce codec decode query f s c d json bs (failed name ∷ rest)) in
          (lookup c.id t.conversations
            ≡ some (record (ask query (messages s) f c) {
              messages =
                  messages s
                  ++ user_message query f
                    ∷ broken (assistant_message f) (flatten ts) interruption
                    ∷ [];
            }))
          × (t.is_streaming ≡ false)
    unfolding finish
    connection_lost_shown query f s c d json bs ts partial rest name shown asks idle others own sent
          open_end printed other =
        let seen =
          lookup-while_answered query f s c d json bs ts partial rest name shown asks idle others
            own sent open_end printed in
        (rw other at seen, refl)
