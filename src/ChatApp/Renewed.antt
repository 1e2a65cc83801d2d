-- ===== src/ChatApp/Renewed.antt =====
-- A question whose access token has expired: from the request to the message on the screen.
use axiom_ai.Common.{ℕ, List, Text, ◌≡◌}
use axiom_ai.Json.{Json, str, JsonCodec}
use axiom_ai.Types.{Conversation}
use axiom_ai.Stream.{Fetched, stream_chat}
use axiom_ai.Stream.Chunks.{IsStreaming}
use axiom_ai.Stream.Replay.{Event}
use axiom_ai.AuthProvider.{Auth}
use axiom_ai.ChatApp.{Chat, Fresh, messages, finish, send}
use axiom_ai.ChatApp.Answer.{handle_calls, run_of}

module _ (coerce : Json → Text) (coerce_text : (t : Text) → coerce (str t) ≡ t) (codec : JsonCodec)
    (print : Event → Text) {D : Type 0} (decode : D → List ℕ → D × Text)
    (streaming : IsStreaming decode) where
  -- What the screen shows once the stream of a question has ended, whatever `fetch` returned for it.
  abbrev pub after_stream : Text → Fresh → Chat → Conversation → D → Fetched → Chat
  after_stream query f s c d fetched = finish (
      handle_calls coerce (run_of query (messages s) f c) (stream_chat codec decode d fetched)
        (send query f s).0)
