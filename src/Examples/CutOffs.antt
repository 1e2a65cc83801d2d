-- ===== src/Examples/CutOffs.antt =====
-- Examples for an answer that is cut off.
use mathlib.Core.List.{flatten}
use axiom_ai.Common.{
  ℕ, Bool, true, false, none, some, List, [], ◌∷◌, ◌++◌, codes, text_eq, trim, ◌≡◌, refl, find,
}
use axiom_ai.Stream.{Read, chunk, failed}
use axiom_ai.Stream.Cutting.{cut}
use axiom_ai.Stream.Replay.{wire}
use axiom_ai.Conversations.Lists.{lookup}
use axiom_ai.ChatApp.{
  Chat, messages, ask, user_message, assistant_message, active_conversation, finish,
}
use axiom_ai.ChatApp.EndToEnd.{broken}
use axiom_ai.ChatApp.CutOff.{interruption, while_answered, connection_lost_shown}
use axiom_ai.ChatApp.Stopping.{after_stop, stop_keeps_answer}
use axiom_ai.Examples.Fixtures.{
  ascii, ascii-IsStreaming, letter, letter_codec, IsPrinted-token, as_string, as_string-str, talk,
  chat, fresh,
}

-- One token and the beginning of another one.
abbrev cut_bytes : List (List ℕ)
cut_bytes = codes "data: t\n" ∷ codes "\nda" ∷ []

-- Without an abort the answer would have ended well.
abbrev body : Bool → List Read
body true = failed (codes "AbortError") ∷ []
body false = chunk (codes "ta: o\n\n") ∷ []

abbrev stopped_answer : Chat
stopped_answer =
    after_stop as_string letter_codec ascii (codes "and then?") fresh chat talk tt none cut_bytes
      body

stop_keeps_answer_example :
    (lookup (codes "c1") stopped_answer.conversations
      ≡ some (record (ask (codes "and then?") (messages chat) fresh talk) {
        messages =
            messages chat
            ++ user_message (codes "and then?") fresh
              ∷ record (assistant_message fresh) { content = flatten (codes "hi" ∷ []) }
              ∷ [];
      }))
    × (stopped_answer.is_streaming ≡ false)
unfolding wire flatten trim text_eq messages active_conversation find cut
stop_keeps_answer_example =
    stop_keeps_answer as_string as_string-str letter_codec letter ascii ascii-IsStreaming
      (codes "and then?") fresh chat talk tt none cut_bytes (codes "hi" ∷ []) (codes "da") body []
      refl refl refl (refl, (refl, tt)) refl refl refl (IsPrinted-token, tt) refl

abbrev lost_answer : Chat
lost_answer = finish (
    while_answered as_string letter_codec ascii (codes "and then?") fresh chat talk tt none
      cut_bytes (failed (codes "TypeError") ∷ []))

connection_lost_shown_example :
    (lookup (codes "c1") lost_answer.conversations
      ≡ some (record (ask (codes "and then?") (messages chat) fresh talk) {
        messages =
            messages chat
            ++ user_message (codes "and then?") fresh
              ∷ broken (assistant_message fresh) (flatten (codes "hi" ∷ [])) interruption
              ∷ [];
      }))
    × (lost_answer.is_streaming ≡ false)
unfolding wire flatten trim text_eq messages active_conversation find cut
connection_lost_shown_example =
    connection_lost_shown as_string as_string-str letter_codec letter ascii ascii-IsStreaming
      (codes "and then?") fresh chat talk tt none cut_bytes (codes "hi" ∷ []) (codes "da") []
      (codes "TypeError") refl refl refl (refl, (refl, tt)) refl refl refl (IsPrinted-token, tt)
      refl
