-- ===== src/Examples/Streaming.antt =====
-- Examples for the stream and for the answer on the screen.
use mathlib.Core.List.{flatten}
use axiom_ai.Common.{
  ℕ, false, none, some, List, [], ◌∷◌, ◌++◌, codes, text_eq, trim, ◌≡◌, refl, arith, find,
}
use axiom_ai.Json.{arr, nil}
use axiom_ai.Stream.{stream_chat, failed}
use axiom_ai.Stream.Chunks.{answer}
use axiom_ai.Stream.Batch.{batch_chat, stream_chat-batch}
use axiom_ai.Stream.Replay.{token, sources, finished, wire, all_made, stream_chat-wire}
use axiom_ai.Conversations.Lists.{lookup}
use axiom_ai.ChatApp.{messages, ask, user_message, assistant_message, active_conversation}
use axiom_ai.ChatApp.EndToEnd.{
  good_answer, failed_answer, complete, broken, after_answer, answer_shown, failure_shown,
}
use axiom_ai.Examples.Fixtures.{
  ascii, ascii-IsStreaming, letter, letter_codec, IsPrinted-token, IsPrinted-sources,
  IsPrinted-finished, IsPrinted-failure, as_string, as_string-str, talk, chat, fresh,
}

-- Two answers of one token, in chunks: one comes to its end, the other one fails.
abbrev good_bytes : List (List ℕ)
good_bytes = codes "data: t\n\ndata" ∷ codes ": s\n" ∷ codes "\ndata: d\n\n" ∷ []

abbrev failed_bytes : List (List ℕ)
failed_bytes = codes "data: t\n\ndata" ∷ codes ": e\n\n" ∷ []

stream_chat-wire_example :
    stream_chat letter_codec ascii tt (answer 200 none good_bytes [])
    ≡ all_made (token (codes "hi") ∷ sources (arr nil) ∷ finished ∷ [])
unfolding wire flatten
stream_chat-wire_example =
    stream_chat-wire letter_codec letter ascii ascii-IsStreaming tt 200 none good_bytes
      (token (codes "hi") ∷ sources (arr nil) ∷ finished ∷ []) (omega arith) (omega arith) refl
      (IsPrinted-token, (IsPrinted-sources, (IsPrinted-finished, tt)))

stream_chat-batch_example :
    let fetched = answer 200 none good_bytes (failed (codes "TypeError") ∷ []) in
    stream_chat letter_codec ascii tt fetched ≡ batch_chat letter_codec ascii tt fetched
stream_chat-batch_example =
    stream_chat-batch letter_codec ascii ascii-IsStreaming tt
      (answer 200 none good_bytes (failed (codes "TypeError") ∷ []))

answer_shown_example :
    (lookup
        (codes "c1")
        (after_answer as_string letter_codec ascii
          (codes "and then?")
          fresh
          chat
          talk
          tt
          none
          good_bytes).conversations
      ≡ some (record (ask (codes "and then?") (messages chat) fresh talk) {
        messages =
            messages chat
            ++ user_message (codes "and then?") fresh
              ∷ complete (assistant_message fresh) (flatten (codes "hi" ∷ [])) (arr nil)
              ∷ [];
      }))
    × ((after_answer as_string letter_codec ascii
          (codes "and then?")
          fresh
          chat
          talk
          tt
          none
          good_bytes).is_streaming
        ≡ false)
unfolding good_answer wire flatten trim text_eq messages active_conversation find
answer_shown_example =
    answer_shown as_string as_string-str letter_codec letter ascii ascii-IsStreaming
      (codes "and then?") fresh chat talk tt none good_bytes (codes "hi" ∷ []) (arr nil) refl refl
      refl (refl, (refl, tt)) refl refl
      (IsPrinted-token, (IsPrinted-sources, (IsPrinted-finished, tt)))

failure_shown_example :
    (lookup
        (codes "c1")
        (after_answer as_string letter_codec ascii
          (codes "and then?")
          fresh
          chat
          talk
          tt
          none
          failed_bytes).conversations
      ≡ some (record (ask (codes "and then?") (messages chat) fresh talk) {
        messages =
            messages chat
            ++ user_message (codes "and then?") fresh
              ∷ broken (assistant_message fresh) (flatten (codes "hi" ∷ [])) (codes "no model")
              ∷ [];
      }))
    × ((after_answer as_string letter_codec ascii
          (codes "and then?")
          fresh
          chat
          talk
          tt
          none
          failed_bytes).is_streaming
        ≡ false)
unfolding failed_answer wire flatten trim text_eq messages active_conversation find
failure_shown_example =
    failure_shown as_string as_string-str letter_codec letter ascii ascii-IsStreaming
      (codes "and then?") fresh chat talk tt none failed_bytes (codes "hi" ∷ []) (codes "no model")
      refl refl refl (refl, (refl, tt)) refl refl (IsPrinted-token, (IsPrinted-failure, tt))
