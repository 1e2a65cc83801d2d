-- ===== src/ChatApp/Stopping.antt =====
-- Stop, pressed while an answer streams: `handleStop` aborts the controller whose signal the `fetch` of
-- the run holds.
use mathlib.Core.List.{flatten}
use axiom_ai.Common.{
  ℕ, Bool, true, false, Option, some, List, [], ◌∷◌, ◌++◌, All, any, drop, length, map, Text, codes,
  text_eq, text_eq_refl, text_truthy, trim, ◌≡◌, refl, ◌∙◌,
}
use axiom_ai.Json.{Json, str, JsonCodec}
use axiom_ai.Types.{Conversation}
use axiom_ai.Conversations.Lists.{lookup}
use axiom_ai.Stream.{Call, on_token, on_sources, on_done, on_error, Read, failed, stream_chat}
use axiom_ai.Stream.Batch.{stream_chat-aborted}
use axiom_ai.Stream.Chunks.{IsStreaming, answer}
use axiom_ai.Stream.Replay.{Event, token, IsPrinted, wire}
use axiom_ai.Stream.BrokenOff.{IsPartial}
use axiom_ai.ChatApp.{
  Chat, Run, Fresh, user_message, assistant_message, active_conversation, messages, ask, finish,
  handle_call, handle_stop, send, start_run,
}
use axiom_ai.ChatApp.Answer.{handle_calls, run_of, run_query-start_run}
use axiom_ai.ChatApp.CutOff.{lookup-while_answered}

-- Was the controller of this run aborted?
unfoldable pub is_aborted : Run → Chat → Bool
unfolding any text_eq
is_aborted run s = any (text_eq run.assistant_id) s.aborted

-- Stop is pressed when the chunks `bs` of the answer have come. What the body gives behind them may
-- depend on whether the signal is aborted by then. The calls that the stream made before are over,
-- and the others follow; then its `await` comes back.
abbrev pub after_stop :
    {D : Type 0}
    → (Json → Text)
    → JsonCodec
    → (D → List ℕ → D × Text)
    → Text
    → Fresh
    → Chat
    → Conversation
    → D
    → Option Json
    → List (List ℕ)
    → (Bool → List Read)
    → Chat
after_stop coerce codec decode query f s c d json bs body =
    let run = run_of query (messages s) f c in
    let before = stream_chat codec decode d (answer 200 json bs []) in
    let stopped = handle_stop (handle_calls coerce run before (send query f s).0) in
    let all = stream_chat codec decode d (answer 200 json bs (body (is_aborted run stopped))) in
    finish (handle_calls coerce run (drop (length before) all) stopped)

drop-length : {A : Type 0} → (xs : List A) → drop (length xs) xs ≡ []
drop-length [] = refl
drop-length (x ∷ xs) = drop-length xs

module _ (coerce : Json → Text) where
  handle_call-abort_ref :
      (run : Run) (call : Call) (s : Chat) → (handle_call coerce run call s).abort_ref ≡ s.abort_ref
  unfolding handle_call
  handle_call-abort_ref run (on_token v) s = refl
  handle_call-abort_ref run (on_sources v) s = refl
  handle_call-abort_ref run on_done s = refl
  handle_call-abort_ref run (on_error v) s = refl

  handle_calls-abort_ref :
      (run : Run) (calls : List Call) (s : Chat)
      → (handle_calls coerce run calls s).abort_ref ≡ s.abort_ref
  unfolding handle_calls
  handle_calls-abort_ref run [] s = refl
  handle_calls-abort_ref run (call ∷ more) s =
      handle_calls-abort_ref run more (handle_call coerce run call s)
      ∙ handle_call-abort_ref run call s

  -- Stop reaches the run that the question has started, whatever its stream has called so far.
  handle_stop-is_aborted :
      (query : Text) (f : Fresh) (s : Chat) (c : Conversation) (calls : List Call)
      → active_conversation s ≡ some c
      → text_truthy (trim query) ≡ true
      → s.is_streaming ≡ false
      → let run = run_of query (messages s) f c in
        is_aborted run (handle_stop (handle_calls coerce run calls (send query f s).0)) ≡ true
  unfolding send
  handle_stop-is_aborted query f s c calls shown asks idle =
      let run = run_of query (messages s) f c in
      let started = run_query-start_run query (messages s) f s c shown asks idle in
      let held : (handle_calls coerce run calls (send query f s).0).abort_ref
          ≡ some f.assistant_message_id =
        handle_calls-abort_ref run calls (send query f s).0
        ∙ unfold send in rw started (unfold start_run in refl) in
      unfold is_aborted handle_stop any in rw (held, text_eq_refl f.assistant_message_id) refl

module _ (coerce : Json → Text) (coerce_text : (t : Text) → coerce (str t) ≡ t) (codec : JsonCodec)
    (print : Event → Text) {D : Type 0} (decode : D → List ℕ → D × Text)
    (streaming : IsStreaming decode) where
  -- A question that is not blank is sent in an open conversation while nothing streams, its new ids
  -- are new among the messages, and the server answers with status 200. Some tokens have come, each
  -- printed on one line, and maybe a part of a frame, when the person presses Stop. If a body whose
  -- signal is aborted fails with an `AbortError`, then whatever more it would have given otherwise,
  -- the answer keeps the tokens that came and has no error mark, the messages before it stay, and the
  -- chat no longer streams.
  pub stop_keeps_answer :
      (query : Text) (f : Fresh) (s : Chat) (c : Conversation) (d : D) (json : Option Json)
      (bs : List (List ℕ)) (ts : List Text) (partial : Text) (body : Bool → List Read)
      (rest : List Read)
      → active_conversation s ≡ some c
      → text_truthy (trim query) ≡ true
      → s.is_streaming ≡ false
      → All (λ m. text_eq m.id f.assistant_message_id ≡ false) (messages s)
      → text_eq f.user_message_id f.assistant_message_id ≡ false
      → (decode d (flatten bs)).1 ≡ wire print (map token ts) ++ partial
      → IsPartial partial
      → All (λ e. IsPrinted codec e (print e)) (map token ts)
      → body true ≡ failed (codes "AbortError") ∷ rest
      → let t = after_stop coerce codec decode query f s c d json bs body in
        (lookup c.id t.conversations
          ≡ some (record (ask query (messages s) f c) {
            messages =
                messages s
                ++ user_message query f
                  ∷ record (assistant_message f) { content = flatten ts }
                  ∷ [];
          }))
        × (t.is_streaming ≡ false)
  unfolding text_eq
  stop_keeps_answer query f s c d json bs ts partial body rest shown asks idle others own sent
        open_end printed aborts =
      let before = stream_chat codec decode d (answer 200 json bs []) in
      let same = stream_chat-aborted codec decode streaming d 200 json bs rest in
      let reached = handle_stop-is_aborted coerce query f s c before shown asks idle in
      let seen =
        lookup-while_answered coerce coerce_text codec print decode streaming query f s c d json bs
          ts partial rest (codes "AbortError") shown asks idle others own sent open_end printed in
      rw (reached, aborts, same, drop-length before)
        (unfold handle_calls handle_stop finish in (rw same at seen), unfold finish in refl)
