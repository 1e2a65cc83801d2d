-- ===== src/ChatApp/Races.antt =====
-- What `isStreaming` guards, and what it does not.
use axiom_ai.Common.{
  true, false, not, ◌||◌, Option, none, some, List, [], ◌∷◌, Text, text_eq, text_eq_refl,
  if◌then◌else◌, text_truthy, trim, ◌≡◌, refl, Bool-cases, inl, inr, ap, sym, ◌∙◌,
}
use axiom_ai.Json.{Json}
use axiom_ai.Stream.{Call, on_done}
use axiom_ai.Types.{Message, Conversation}
use axiom_ai.Conversations.Lists.{lookup}
use axiom_ai.ChatApp.{
  Chat, Run, Fresh, active_conversation, ask, start_run, run_query, finish, handle_call,
  handle_stop,
}
use axiom_ai.ChatApp.Lookup.{id_of_lookup}
use axiom_ai.ChatApp.Turns.{active-listed}
use axiom_ai.ChatApp.Answer.{run_of, run_query-start_run, lookup-start_run}

start_run_refused :
    (query : Text) (base : List Message) (f : Fresh) (o : Option Conversation) (s : Chat)
    → (start_run query base f o s).1 ≡ none
    → (start_run query base f o s).0 ≡ s
unfolding start_run
start_run_refused query base f none s h = refl
start_run_refused query base f (some c) s h = cc

-- A question that starts no run changes nothing, the text in the composer included.
pub run_query_refused :
    (query : Text) (base : List Message) (f : Fresh) (s : Chat)
    → (run_query query base f s).1 ≡ none
    → (run_query query base f s).0 ≡ s
unfolding run_query
run_query_refused query base f s h =
    elim (Bool-cases (not (text_truthy (trim query)) || s.is_streaming)) [
      | inl refused ↦ rw (refused, run_query) refl
      | inr accepted ↦
          rw (accepted, run_query)
            (start_run_refused query base f (active_conversation s) s
              (rw (accepted, run_query) at h))
    ]

active_of_id :
    (s : Chat) (a : Text) → s.active_id ≡ some a → active_conversation s ≡ lookup a s.conversations
unfolding active_conversation
active_of_id s a e = rw (e, active_conversation)

active-start_run :
    (query : Text) (base : List Message) (f : Fresh) (s : Chat) (c : Conversation)
    → active_conversation s ≡ some c
    → active_conversation (finish (start_run query base f (some c) s).0) ≡ some (ask query base f c)
unfolding finish start_run
active-start_run query base f s c shown =
    let started = finish (start_run query base f (some c) s).0 in
    let (a, opened, there) = active-listed s c shown in
    let named = id_of_lookup a s.conversations c there in
    active_of_id started a opened
    ∙ ap (λ i. lookup i started.conversations) (sym named)
    ∙ lookup-start_run query base f s c shown

-- A chat with the runs whose `await` has not come back yet, the last one first.
abbrev pub Busy : Type 0
Busy = Chat × List Run

abbrev with_run : Option Run → List Run → List Run
with_run none runs = runs
with_run (some run) runs = run ∷ runs

abbrev without : Text → List Run → List Run
without assistant_id [] = []
without assistant_id (run ∷ runs) =
    let others = without assistant_id runs in
    if text_eq run.assistant_id assistant_id then others else run ∷ others

-- A question, whose run is under way from then on where it is accepted.
unfoldable pub run_asked : Text → List Message → Fresh → Busy → Busy
unfolding run_query
run_asked query base f (s, runs) =
    let asked = run_query query base f s in (asked.0, with_run asked.1 runs)

-- A call of the stream of a run.
unfoldable pub run_called : (Json → Text) → Run → Call → Busy → Busy
unfolding handle_call
run_called coerce run call (s, runs) = (handle_call coerce run call s, runs)

-- The `await` of a run comes back.
unfoldable pub run_ended : Run → Busy → Busy
unfolding finish text_eq
run_ended run (s, runs) = (finish s, without run.assistant_id runs)

run_asked-start_run :
    (query : Text) (base : List Message) (f : Fresh) (s : Chat) (c : Conversation) (runs : List Run)
    → active_conversation s ≡ some c
    → text_truthy (trim query) ≡ true
    → s.is_streaming ≡ false
    → run_asked query base f (s, runs)
      ≡ ((start_run query base f (some c) s).0, run_of query base f c ∷ runs)
unfolding run_asked start_run
run_asked-start_run query base f s c runs shown asks idle =
    rw (run_query-start_run query base f s c shown asks idle, run_asked) refl

run_asked-refused :
    (query : Text) (base : List Message) (f : Fresh) (s : Chat) (runs : List Run)
    → text_truthy (trim query) ≡ true
    → s.is_streaming ≡ true
    → run_asked query base f (s, runs) ≡ (s, runs)
unfolding run_asked run_query
run_asked-refused query base f s runs asks streams = rw (asks, streams, run_asked) refl

-- Three questions, not blank, are asked in an open conversation, the first one while nothing streams.
-- The stream of the first run has called `onDone`, but its `await` is not back when the second
-- question is accepted: two runs are under way, and the third question is refused now. The end of the
-- first run lets it through although the second run is still under way: then two runs are under way
-- again, and Stop aborts the third run and no other.
pub finish_lifts_guard :
    (coerce : Json → Text) (one two three : Text) (base base' base'' : List Message)
    (f f' f'' : Fresh) (s : Chat) (c : Conversation)
    → active_conversation s ≡ some c
    → text_truthy (trim one) ≡ true
    → text_truthy (trim two) ≡ true
    → text_truthy (trim three) ≡ true
    → s.is_streaming ≡ false
    → text_eq f'.assistant_message_id f.assistant_message_id ≡ false
    → let run = run_of one base f c in
      let run' = run_of two base' f' (ask one base f c) in
      let run'' = run_of three base'' f'' (ask two base' f' (ask one base f c)) in
      let both =
        run_asked two base' f' (run_called coerce run on_done (run_asked one base f (s, []))) in
      let last = run_asked three base'' f'' (run_ended run both) in
      (both.1 ≡ run' ∷ run ∷ [])
      × (run_asked three base'' f'' both ≡ both)
      × (last.1 ≡ run'' ∷ run' ∷ [])
      × ((handle_stop last.0).aborted ≡ f''.assistant_message_id ∷ s.aborted)
finish_lifts_guard coerce one two three base base' base'' f f' f'' s c shown asks asks' asks'' idle
      other =
    let run = run_of one base f c in
    let run' = run_of two base' f' (ask one base f c) in
    let done = finish (start_run one base f (some c) s).0 in
    let busy = (start_run two base' f' (some (ask one base f c)) done).0 in
    let shown' = active-start_run one base f s c shown in
    let shown'' = active-start_run two base' f' done (ask one base f c) shown' in
    let first = run_asked-start_run one base f s c [] shown asks idle in
    let called : run_called coerce run on_done (run_asked one base f (s, [])) ≡ (done, run ∷ []) =
      rw first (unfold run_called handle_call finish in refl) in
    let second =
      run_asked-start_run two base' f' done (ask one base f c) (run ∷ []) shown' asks'
        (unfold finish in refl) in
    let ended : run_ended run (busy, run' ∷ run ∷ []) ≡ (finish busy, run' ∷ []) =
      unfold run_ended in rw (other, text_eq_refl f.assistant_message_id) refl in
    let third =
      run_asked-start_run three base'' f'' (finish busy) (ask two base' f' (ask one base f c))
        (run' ∷ []) shown'' asks'' (unfold finish in refl) in
    rw (called, second, ended, third)
      (
        refl,
        run_asked-refused three base'' f'' busy (run' ∷ run ∷ []) asks'' (unfold start_run in refl),
        refl,
        unfold handle_stop start_run finish in refl,
      )
