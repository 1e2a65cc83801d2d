-- ===== src/ChatApp/Refines.antt =====
-- Every event of the chat is an action of its notebook.
use axiom_ai.Common.{
  ℕ, true, false, none, some, List, [], ◌∷◌, find, Text, text_eq, ◌≡◌, inl, inr, refl, ap, sym, ◌∙◌,
  Bool-cases, Option-cases, ◌≢◌,
}
use axiom_ai.Json.{Json}
use axiom_ai.Types.{Conversation}
use axiom_ai.Conversations.{create_conversation, delete_conversation, sort_by_recent}
use axiom_ai.Conversations.Lists.{has, lookup, lookup-delete_conversation}
use axiom_ai.Stream.{Call, on_token, on_sources, on_done, on_error}
use axiom_ai.ChatApp.{
  Chat, Run, adopt_list, after_delete, switch_user, handle_new_chat, handle_select, handle_delete,
  handle_submit, handle_call, finish, handle_stop, set_input, set_sidebar, documents_changed,
}
use axiom_ai.ChatApp.Lookup.{has-lookup}
use axiom_ai.ChatApp.Answer.{lookup-handle_call}
use axiom_ai.ChatApp.Valid.{IsValid, has-delete}
use axiom_ai.ChatApp.Steps.{
  Step, typed, shown, documents, created, selected, deleted, prompted, submitted, pressed,
  regenerated, called, ended, stopped, switched, Reach, here, next, IsSound, Reach-IsSound,
}
use axiom_ai.ChatApp.Notebook.{
  notebook, with_at, removing, hearing, loading, action, Moves, actions,
}
use axiom_ai.ChatApp.Order.{lookup_head, lookup-sort_by_recent}
use axiom_ai.ChatApp.Asks.{Moved, send-Asks, handle_key_down-Asks, handle_regenerate-AsksAgain}

module _ (coerce : Json → Text) where
  opened_one :
      (id : Text) (cs : List Conversation)
      → has id cs ≡ true
      → (c : Conversation) × (lookup id cs ≡ some c)
  opened_one id cs h = elim (Option-cases (lookup id cs)) [
    | inl absent ↦ cc (has-lookup id cs)
    | inr (c, there) ↦ (c, there)
  ]

  after_delete-Removes :
      (s : Chat) (gone id a : Text) (now : ℕ) (cs : List Conversation)
      → s.active_id ≡ some a
      → ((j : Text) → lookup j cs ≡ with_at gone none (notebook s) j)
      → (text_eq gone a ≡ false → has a cs ≡ true)
      → Moved coerce s (after_delete gone cs (create_conversation id now) s) (removing gone id now)
  unfolding find create_conversation
  after_delete-Removes s gone id a now [] e left keeps =
      inl (λ j. sym (left j), (λ j. refl, refl, refl))
  after_delete-Removes s gone id a now (c ∷ cs) e left keeps = elim (Bool-cases (text_eq gone a)) [
    | inl same ↦ inr (
      c.id,
      c,
      left,
      rw (e, same),
      lookup_head c cs,
      λ b f other. (let same_id : a ≡ b = cc in cc),
      refl,
    )
    | inr other ↦
        let (d, there) = opened_one a (c ∷ cs) (keeps other) in
        inr (a, d, left, rw (e, other), there, λ b f apart. cc, refl)
  ]

  handle_delete-Removes :
      (s : Chat) (gone id : Text) (now : ℕ)
      → IsValid s
      → Moved coerce s (handle_delete gone id now s) (removing gone id now)
  unfolding handle_delete
  handle_delete-Removes s gone id now v =
      after_delete-Removes s gone id v.open_id now (delete_conversation s.conversations gone)
        v.active (lookup-delete_conversation s.conversations gone)
        (λ other. has-delete v.open_id gone s.conversations other v.listed)

  handle_call-Move :
      (s : Chat) (run : Run) (call : Call)
      → Moved coerce s (handle_call coerce run call s) (hearing run call)
  unfolding handle_call
  handle_call-Move s run (on_token v) = (lookup-handle_call coerce run (on_token v) s, refl, refl)
  handle_call-Move s run (on_sources v) =
      (lookup-handle_call coerce run (on_sources v) s, refl, refl)
  handle_call-Move s run on_done = (lookup-handle_call coerce run on_done s, refl, refl)
  handle_call-Move s run (on_error v) = (lookup-handle_call coerce run (on_error v) s, refl, refl)

  no_lookup : (cs : List Conversation) → ((j : Text) → none ≡ lookup j cs) → cs ≡ []
  no_lookup [] absent = refl
  no_lookup (c ∷ cs) absent = let found = absent c.id ∙ lookup_head c cs in cc

  some_lookup :
      (c : Conversation) (cs stored : List Conversation)
      → ((j : Text) → lookup j (c ∷ cs) ≡ lookup j stored)
      → stored ≢ []
  unfolding find
  some_lookup c cs stored same none_stored =
      let found = sym (lookup_head c cs) ∙ same c.id ∙ ap (lookup c.id) none_stored in cc

  adopt_list-Loads :
      (s t : Chat) (cs : List Conversation) (id : Text) (now : ℕ) (stored : List Conversation)
      → t.is_streaming ≡ s.is_streaming
      → ((j : Text) → lookup j cs ≡ lookup j stored)
      → Moved coerce s (adopt_list cs (create_conversation id now) t) (loading stored id now)
  unfolding find create_conversation
  adopt_list-Loads s t [] id now stored streaming same =
      inl (no_lookup stored same, (λ j. refl, refl, streaming))
  adopt_list-Loads s t (c ∷ cs) id now stored streaming same = inr (
    λ none_stored. some_lookup c cs stored same none_stored,
    same,
    (c.id, c, refl, sym (same c.id) ∙ lookup_head c cs),
    streaming,
  )

  Step-Move :
      {s t : Chat} (step : Step coerce s t) → IsValid s → Moved coerce s t (action coerce step)
  unfolding set_input set_sidebar documents_changed finish handle_stop handle_submit switch_user
      handle_new_chat handle_select create_conversation
  Step-Move (typed s text) v = ((λ j. refl, refl), refl)
  Step-Move (shown s open_bar) v = ((λ j. refl, refl), refl)
  Step-Move (documents s) v = ((λ j. refl, refl), refl)
  Step-Move (created s id now new) v = (λ j. unfold find in refl, refl, refl)
  Step-Move (selected s id there) v = (λ j. refl, refl, refl)
  Step-Move (deleted s gone id now) v = handle_delete-Removes s gone id now v
  Step-Move (prompted s prompt f) v = send-Asks coerce s prompt f v
  Step-Move (submitted s f) v = send-Asks coerce s s.input f v
  Step-Move (pressed s key shift f) v = handle_key_down-Asks coerce s key shift f v
  Step-Move (regenerated s f) v = handle_regenerate-AsksAgain coerce s f v
  Step-Move (called s run call) v = handle_call-Move s run call
  Step-Move (ended s) v = ((λ j. refl, refl), refl)
  Step-Move (stopped s) v = ((λ j. refl, refl), refl)
  Step-Move (switched s user_id stored id now distinct turns) v =
      adopt_list-Loads s (record s { user_id = user_id }) (sort_by_recent stored) id now stored refl
        (λ j. lookup-sort_by_recent stored j distinct)

  -- Any events of a sound chat do to its notebook, which holds the conversations by their ids and
  -- forgets their order, what the actions do that the events ask for, each in its turn. An action
  -- creates, opens, removes, asks in or amends the one conversation that the event names and keeps
  -- every other one, or it loads the conversations that the event brings, or a new one where it
  -- brings none; a new one also takes the place of the last one that is removed. A question is
  -- refused exactly where it is blank or an answer streams, and asking again repeats the last
  -- question of the open conversation, or does nothing where there is none.
  pub Reach-Moves :
      {s t : Chat}
      → IsSound s
      → (r : Reach coerce s t) → Moves coerce (actions coerce r) (notebook s) (notebook t)
  unfolding Moves actions
  Reach-Moves h here = refl
  Reach-Moves h (next r step) =
      (_, Reach-Moves h r, Step-Move step (Reach-IsSound coerce h r).valid)
