-- ===== src/ChatApp/Asks.antt =====
-- What a question does to the notebook of the chat.
use axiom_ai.Common.{
  Bool, true, false, not, ◌&&◌, some, List, [], ◌∷◌, ◌++◌, map_option, All, if◌then◌else◌, Text,
  codes, text_eq, text_truthy, trim, ◌≡◌, ◌⊎◌, inl, inr, refl, ap, sym, ◌∙◌, Bool-cases,
}
use axiom_ai.Json.{Json}
use axiom_ai.Types.{Role, user, assistant, Message, Conversation}
use axiom_ai.Conversations.Lists.{lookup}
use axiom_ai.ChatApp.{
  Chat, Fresh, active_conversation, messages, ask, start_run, run_query, send, handle_key_down,
  handle_regenerate, last_user_index, messages_of, is_user,
}
use axiom_ai.ChatApp.Lookup.{id_of_lookup, lookup-update_conversation}
use axiom_ai.ChatApp.Turns.{active-listed}
use axiom_ai.ChatApp.Answer.{run_query-start_run, lookup-active}
use axiom_ai.ChatApp.Valid.{IsValid}
use axiom_ai.ChatApp.Buttons.{IsValid-active, last_user_index-none, handle_regenerate-last}
use axiom_ai.ChatApp.Notebook.{
  notebook, Action, resting, asking, asking_again, IsOpened, Asks, Move, action,
}

-- A list of messages has a last question, or none.
last_question :
    (ms : List Message)
    → All (λ m. is_user m.role ≡ false) ms
      ⊎ ((before : List Message) × (q : Message) × (after : List Message) × (ms
            ≡ before ++ q ∷ after)
          × (q.role ≡ user)
          × All (λ m. is_user m.role ≡ false) after)
last_question [] = inl tt
last_question (m ∷ ms) = elim (last_question ms) [
  | inl none_asked ↦ elim (Bool-cases (is_user m.role)) [
    | inl asks ↦ inr ([], m, ms, refl, of_user m.role asks, none_asked)
    | inr other ↦ inl (other, none_asked)
  ]
  | inr (before, q, after, e, asks, later) ↦ inr (m ∷ before, q, after, ap (m ∷◌) e, asks, later)
]
  where
    of_user : (r : Role) → is_user r ≡ true → r ≡ user
    of_user user h = refl
    of_user assistant h = cc

messages-active :
    (s : Chat) (c : Conversation) → active_conversation s ≡ some c → messages s ≡ c.messages
unfolding messages
messages-active s c seen = ap messages_of seen

module _ (coerce : Json → Text) where
  -- What an action does, from the notebook of `s` to that of `t`.
  abbrev pub Moved : Chat → Chat → Action → Type 0
  Moved s t action = Move (notebook s) (notebook t) coerce action

  -- The conversation on the screen, as the notebook has it.
  IsOpened-active :
      (s : Chat) (c : Conversation)
      → active_conversation s ≡ some c
      → IsOpened (notebook s) (notebook s) c
  IsOpened-active s c seen =
      let (a, open_a, there) = active-listed s c seen in
      (open_a ∙ ap some (sym (id_of_lookup a s.conversations c there)), lookup-active s c seen)

  run_query-Asks :
      (s : Chat) (c : Conversation) (query : Text) (base : List Message) (f : Fresh)
      → active_conversation s ≡ some c
      → Asks (notebook s) (notebook (run_query query base f s).0) query base f c
  unfolding run_query start_run ask
  run_query-Asks s c query base f seen = elim (Bool-cases (text_truthy (trim query))) [
    | inl asks ↦ elim (Bool-cases s.is_streaming) [
      | inl busy ↦ rw (asks, busy, run_query) (inl (inr refl, (λ j. refl, refl), refl))
      | inr idle ↦ rw (run_query-start_run query base f s c seen asks idle) (
          inr (
            asks,
            idle,
            λ j.
                lookup-update_conversation c.id (ask query base f) (λ d. refl) s.conversations j
                ∙ ap
                    (λ d.
                      if text_eq c.id j
                      then map_option (ask query base f) d
                      else lookup j s.conversations)
                    (lookup-active s c seen),
            refl,
            refl,
          ))
    ]
    | inr blank ↦ rw (blank, run_query) (inl (inl refl, (λ j. refl, refl), refl))
  ]

  pub send-Asks :
      (s : Chat) (query : Text) (f : Fresh)
      → IsValid s
      → Moved s (send query f s).0 (asking query f)
  unfolding send
  send-Asks s query f v =
      let (c, seen) = IsValid-active s v in
      (
        c,
        IsOpened-active s c seen,
        rw (messages-active s c seen) (run_query-Asks s c query c.messages f seen),
      )

  pub handle_key_down-Asks :
      (s : Chat) (key : Text) (shift : Bool) (f : Fresh)
      → IsValid s
      → Moved s
          (handle_key_down key shift f s).0
          (if text_eq key (codes "Enter") && not shift then asking s.input f else resting)
  unfolding handle_key_down
  handle_key_down-Asks s key shift f v =
      elim (Bool-cases (text_eq key (codes "Enter") && not shift)) [
        | inl enter ↦ rw enter (send-Asks s s.input f v)
        | inr other ↦ rw other ((λ j. refl, refl), refl)
      ]

  pub handle_regenerate-AsksAgain :
      (s : Chat) (f : Fresh) → IsValid s → Moved s (handle_regenerate f s).0 (asking_again f)
  unfolding handle_regenerate
  handle_regenerate-AsksAgain s f v =
      let (c, seen) = IsValid-active s v in
      let same = messages-active s c seen in
      elim (last_question c.messages) [
        | inl none_asked ↦
            let nothing = ap last_user_index same ∙ last_user_index-none c.messages none_asked in
            rw (nothing, handle_regenerate)
              (c, IsOpened-active s c seen, inl (none_asked, (λ j. refl, refl), refl))
        | inr (before, q, after, e, asked, later) ↦
            rw (handle_regenerate-last f s before q after (same ∙ e) asked later) (
              c,
              IsOpened-active s c seen,
              inr (before, q, after, e, asked, later, run_query-Asks s c q.content before f seen),
            )
      ]
