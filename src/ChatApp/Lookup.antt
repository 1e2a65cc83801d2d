-- ===== src/ChatApp/Lookup.antt =====
-- What the updates of a conversation change: the one conversation, in its place.
use axiom_ai.Common.{
  none, some, List, [], ◌∷◌, find, map_option, is_some, if◌then◌else◌, Text, text_eq, text_eq_iff,
  ◌≡◌, refl, arith, Option-cases, inl, inr, ap, ◌∙◌,
}
use axiom_ai.Types.{Conversation}
use axiom_ai.Conversations.{upsert_conversation}
use axiom_ai.Conversations.Lists.{
  ids, has, lookup, lookup-upsert_conversation, ids-upsert_conversation,
}
use axiom_ai.ChatApp.{update_conversation}

pub id_of_lookup :
    (id : Text) (cs : List Conversation) (c : Conversation) → lookup id cs ≡ some c → c.id ≡ id
unfolding find
id_of_lookup id [] c h = cc
id_of_lookup id (d ∷ cs) c h = ground (arith, text_eq_iff d.id id, id_of_lookup id cs c)

pub has-lookup : (id : Text) (cs : List Conversation) → has id cs ≡ is_some (lookup id cs)
unfolding has find
has-lookup id [] = refl
has-lookup id (c ∷ cs) = ground (arith, text_eq_iff c.id id, has-lookup id cs)

update_of_none :
    (id : Text) (change : Conversation → Conversation) (cs : List Conversation)
    → lookup id cs ≡ none
    → update_conversation id change cs ≡ cs
unfolding update_conversation
update_of_none id change cs h = rw (h, update_conversation)

update_of_some :
    (id : Text) (change : Conversation → Conversation) (cs : List Conversation) (c : Conversation)
    → lookup id cs ≡ some c
    → update_conversation id change cs ≡ upsert_conversation cs (change c)
unfolding update_conversation
update_of_some id change cs c h = rw (h, update_conversation)

module _ (id : Text) (change : Conversation → Conversation)
    (same : (c : Conversation) → (change c).id ≡ c.id) where
  -- The conversation with the id is changed, if it is there, and every other one stays as it was.
  pub lookup-update_conversation :
      (cs : List Conversation) (j : Text)
      → lookup j (update_conversation id change cs)
        ≡ (if text_eq id j then map_option change (lookup id cs) else lookup j cs)
  lookup-update_conversation cs j = elim (Option-cases (lookup id cs)) [
    | inl gone ↦ rw (update_of_none id change cs gone, gone) (ground (arith, text_eq_iff id j))
    | inr (c, there) ↦
        let named = same c ∙ id_of_lookup id cs c there in
        rw (update_of_some id change cs c there, there)
          (rw (lookup-upsert_conversation cs (change c) j, named))
  ]

  -- No update moves, adds or removes a conversation.
  pub ids-update_conversation :
      (cs : List Conversation) → ids (update_conversation id change cs) ≡ ids cs
  ids-update_conversation cs = elim (Option-cases (lookup id cs)) [
    | inl gone ↦ ap ids (update_of_none id change cs gone)
    | inr (c, there) ↦
        let named = same c ∙ id_of_lookup id cs c there in
        let present = has-lookup id cs ∙ ap is_some there in
        ap ids (update_of_some id change cs c there)
        ∙ ids-upsert_conversation cs (change c)
        ∙ rw (named, present) refl
  ]
