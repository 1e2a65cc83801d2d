-- ===== src/Conversations/Lists.antt =====
-- Lookup after each list operation.
use axiom_ai.Common.{
  ℕ, suc, ◌+◌, Bool, true, false, Option, none, some, List, [], ◌∷◌, map, filter, find, any, set,
  find_index_from, if◌then◌else◌, Text, text_eq, text_eq_iff, ◌≡◌, refl, arith, ◌⊎◌, inl, inr,
  Bool-cases, map_option,
}
use axiom_ai.Types.{Conversation}
use axiom_ai.Conversations.{has_id, upsert_conversation, delete_conversation, rename_conversation}

abbrev pub ids : List Conversation → List Text
ids = map (λ c. c.id)

-- The conversation that is shown under an id.
abbrev pub lookup : Text → List Conversation → Option Conversation
lookup id = find (has_id id)

unfoldable pub has : Text → List Conversation → Bool
unfolding any text_eq
has id = any (has_id id)

-- The first conversation with the id of `u` makes way for `u`.
unfoldable pub replace : Conversation → List Conversation → List Conversation
replace u [] = []
replace u (c ∷ cs) = let rest = replace u cs in if has_id u.id c then u ∷ cs else c ∷ rest

index-replace :
    (u : Conversation) (cs : List Conversation) (i : ℕ)
    → ((find_index_from i (has_id u.id) cs ≡ none) × (has u.id cs ≡ false))
      ⊎ ((j : ℕ) × (find_index_from i (has_id u.id) cs ≡ some (i + j))
          × (has u.id cs ≡ true)
          × (replace u cs ≡ set cs j u))
unfolding find_index_from replace has
index-replace u [] i = inl (refl, refl)
index-replace u (c ∷ cs) i = elim (Bool-cases (has_id u.id c)) [
  | inl same ↦ inr (0, rw same (ground arith), rw same, rw same)
  | inr other ↦ elim (index-replace u cs (suc i)) [
    | inl absent ↦ inl (rw (other, absent.0), rw (other, absent.1))
    | inr (j, found, present, replaced) ↦
        inr (suc j, rw (other, found) (ground arith), rw (other, present), rw (other, replaced))
  ]
]

-- `upsertConversation` without its index: in place where the id is there, else in front.
pub upsert-replace :
    (cs : List Conversation) (u : Conversation)
    → upsert_conversation cs u ≡ (if has u.id cs then replace u cs else u ∷ cs)
unfolding upsert_conversation
upsert-replace cs u = elim (index-replace u cs 0) [
  | inl (missing, absent) ↦ rw (missing, upsert_conversation) (rw absent)
  | inr (j, found, present, replaced) ↦
      let at_j : find_index_from 0 (has_id u.id) cs ≡ some j = ground arith in
      rw (at_j, upsert_conversation) (rw (present, replaced))
]

lookup-replace :
    (id : Text) (u : Conversation) (cs : List Conversation)
    → has u.id cs ≡ true
    → lookup id (replace u cs) ≡ (if text_eq u.id id then some u else lookup id cs)
unfolding replace find has
lookup-replace id u [] h = cc
lookup-replace id u (c ∷ cs) h =
    ground (
      arith,
      text_eq_iff c.id u.id,
      text_eq_iff u.id id,
      text_eq_iff c.id id,
      lookup-replace id u cs,
    )

-- After an upsert the id of `u` shows `u`, and every other id shows what it showed before.
pub lookup-upsert_conversation :
    (cs : List Conversation) (u : Conversation) (id : Text)
    → lookup id (upsert_conversation cs u) ≡ (if text_eq u.id id then some u else lookup id cs)
unfolding find
lookup-upsert_conversation cs u id = elim (Bool-cases (has u.id cs)) [
  | inl present ↦ rw (upsert-replace cs u, present) (lookup-replace id u cs present)
  | inr absent ↦ rw (upsert-replace cs u, absent)
]

ids-replace : (u : Conversation) (cs : List Conversation) → ids (replace u cs) ≡ ids cs
unfolding replace
ids-replace u [] = refl
ids-replace u (c ∷ cs) = ground (arith, text_eq_iff c.id u.id, ids-replace u cs)

-- The order of the ids: an upsert moves nothing, and puts a new one in front.
pub ids-upsert_conversation :
    (cs : List Conversation) (u : Conversation)
    → ids (upsert_conversation cs u) ≡ (if has u.id cs then ids cs else u.id ∷ ids cs)
ids-upsert_conversation cs u = elim (Bool-cases (has u.id cs)) [
  | inl present ↦ rw (upsert-replace cs u, present) (ids-replace u cs)
  | inr absent ↦ rw (upsert-replace cs u, absent)
]

-- After a deletion the id shows nothing, and every other id shows what it showed before.
pub lookup-delete_conversation :
    (cs : List Conversation) (gone id : Text)
    → lookup id (delete_conversation cs gone) ≡ (if text_eq gone id then none else lookup id cs)
unfolding delete_conversation find filter
lookup-delete_conversation [] gone id = ground arith
lookup-delete_conversation (c ∷ cs) gone id = ground (
  arith,
  text_eq_iff c.id gone,
  text_eq_iff gone id,
  text_eq_iff c.id id,
  lookup-delete_conversation cs gone id,
)

-- A new title and time for the conversation with the id; every other one is left alone.
pub lookup-rename_conversation :
    (cs : List Conversation) (named : Text) (title : Text) (now : ℕ) (id : Text)
    → lookup id (rename_conversation cs named title now)
      ≡ map_option
          (λ c. if text_eq named id then record c { title = title; updated_at = now } else c)
          (lookup id cs)
unfolding rename_conversation find
lookup-rename_conversation [] named title now id = refl
lookup-rename_conversation (c ∷ cs) named title now id = ground (
  arith,
  text_eq_iff c.id named,
  text_eq_iff named id,
  text_eq_iff c.id id,
  lookup-rename_conversation cs named title now id,
)
