-- ===== src/Conversations.antt =====
-- frontend/src/lib/conversations.ts: the list of conversations and its copy in `localStorage`. What
-- the environment gives (`Date.now()`, random values) is an argument.
pub mod Titles
pub mod Lists
pub mod Sorting
pub mod Storage
use axiom_ai.Common.{
  ℕ, Bool, true, false, ◌==◌, not, Option, none, some, List, [], ◌∷◌, ◌++◌, map, filter,
  find_index_from, set, drop, leb, or_else, if◌then◌else◌, Text, codes, text_eq, text_truthy, trim,
  is_space, decimal, take, length,
}
use axiom_ai.Json.{Json, arr, of_items, items, JsonCodec}
use axiom_ai.Browser.{Browser, get_item, set_item}
use axiom_ai.Types.{Conversation}
use axiom_ai.Types.Encode.{conversation_json, conversation_of_json}

unfoldable pub storage_key : Text → Text
storage_key user_id = codes "axiom-ai-conversations:" ++ user_id

-- `crypto.randomUUID()` where there is one; `random` is `Math.random().toString(36)`.
unfoldable pub generate_id : Option Text → ℕ → Text → Text
unfolding decimal
generate_id none now random = decimal now ++ codes "-" ++ drop 2 random
generate_id (some uuid) now random = uuid

array_or_empty : Json → List Json
array_or_empty (arr vs) = items vs
array_or_empty _ = []

module _ (codec : JsonCodec) where
  unfoldable pub read_conversations : Option Text → List Json
  unfolding array_or_empty
  read_conversations none = []
  read_conversations (some raw) =
      if text_truthy raw
      then elim (codec.parse raw) [ none ↦ [] | some v ↦ array_or_empty v ]
      else []

  unfoldable pub load_conversations : Browser → Text → List Json
  unfolding read_conversations get_item storage_key
  load_conversations b user_id =
      if b.window
      then elim (get_item b (storage_key user_id)) [ none ↦ [] | some raw ↦ read_conversations raw ]
      else []

  unfoldable pub save_conversations : Browser → Text → List Conversation → Browser
  unfolding set_item storage_key
  save_conversations b user_id conversations =
      if b.window
      then or_else
          (set_item b (storage_key user_id)
            (codec.stringify (arr (of_items (map conversation_json conversations)))))
          b
      else b

-- The cast `parsed as Conversation[]`.
abbrev pub cast_conversations : List Json → List Conversation
cast_conversations = map conversation_of_json

unfoldable pub create_conversation : Text → ℕ → Conversation
create_conversation id now = record {
  id = id;
  title = codes "New chat";
  messages = [];
  created_at = now;
  updated_at = now;
}

-- `s.replace(/\s+/g, " ")`; the flag says that the character before was part of a run.
unfoldable pub collapse : Bool → Text → Text
unfolding is_space
collapse inside [] = []
collapse inside (c ∷ s) =
    let skipped = collapse true s in
    let kept = collapse false s in
    if is_space c then if inside then skipped else 0x20 ∷ skipped else c ∷ kept

-- The title for what is left of the message.
unfoldable pub shorten : Text → Text
shorten trimmed =
    if text_truthy trimmed
    then if leb (length trimmed) 48 then trimmed else take 48 trimmed ++ codes "…"
    else codes "New chat"

unfoldable pub title_from_message : Text → Text
unfolding collapse trim shorten
title_from_message content = shorten (collapse false (trim content))

abbrev pub has_id : Text → Conversation → Bool
has_id id c = text_eq c.id id

unfoldable pub upsert_conversation : List Conversation → Conversation → List Conversation
unfolding find_index_from text_eq
upsert_conversation conversations updated =
    elim (find_index_from 0 (has_id updated.id) conversations) [
      | none ↦ updated ∷ conversations
      | some index ↦ set conversations index updated
    ]

unfoldable pub delete_conversation : List Conversation → Text → List Conversation
unfolding filter text_eq
delete_conversation conversations id = filter (λ c. not (has_id id c)) conversations

-- `now` is the `Date.now()` of each call of the mapped function; calls share a millisecond.
unfoldable pub rename_conversation : List Conversation → Text → Text → ℕ → List Conversation
unfolding text_eq
rename_conversation conversations id title now =
    map (λ c. if has_id id c then record c { title = title; updated_at = now } else c) conversations

-- `[...conversations].sort((a, b) => b.updatedAt - a.updatedAt)`. The language's sort is stable, so
-- its result is that of the insertion sort: `a` stays before `b` unless `b` is newer.
unfoldable pub insert_by_recent : Conversation → List Conversation → List Conversation
insert_by_recent a [] = a ∷ []
insert_by_recent a (b ∷ rest) =
    let later = insert_by_recent a rest in
    if leb b.updated_at a.updated_at then a ∷ b ∷ rest else b ∷ later

unfoldable pub sort_by_recent : List Conversation → List Conversation
unfolding insert_by_recent
sort_by_recent [] = []
sort_by_recent (c ∷ rest) = insert_by_recent c (sort_by_recent rest)
