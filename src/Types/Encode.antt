-- ===== src/Types/Encode.antt =====
-- The JSON that `JSON.stringify` is given for a conversation or a session of
-- frontend/src/lib/types.ts, and the reading of a parsed value at those types. The code casts a
-- parsed value without a check, so a value of any shape is read: a property that is missing or has
-- another type reads as the empty text, the empty list or 0.
use axiom_ai.Common.{
  ℕ, Bool, true, false, Option, none, some, List, [], ◌∷◌, ◌≡◌, refl, Text, codes, map, text_eq,
}
use axiom_ai.Json.{
  Json, bool, num, str, arr, obj, Fields, end, field, of_items, items, prop, truthy,
}
use axiom_ai.Types.{Role, user, assistant, Message, Conversation}

as_text : Option Json → Text
as_text (some (str t)) = t
as_text _ = []

as_number : Option Json → ℕ
as_number (some (num n)) = n
as_number _ = 0

as_items : Option Json → List Json
as_items (some (arr vs)) = items vs
as_items _ = []

unfoldable pub text_prop : Text → Json → Text
unfolding prop as_text
text_prop k j = as_text (prop k j)

unfoldable pub number_prop : Text → Json → ℕ
unfolding prop as_number
number_prop k j = as_number (prop k j)

-- A property that is `undefined` is left out of the text.
optional : Text → Option Json → Fields → Fields
optional k none fs = fs
optional k (some v) fs = field k v fs

unfoldable pub role_text : Role → Text
role_text user = codes "user"
role_text assistant = codes "assistant"

-- The code asks only whether a role is "user".
unfoldable role_of_text : Text → Role
unfolding text_eq
role_of_text t = elim (text_eq t (codes "user")) [ true ↦ user | false ↦ assistant ]

error_mark : Bool → Option Json
error_mark true = some (bool true)
error_mark false = none

unfoldable pub message_json : Message → Json
unfolding optional role_text error_mark
message_json m = obj (
    field (codes "id") (str m.id) (
      field (codes "role") (str (role_text m.role)) (
        field (codes "content") (str m.content) (
          field (codes "createdAt") (num m.created_at) (
            optional (codes "citations") m.citations
              (optional (codes "isError") (error_mark m.is_error) end))))))

unfoldable pub message_of_json : Json → Message
unfolding text_prop number_prop role_of_text
message_of_json j = record {
  id = text_prop (codes "id") j;
  role = role_of_text (text_prop (codes "role") j);
  content = text_prop (codes "content") j;
  citations = prop (codes "citations") j;
  created_at = number_prop (codes "createdAt") j;
  is_error = truthy (prop (codes "isError") j);
}

unfoldable pub conversation_json : Conversation → Json
conversation_json c = obj (
    field (codes "id") (str c.id) (
      field (codes "title") (str c.title) (
        field (codes "messages") (arr (of_items (map message_json c.messages))) (
          field (codes "createdAt") (num c.created_at)
            (field (codes "updatedAt") (num c.updated_at) end)))))

unfoldable pub conversation_of_json : Json → Conversation
unfolding text_prop number_prop as_items
conversation_of_json j = record {
  id = text_prop (codes "id") j;
  title = text_prop (codes "title") j;
  messages = map message_of_json (as_items (prop (codes "messages") j));
  created_at = number_prop (codes "createdAt") j;
  updated_at = number_prop (codes "updatedAt") j;
}

pub items-of_items : (js : List Json) → items (of_items js) ≡ js
items-of_items [] = refl
items-of_items (j ∷ js) = λ i. j ∷ items-of_items js i

-- A message by its parts.
abbrev message : Text → Role → Text → Option Json → ℕ → Bool → Message
message i r c cs t e = record {
  id = i;
  role = r;
  content = c;
  citations = cs;
  created_at = t;
  is_error = e;
}

message_round_parts :
    (i c : Text) (t : ℕ) (r : Role) (cs : Option Json) (e : Bool)
    → message_of_json (message_json (message i r c cs t e)) ≡ message i r c cs t e
unfolding message_of_json message_json
message_round_parts i c t user none true = refl
message_round_parts i c t user none false = refl
message_round_parts i c t user (some v) true = refl
message_round_parts i c t user (some v) false = refl
message_round_parts i c t assistant none true = refl
message_round_parts i c t assistant none false = refl
message_round_parts i c t assistant (some v) true = refl
message_round_parts i c t assistant (some v) false = refl

message_round : (m : Message) → message_of_json (message_json m) ≡ m
message_round m = message_round_parts m.id m.content m.created_at m.role m.citations m.is_error

messages_round : (ms : List Message) → map message_of_json (map message_json ms) ≡ ms
messages_round [] = refl
messages_round (m ∷ ms) = simp (message_round m, messages_round ms)

pub conversation_round : (c : Conversation) → conversation_of_json (conversation_json c) ≡ c
unfolding conversation_of_json conversation_json
conversation_round c = simp (items-of_items, messages_round)
