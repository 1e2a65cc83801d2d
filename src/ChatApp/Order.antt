-- ===== src/ChatApp/Order.antt =====
-- Looking up a conversation in a list: where it stands is of no account.
use axiom_ai.Common.{
  IsNew, IsDistinct, some, List, [], ◌∷◌, find, if◌then◌else◌, Text, text_eq, text_eq_iff,
  text_eq_refl, ◌≡◌, refl, arith, ap, ◌∙◌,
}
use axiom_ai.Types.{Conversation}
use axiom_ai.Conversations.{insert_by_recent, sort_by_recent}
use axiom_ai.Conversations.Lists.{ids, lookup}
use axiom_ai.ChatApp.Valid.{IsNew-sort}

pub lookup_head : (c : Conversation) (cs : List Conversation) → lookup c.id (c ∷ cs) ≡ some c
unfolding find
lookup_head c cs = rw (text_eq_refl c.id)

-- A new conversation with an id that is none of the others' ids may be put anywhere.
lookup-insert_by_recent :
    (c : Conversation) (cs : List Conversation) (j : Text)
    → IsNew c.id (ids cs)
    → lookup j (insert_by_recent c cs) ≡ (if text_eq c.id j then some c else lookup j cs)
unfolding insert_by_recent find
lookup-insert_by_recent c [] j h = refl
lookup-insert_by_recent c (d ∷ cs) j h = ground (
  arith,
  text_eq_iff c.id j,
  text_eq_iff d.id j,
  text_eq_iff c.id d.id,
  lookup-insert_by_recent c cs j h.1,
  h.0,
)

-- The order of a list of distinct ids is of no account.
pub lookup-sort_by_recent :
    (cs : List Conversation) (j : Text)
    → IsDistinct (ids cs)
    → lookup j (sort_by_recent cs) ≡ lookup j cs
unfolding sort_by_recent find
lookup-sort_by_recent [] j h = refl
lookup-sort_by_recent (c ∷ cs) j h =
    lookup-insert_by_recent c (sort_by_recent cs) j (IsNew-sort c.id cs h.0)
    ∙ ap (λ o. if text_eq c.id j then some c else o) (lookup-sort_by_recent cs j h.1)
