-- ===== src/ChatApp/Valid.antt =====
-- What holds of the chat between two events: a conversation is open, and no two share an id.
use axiom_ai.Common.{
  IsNew, IsDistinct, ℕ, true, false, ◌||◌, some, List, [], ◌∷◌, any, filter, leb, is_some, Text,
  text_eq, text_eq_iff, text_eq_refl, ◌≡◌, refl, arith, Bool-cases, inl, inr, ap, sym, ◌∙◌,
}
use axiom_ai.Types.{Conversation}
use axiom_ai.Conversations.{
  create_conversation, delete_conversation, insert_by_recent, sort_by_recent,
}
use axiom_ai.Conversations.Lists.{ids, has, lookup-delete_conversation}
use axiom_ai.ChatApp.{
  Chat, adopt_list, after_delete, switch_user, handle_new_chat, handle_select, handle_delete,
}
use axiom_ai.ChatApp.Lookup.{has-lookup}

pub record IsValid (s : Chat) : Type 0 where
  pub open_id : Text
  pub active : s.active_id ≡ some open_id
  pub listed : has open_id s.conversations ≡ true
  pub distinct : IsDistinct (ids s.conversations)

pub has-ids : (a : Text) (cs : List Conversation) → has a cs ≡ any (λ i. text_eq i a) (ids cs)
unfolding has any
has-ids a [] = refl
has-ids a (c ∷ cs) = ap (text_eq c.id a ||◌) (has-ids a cs)

-- The invariant speaks of the ids and of the open conversation alone.
pub IsValid-of_ids :
    (s t : Chat)
    → ids t.conversations ≡ ids s.conversations
    → t.active_id ≡ s.active_id
    → IsValid s
    → IsValid t
IsValid-of_ids s t same kept v = record {
  open_id = v.open_id;
  active = kept ∙ v.active;
  listed =
      has-ids v.open_id t.conversations
      ∙ ap (any (λ i. text_eq i v.open_id)) same
      ∙ sym (has-ids v.open_id s.conversations)
      ∙ v.listed;
  distinct = rw same v.distinct;
}

has_head : (c : Conversation) (cs : List Conversation) → has c.id (c ∷ cs) ≡ true
unfolding has any
has_head c cs = rw (text_eq_refl c.id)

-- `none` among the ids is the id.
IsNew-of_has : (id : Text) (cs : List Conversation) → has id cs ≡ false → IsNew id (ids cs)
unfolding has any
IsNew-of_has id [] h = tt
IsNew-of_has id (c ∷ cs) h =
    (ground (arith, text_eq_iff c.id id, text_eq_iff id c.id), IsNew-of_has id cs (ground arith))

-- A new chat is open, in front of the others.
pub handle_new_chat-IsValid :
    (s : Chat) (id : Text) (now : ℕ)
    → has id s.conversations ≡ false
    → IsValid s
    → IsValid (handle_new_chat id now s)
unfolding handle_new_chat
handle_new_chat-IsValid s id now new v = record {
  open_id = id;
  active = refl;
  listed = has_head (create_conversation id now) s.conversations;
  distinct = (IsNew-of_has id s.conversations new, v.distinct);
}

pub handle_select-IsValid :
    (s : Chat) (id : Text)
    → has id s.conversations ≡ true
    → IsValid s
    → IsValid (handle_select id s)
unfolding handle_select
handle_select-IsValid s id there v = record {
  open_id = id;
  active = refl;
  listed = there;
  distinct = v.distinct;
}

IsNew-delete :
    (i gone : Text) (cs : List Conversation)
    → IsNew i (ids cs)
    → IsNew i (ids (delete_conversation cs gone))
unfolding delete_conversation filter
IsNew-delete i gone [] h = tt
IsNew-delete i gone (c ∷ cs) h = elim (Bool-cases (text_eq c.id gone)) [
  | inl out ↦ rw (out, delete_conversation) (IsNew-delete i gone cs h.1)
  | inr stays ↦ rw (stays, delete_conversation) (h.0, IsNew-delete i gone cs h.1)
]

IsDistinct-delete :
    (gone : Text) (cs : List Conversation)
    → IsDistinct (ids cs)
    → IsDistinct (ids (delete_conversation cs gone))
unfolding delete_conversation filter
IsDistinct-delete gone [] h = tt
IsDistinct-delete gone (c ∷ cs) h = elim (Bool-cases (text_eq c.id gone)) [
  | inl out ↦ rw (out, delete_conversation) (IsDistinct-delete gone cs h.1)
  | inr stays ↦
      rw (stays, delete_conversation) (IsNew-delete c.id gone cs h.0, IsDistinct-delete gone cs h.1)
]

pub has-delete :
    (a gone : Text) (cs : List Conversation)
    → text_eq gone a ≡ false
    → has a cs ≡ true
    → has a (delete_conversation cs gone) ≡ true
has-delete a gone cs other there =
    has-lookup a (delete_conversation cs gone)
    ∙ ap is_some (lookup-delete_conversation cs gone a)
    ∙ rw other (sym (has-lookup a cs) ∙ there)

after_delete-IsValid :
    (s : Chat) (id a : Text) (next : List Conversation) (fresh : Conversation)
    → s.active_id ≡ some a
    → (text_eq id a ≡ false → has a next ≡ true)
    → IsDistinct (ids next)
    → IsValid (after_delete id next fresh s)
after_delete-IsValid s id a [] fresh e keeps d = record {
  open_id = fresh.id;
  active = refl;
  listed = has_head fresh [];
  distinct = (tt, tt);
}
after_delete-IsValid s id a (c ∷ cs) fresh e keeps d = elim (Bool-cases (text_eq id a)) [
  | inl same ↦ record {
    open_id = c.id;
    active = rw (e, same);
    listed = has_head c cs;
    distinct = d;
  }
  | inr other ↦ record { open_id = a; active = rw (e, other); listed = keeps other; distinct = d }
]

-- After a deletion another conversation is open, or a new one where none is left.
pub handle_delete-IsValid :
    (s : Chat) (id fresh_id : Text) (now : ℕ)
    → IsValid s
    → IsValid (handle_delete id fresh_id now s)
unfolding handle_delete
handle_delete-IsValid s id fresh_id now v =
    after_delete-IsValid s id v.open_id (delete_conversation s.conversations id)
      (create_conversation fresh_id now) v.active
      (λ other. has-delete v.open_id id s.conversations other v.listed)
      (IsDistinct-delete id s.conversations v.distinct)

IsNew-insert :
    (i : Text) (c : Conversation) (cs : List Conversation)
    → text_eq i c.id ≡ false
    → IsNew i (ids cs)
    → IsNew i (ids (insert_by_recent c cs))
unfolding insert_by_recent
IsNew-insert i c [] e h = (e, tt)
IsNew-insert i c (d ∷ cs) e h = elim (Bool-cases (leb d.updated_at c.updated_at)) [
  | inl here ↦ rw here (e, h)
  | inr later ↦ rw later (h.0, IsNew-insert i c cs e h.1)
]

IsDistinct-insert :
    (c : Conversation) (cs : List Conversation)
    → IsNew c.id (ids cs)
    → IsDistinct (ids cs)
    → IsDistinct (ids (insert_by_recent c cs))
unfolding insert_by_recent
IsDistinct-insert c [] n h = (tt, tt)
IsDistinct-insert c (d ∷ cs) n h = elim (Bool-cases (leb d.updated_at c.updated_at)) [
  | inl here ↦ rw here (n, h)
  | inr later ↦ rw later (
    IsNew-insert d.id c cs (ground (arith, text_eq_iff c.id d.id, text_eq_iff d.id c.id)) h.0,
    IsDistinct-insert c cs n.1 h.1,
  )
]

pub IsNew-sort :
    (i : Text) (cs : List Conversation) → IsNew i (ids cs) → IsNew i (ids (sort_by_recent cs))
unfolding sort_by_recent
IsNew-sort i [] h = tt
IsNew-sort i (c ∷ cs) h = IsNew-insert i c (sort_by_recent cs) h.0 (IsNew-sort i cs h.1)

IsDistinct-sort :
    (cs : List Conversation) → IsDistinct (ids cs) → IsDistinct (ids (sort_by_recent cs))
unfolding sort_by_recent
IsDistinct-sort [] h = tt
IsDistinct-sort (c ∷ cs) h =
    IsDistinct-insert c (sort_by_recent cs) (IsNew-sort c.id cs h.0) (IsDistinct-sort cs h.1)

adopt_list-IsValid :
    (cs : List Conversation) (fresh : Conversation) (s : Chat)
    → IsDistinct (ids cs)
    → IsValid (adopt_list cs fresh s)
adopt_list-IsValid [] fresh s h = record {
  open_id = fresh.id;
  active = refl;
  listed = has_head fresh [];
  distinct = (tt, tt);
}
adopt_list-IsValid (c ∷ cs) fresh s h = record {
  open_id = c.id;
  active = refl;
  listed = has_head c cs;
  distinct = h;
}

-- Whatever was there before, switching to a user opens a conversation.
pub switch_user-IsValid :
    (user_id : Text) (stored : List Conversation) (id : Text) (now : ℕ) (s : Chat)
    → IsDistinct (ids stored)
    → IsValid (switch_user user_id stored id now s)
unfolding switch_user
switch_user-IsValid user_id stored id now s h =
    adopt_list-IsValid (sort_by_recent stored) (create_conversation id now)
      (record s { user_id = user_id }) (IsDistinct-sort stored h)
