-- ===== src/ChatApp/Rows.antt =====
-- The rows of the sidebar.
use axiom_ai.Common.{
  false, Option, some, List, [], ◌∷◌, map, filter, find, IsNew, IsDistinct, Text, text_eq, ◌≡◌,
  refl, sym, ◌∙◌, Bool-cases, inl, inr, arith, text_eq_iff,
}
use axiom_ai.Types.{Conversation, User}
use axiom_ai.Sidebar.{row, sidebar}
use axiom_ai.Conversations.Lists.{ids, lookup}
use axiom_ai.ChatApp.{Chat, active_conversation}
use axiom_ai.ChatApp.Valid.{IsValid}
use axiom_ai.ChatApp.View.{view}
use axiom_ai.ChatApp.Buttons.{IsValid-active}

unmarked : (s t : Text) → text_eq s t ≡ false → text_eq t s ≡ false
unmarked s t h = ground (arith, text_eq_iff s t, text_eq_iff t s)

-- No row behind a row with the open id is marked.
no_active_row :
    (id : Text) (cs : List Conversation)
    → IsNew id (ids cs)
    → filter (λ r. r.is_active) (map (row (some id)) cs) ≡ []
unfolding filter row
no_active_row id [] h = refl
no_active_row id (c ∷ cs) h = let other = unmarked id c.id h.0 in rw other (no_active_row id cs h.1)

some_cancel : (c d : Conversation) → some c ≡ some d → c ≡ d
some_cancel c d e = cc

active_rows :
    (id : Text) (cs : List Conversation) (c : Conversation)
    → IsDistinct (ids cs)
    → lookup id cs ≡ some c
    → filter (λ r. r.is_active) (map (row (some id)) cs) ≡ row (some id) c ∷ []
unfolding filter row find
active_rows id [] c distinct there = cc
active_rows id (d ∷ cs) c distinct there = elim (Bool-cases (text_eq d.id id)) [
  | inl shown ↦
      let first : lookup id (d ∷ cs) ≡ some d = rw shown refl in
      let same : d ≡ c = some_cancel d c (sym first ∙ there) in
      let e = (text_eq_iff d.id id).0 shown in
      rw (sym same) (rw (shown, no_active_row id cs (rw (sym e) distinct.0)) refl)
  | inr other ↦
      let skipped : lookup id (d ∷ cs) ≡ lookup id cs = rw other refl in
      rw other (active_rows id cs c distinct.1 (sym skipped ∙ there))
]

active_row :
    (s : Chat) (id : Text) (c : Conversation)
    → s.active_id ≡ some id
    → IsDistinct (ids s.conversations)
    → active_conversation s ≡ some c
    → filter (λ r. r.is_active) (map (row s.active_id) s.conversations) ≡ row s.active_id c ∷ []
unfolding active_conversation
active_row s id c active distinct shown =
    let same : active_conversation s ≡ lookup id s.conversations = rw active refl in
    rw active (active_rows id s.conversations c distinct (sym same ∙ shown))

module _ (upper : Text → Text) (u : Option User) where
  -- In a valid chat the sidebar marks exactly one row: that of the conversation that is shown, whose
  -- title is the one in the header.
  one_active_row :
      (s : Chat)
      → IsValid s
      → (c : Conversation) × (active_conversation s ≡ some c)
        × ((view upper u s).title ≡ c.title)
        × (filter (λ r. r.is_active) (view upper u s).sidebar.rows ≡ row s.active_id c ∷ [])
  unfolding view sidebar
  one_active_row s v =
      let (c, shown) = IsValid-active s v in
      (c, shown, rw shown refl, active_row s v.open_id c v.active v.distinct shown)
