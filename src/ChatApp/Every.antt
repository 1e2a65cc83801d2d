-- ===== src/ChatApp/Every.antt =====
-- What holds of every conversation goes through the operations on the list.
use axiom_ai.Common.{
  some, List, [], ◌∷◌, All, find, filter, leb, Text, text_eq, ◌≡◌, Bool-cases, Option-cases, inl,
  inr,
}
use axiom_ai.Types.{Conversation}
use axiom_ai.Conversations.{
  has_id, upsert_conversation, delete_conversation, insert_by_recent, sort_by_recent,
}
use axiom_ai.Conversations.Lists.{has, lookup, replace, upsert-replace}
use axiom_ai.ChatApp.{update_conversation}

module _ (P : Conversation → Type 0) where
  pub All-lookup :
      (id : Text) (cs : List Conversation) (c : Conversation)
      → All P cs
      → lookup id cs ≡ some c
      → P c
  unfolding find
  All-lookup id [] c h e = cc
  All-lookup id (d ∷ cs) c h e = elim (Bool-cases (has_id id d)) [
    | inl here ↦ let shown = rw here at e in let same : d ≡ c = cc in rw same at (h.0)
    | inr later ↦ All-lookup id cs c h.1 (rw later at e)
  ]

  All-replace : (u : Conversation) (cs : List Conversation) → P u → All P cs → All P (replace u cs)
  unfolding replace
  All-replace u [] p h = tt
  All-replace u (c ∷ cs) p h = elim (Bool-cases (has_id u.id c)) [
    | inl same ↦ rw (same, replace) (p, h.1)
    | inr other ↦ rw (other, replace) (h.0, All-replace u cs p h.1)
  ]

  All-upsert_conversation :
      (cs : List Conversation) (u : Conversation)
      → P u
      → All P cs
      → All P (upsert_conversation cs u)
  All-upsert_conversation cs u p h = elim (Bool-cases (has u.id cs)) [
    | inl present ↦ rw (upsert-replace cs u, present) (All-replace u cs p h)
    | inr absent ↦ rw (upsert-replace cs u, absent) (p, h)
  ]

  pub All-update_conversation :
      (id : Text) (change : Conversation → Conversation) (cs : List Conversation)
      → ((c : Conversation) → P c → P (change c))
      → All P cs
      → All P (update_conversation id change cs)
  unfolding update_conversation
  All-update_conversation id change cs keeps h = elim (Option-cases (lookup id cs)) [
    | inl gone ↦ rw (gone, update_conversation) h
    | inr (c, there) ↦
        rw (there, update_conversation)
          (All-upsert_conversation cs (change c) (keeps c (All-lookup id cs c h there)) h)
  ]

  pub All-delete_conversation :
      (cs : List Conversation) (gone : Text) → All P cs → All P (delete_conversation cs gone)
  unfolding delete_conversation filter
  All-delete_conversation [] gone h = tt
  All-delete_conversation (c ∷ cs) gone h = elim (Bool-cases (text_eq c.id gone)) [
    | inl out ↦ rw (out, delete_conversation) (All-delete_conversation cs gone h.1)
    | inr stays ↦ rw (stays, delete_conversation) (h.0, All-delete_conversation cs gone h.1)
  ]

  All-insert_by_recent :
      (c : Conversation) (cs : List Conversation) → P c → All P cs → All P (insert_by_recent c cs)
  unfolding insert_by_recent
  All-insert_by_recent c [] p h = (p, tt)
  All-insert_by_recent c (d ∷ cs) p h = elim (Bool-cases (leb d.updated_at c.updated_at)) [
    | inl here ↦ rw here (p, h)
    | inr later ↦ rw later (h.0, All-insert_by_recent c cs p h.1)
  ]

  pub All-sort_by_recent : (cs : List Conversation) → All P cs → All P (sort_by_recent cs)
  unfolding sort_by_recent
  All-sort_by_recent [] h = tt
  All-sort_by_recent (c ∷ cs) h =
      All-insert_by_recent c (sort_by_recent cs) h.0 (All-sort_by_recent cs h.1)
