-- ===== src/Conversations/Storage.antt =====
-- Conversations in `localStorage`: saved and loaded again, and each user apart from the others.
use axiom_ai.Common.{List, [], ◌∷◌, map, Text, ◌≡◌, ◌≢◌, refl, arith, append_cancel_left, codes}
use axiom_ai.Json.{arr, of_items, JsonCodec}
use axiom_ai.Browser.{Browser, get_item, set_item}
use axiom_ai.Browser.Laws.{lookup-insert_self, lookup-insert_ne}
use axiom_ai.Types.{Conversation}
use axiom_ai.Types.Encode.{conversation_json, items-of_items, conversation_round}
use axiom_ai.SessionStorage.{IsFaithful, session_key, clear_session}
use axiom_ai.SessionStorage.Laws.{IsOpen, truthy_of_faithful, lookup-clear_session}
use axiom_ai.Conversations.{
  storage_key, array_or_empty, read_conversations, load_conversations, save_conversations,
  cast_conversations,
}

pub storage_key_injective : (u v : Text) → storage_key u ≡ storage_key v → u ≡ v
unfolding storage_key
storage_key_injective u v e = append_cancel_left (codes "axiom-ai-conversations:") u v e

pub session_key-ne-storage_key : (u : Text) → session_key ≢ storage_key u
unfolding storage_key
session_key-ne-storage_key u e = cc

pub cast_conversations_round :
    (cs : List Conversation) → cast_conversations (map conversation_json cs) ≡ cs
cast_conversations_round [] = refl
cast_conversations_round (c ∷ cs) = simp (conversation_round c, cast_conversations_round cs)

module _ (codec : JsonCodec) where
  pub IsOpen-save_conversations :
      (b : Browser) (user_id : Text) (cs : List Conversation)
      → IsOpen b
      → IsOpen (save_conversations codec b user_id cs)
  unfolding save_conversations set_item
  IsOpen-save_conversations b user_id cs h = ground arith

  -- In an open browser the list that was saved for a user is loaded again: the very JSON that was
  -- written, which reads as the same conversations.
  pub load_conversations-save_conversations :
      (b : Browser) (user_id : Text) (cs : List Conversation)
      → IsOpen b
      → IsFaithful codec (arr (of_items (map conversation_json cs)))
      → let loaded = load_conversations codec (save_conversations codec b user_id cs) user_id in
        (loaded ≡ map conversation_json cs) × (cast_conversations loaded ≡ cs)
  unfolding load_conversations save_conversations get_item set_item read_conversations
      array_or_empty
  load_conversations-save_conversations b user_id cs ready h =
      let v = arr (of_items (map conversation_json cs)) in
      ground (
        arith,
        lookup-insert_self (storage_key user_id) (codec.stringify v) b.stored,
        truthy_of_faithful codec v h,
        items-of_items (map conversation_json cs),
        cast_conversations_round cs,
      )

  -- Saving for one user changes nothing that another one loads, in any browser.
  pub load_conversations-save_conversations_ne :
      (b : Browser) (u v : Text) (cs : List Conversation)
      → u ≢ v
      → load_conversations codec (save_conversations codec b u cs) v ≡ load_conversations codec b v
  unfolding load_conversations save_conversations get_item set_item
  load_conversations-save_conversations_ne b u v cs h = ground (
    arith,
    lookup-insert_ne (storage_key u) (storage_key v)
        (codec.stringify (arr (of_items (map conversation_json cs)))) b.stored
        (λ e. h (storage_key_injective u v e)),
  )

  -- Signing out forgets the session and no conversation.
  pub load_conversations-clear_session :
      (b : Browser) (u : Text)
      → load_conversations codec (clear_session b) u ≡ load_conversations codec b u
  unfolding load_conversations clear_session get_item
  load_conversations-clear_session b u =
      ground (arith, lookup-clear_session b (storage_key u) (session_key-ne-storage_key u))
