-- ===== src/ChatApp/Saving.antt =====
-- The effects of frontend/src/components/ChatApp.tsx that load and save the conversations: a
-- mounted chat, its browser, and the timer of 300 ms that a changed list starts. React runs the
-- effects of a commit and the commit that they ask for with no timer in between, so a change of
-- user is one event.
use axiom_ai.Common.{
  ℕ, Bool, true, false, Option, none, some, List, [], ◌∷◌, if◌then◌else◌, Text, ◌≡◌,
}
use axiom_ai.Json.{Json, JsonCodec, arr, of_items}
use axiom_ai.Common.{map}
use axiom_ai.Browser.{Browser}
use axiom_ai.Types.{Conversation}
use axiom_ai.Types.Encode.{conversation_json}
use axiom_ai.SessionStorage.{IsFaithful}
use axiom_ai.Conversations.{load_conversations, save_conversations, cast_conversations}
use axiom_ai.ChatApp.{Chat, switch_user}
use axiom_ai.ChatApp.Steps.{Step}

-- `pending` is what the timer will save, and for whom.
pub record Mounted : Type 0 where
  pub chat : Chat
  pub browser : Browser
  pub pending : Option (Text × List Conversation)

-- The saving effect, behind the cleanup of the one before it.
unfoldable pub schedule : Text → List Conversation → Option (Text × List Conversation)
schedule user_id [] = none
schedule user_id (c ∷ cs) = some (user_id, c ∷ cs)

-- A commit; the flag says that React found another list or another user than at the last one.
unfoldable pub commit : Bool → Chat → Mounted → Mounted
unfolding schedule
commit changed chat m = record m {
  chat = chat;
  pending = if changed then schedule chat.user_id chat.conversations else m.pending;
}

-- The cleanup when the chat leaves the screen.
unfoldable pub unmount : Mounted → Mounted
unmount m = record m { pending = none }

-- What is written for a list of conversations.
abbrev pub saved_json : List Conversation → Json
saved_json cs = arr (of_items (map conversation_json cs))

module _ (codec : JsonCodec) where
  -- What the loading effect makes of the chat, given what is stored for the user.
  unfoldable pub load_user : Text → Text → ℕ → Browser → Chat → Chat
  unfolding switch_user load_conversations
  load_user user_id id now b s =
      switch_user user_id (cast_conversations (load_conversations codec b user_id)) id now s

  -- The timer runs out.
  unfoldable pub fire : Mounted → Mounted
  unfolding save_conversations
  fire m = elim m.pending [
    | none ↦ m
    | some (user_id, conversations) ↦ record m {
      browser = save_conversations codec m.browser user_id conversations;
      pending = none;
    }
  ]

  -- What happens to a mounted chat: its own events, each with its commit, and the timer.
  module _ (coerce : Json → Text) where
    pub data Event : Mounted → Mounted → Type 0 where
      rendered : (m : Mounted) {t : Chat} → Step coerce m.chat t → Event m (commit true t m)
      unchanged :
          (m : Mounted) {t : Chat}
          → Step coerce m.chat t
          → t.user_id ≡ m.chat.user_id
          → t.conversations ≡ m.chat.conversations
          → Event m (commit false t m)
      timeout :
          (m : Mounted) (u : Text) (cs : List Conversation)
          → m.pending ≡ some (u, cs)
          → IsFaithful codec (saved_json cs)
          → Event m (fire m)

    pub data Run (m : Mounted) : Mounted → Type 0 where
      here : Run m m
      next : {n o : Mounted} → Run m n → Event n o → Run m o
