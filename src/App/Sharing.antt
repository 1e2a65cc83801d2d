-- ===== src/App/Sharing.antt =====
-- The session and the conversations share the browser: no event of the one touches the other.
use axiom_ai.Common.{
  List, Text, text_eq, text_eq_iff, ◌≡◌, inl, inr, refl, arith, ap, sym, ◌∙◌, Bool-cases,
}
use axiom_ai.Json.{Json, JsonCodec}
use axiom_ai.Browser.{Browser, get_item, set_item}
use axiom_ai.Browser.Laws.{lookup-insert_ne}
use axiom_ai.Types.{Conversation, StoredSession}
use axiom_ai.SessionStorage.{stored_session, load_session, save_session, session_key, IsFaithful}
use axiom_ai.SessionStorage.Laws.{IsOpen, lookup-save_session}
use axiom_ai.Conversations.{storage_key, load_conversations, save_conversations, cast_conversations}
use axiom_ai.Conversations.Storage.{
  session_key-ne-storage_key, load_conversations-clear_session, cast_conversations_round,
}
use axiom_ai.AuthProvider.{Auth, refresh_settled, on_storage, sign_in, sign_out}
use axiom_ai.AuthProvider.Steps
use axiom_ai.AuthProvider.Steps.{
  asked, renewed, denied, failed, entered, refused, left, session_elsewhere, other_elsewhere,
}
use axiom_ai.AuthProvider.Sync.{refresh_keeps}
use axiom_ai.ChatApp.Saving.{Mounted, commit, fire, saved_json, Event, rendered, unchanged, timeout}
use axiom_ai.ChatApp.Durable.{IsDurable, IsStored, load-fire, load-fire_ne, fire_pending}
use axiom_ai.App.{Page, mounted, IsAlone}

-- Renewing, adopting and clearing a session touches no conversation.
module _ (codec : JsonCodec) where
  load_conversations-save_session :
      (b : Browser) (s : StoredSession) (u : Text)
      → load_conversations codec (save_session codec b s) u ≡ load_conversations codec b u
  unfolding load_conversations save_session get_item set_item
  load_conversations-save_session b s u =
      ground (arith, lookup-save_session codec b s (storage_key u) (session_key-ne-storage_key u))

  pub load_conversations-Step :
      {a b : Auth} (step : Steps.Step codec a b)
      → IsAlone codec step
      → (u : Text) → load_conversations codec b.browser u ≡ load_conversations codec a.browser u
  unfolding refresh_settled sign_in sign_out on_storage
  load_conversations-Step (asked a) alone u =
      ap (λ c. load_conversations codec c u) (refresh_keeps codec a).1
  load_conversations-Step (renewed a token s flying issued) alone u =
      load_conversations-save_session a.browser s u
  load_conversations-Step (denied a token message flying) alone u =
      load_conversations-clear_session codec a.browser u
  load_conversations-Step (failed a token flying) alone u =
      load_conversations-clear_session codec a.browser u
  load_conversations-Step (entered a s issued) alone u =
      load_conversations-save_session a.browser s u
  load_conversations-Step (refused a message) alone u = refl
  load_conversations-Step (left a) alone u = load_conversations-clear_session codec a.browser u
  load_conversations-Step (session_elsewhere a b ready new) alone u = alone u
  load_conversations-Step (other_elsewhere a b key ready other same) alone u =
      rw (other, on_storage) (alone u)

  -- Saving conversations touches no session.
  stored_session-save_conversations :
      (b : Browser) (u : Text) (cs : List Conversation)
      → stored_session codec (save_conversations codec b u cs) ≡ stored_session codec b
  unfolding stored_session load_session save_conversations get_item set_item
  stored_session-save_conversations b u cs = ground (
    arith,
    lookup-insert_ne (storage_key u) session_key (codec.stringify (saved_json cs)) b.stored
        (λ e. session_key-ne-storage_key u (sym e)),
  )

  pub IsStored-of_load :
      (u : Text) (b c : Browser)
      → load_conversations codec c u ≡ load_conversations codec b u
      → IsStored codec u b
      → IsStored codec u c
  IsStored-of_load u b c same h = record { distinct = rw same h.distinct; turns = rw same h.turns }

  pub IsDurable-of_browser :
      (b c : Browser) (p : Page)
      → IsOpen c
      → load_conversations codec c p.shown.user_id ≡ load_conversations codec b p.shown.user_id
      → IsDurable codec (mounted b p)
      → IsDurable codec (mounted c p)
  IsDurable-of_browser b c p ready same h = record {
    ready = ready;
    sound = h.sound;
    kept = elim h.kept [ inl waits ↦ inl waits | inr (idle, stored) ↦ inr (idle, same ∙ stored) ];
  }

  IsStored-load-fire :
      (m : Mounted) (u : Text)
      → IsFaithful codec (saved_json m.chat.conversations)
      → IsDurable codec m
      → IsStored codec u m.browser
      → IsStored codec u (fire codec m).browser
  IsStored-load-fire m u faithful h stored = elim (Bool-cases (text_eq m.chat.user_id u)) [
    | inl mine ↦
        let same : m.chat.user_id ≡ u = (text_eq_iff m.chat.user_id u).0 mine in
        let loaded : cast_conversations (load_conversations codec (fire codec m).browser u)
            ≡ m.chat.conversations =
          ap (λ v. cast_conversations (load_conversations codec (fire codec m).browser v))
            (sym same)
          ∙ ap cast_conversations (load-fire codec m faithful h)
          ∙ cast_conversations_round m.chat.conversations in
        record { distinct = rw loaded h.sound.valid.distinct; turns = rw loaded h.sound.turns }
    | inr other ↦
        IsStored-of_load u m.browser (fire codec m).browser
          (load-fire_ne codec m u h (λ e. ground (arith, text_eq_iff m.chat.user_id u))) stored
  ]

  -- What an event of the chat may do to the browser.
  pub record Spares (m n : Mounted) : Type 0 where
    pub session : stored_session codec n.browser ≡ stored_session codec m.browser
    pub stored : (u : Text) → IsStored codec u m.browser → IsStored codec u n.browser

  pub Event-Spares :
      (coerce : Json → Text) {m n : Mounted}
      → Event codec coerce m n
      → IsDurable codec m
      → Spares m n
  unfolding commit
  Event-Spares coerce (rendered m step) h = record { session = refl; stored = λ u k. k }
  Event-Spares coerce (unchanged m step u c) h = record { session = refl; stored = λ u k. k }
  Event-Spares coerce (timeout m u cs e faithful) h = elim h.kept [
    | inl waits ↦
        let same : cs ≡ m.chat.conversations = cc in
        record {
          session =
              ap (λ (n : Mounted). stored_session codec n.browser) (fire_pending codec m u cs e)
              ∙ stored_session-save_conversations m.browser u cs;
          stored = λ v. IsStored-load-fire m v (rw same at faithful) h;
        }
    | inr (idle, stored) ↦ cc
  ]
