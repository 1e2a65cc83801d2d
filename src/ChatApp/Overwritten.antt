-- ===== src/ChatApp/Overwritten.antt =====
-- Two tabs of one user: each saves the whole list that it holds, and neither hears of the other's.
use axiom_ai.Common.{ℕ, true, false, some, Text, ◌≡◌, inl, ap, sym, ◌∙◌, is_some}
use axiom_ai.Json.{JsonCodec}
use axiom_ai.SessionStorage.{IsFaithful}
use axiom_ai.Conversations.{sort_by_recent}
use axiom_ai.Conversations.Lists.{has}
use axiom_ai.ChatApp.{Chat}
use axiom_ai.ChatApp.Lookup.{has-lookup}
use axiom_ai.ChatApp.Steps.{IsSound}
use axiom_ai.ChatApp.Order.{lookup-sort_by_recent}
use axiom_ai.ChatApp.Saving.{Mounted, load_user, fire, saved_json}
use axiom_ai.ChatApp.Durable.{IsDurable, fire-IsDurable, load-fire, load_user-stored}

has-sort_by_recent :
    (i : Text) (s : Chat)
    → IsSound s
    → has i (sort_by_recent s.conversations) ≡ has i s.conversations
has-sort_by_recent i s h =
    has-lookup i (sort_by_recent s.conversations)
    ∙ ap is_some (lookup-sort_by_recent s.conversations i h.valid.distinct)
    ∙ sym (has-lookup i s.conversations)

module _ (codec : JsonCodec) where
  -- What a reload lists once a tab has saved.
  reload-has :
      (m : Mounted) (i id : Text) (now : ℕ) (s : Chat)
      → IsFaithful codec (saved_json m.chat.conversations)
      → IsDurable codec m
      → has i (load_user codec m.chat.user_id id now (fire codec m).browser s).conversations
        ≡ has i m.chat.conversations
  reload-has m i id now s faithful h =
      ap (has i) (
        load_user-stored codec m.chat (fire codec m).browser id now s h.sound
          (load-fire codec m faithful h))
      ∙ has-sort_by_recent i m.chat h.sound

  -- Two tabs of an open browser show the chat of one user, and each has a change to save. A
  -- conversation that only the first tab has is there for a reload once that tab has saved, and is
  -- gone once the second one has saved too.
  pub second_tab_overwrites :
      (m n : Mounted) (i id : Text) (now : ℕ) (s : Chat)
      → IsDurable codec m
      → IsFaithful codec (saved_json m.chat.conversations)
      → IsSound n.chat
      → IsFaithful codec (saved_json n.chat.conversations)
      → n.pending ≡ some (n.chat.user_id, n.chat.conversations)
      → n.chat.user_id ≡ m.chat.user_id
      → has i m.chat.conversations ≡ true
      → has i n.chat.conversations ≡ false
      → let first = fire codec m in
        let second = fire codec (record n { browser = first.browser }) in
        (has i (load_user codec n.chat.user_id id now first.browser s).conversations ≡ true)
        × (has i (load_user codec n.chat.user_id id now second.browser s).conversations ≡ false)
  second_tab_overwrites m n i id now s h faithful sound faithful' waits same there missing =
      let shared : Mounted = record n { browser = (fire codec m).browser } in
      let durable : IsDurable codec shared = record {
        ready = (fire-IsDurable codec m faithful h).ready;
        sound = sound;
        kept = inl waits;
      } in
      (
        ap (λ u. has i (load_user codec u id now (fire codec m).browser s).conversations) same
            ∙ reload-has m i id now s faithful h
            ∙ there,
        reload-has shared i id now s faithful' durable ∙ missing,
      )
