-- ===== src/Examples/Chatting.antt =====
-- Examples for the chat and its events.
use axiom_ai.Browser.{get_item, lookup as lookup_item}
use axiom_ai.ChatApp.Private
use axiom_ai.ChatApp.Private.{IsApart, conversations_private}
use axiom_ai.ChatApp.Owners.{AllOf}
use axiom_ai.ChatApp.Steps.{switched}
use axiom_ai.Common.{ℕ, Text, true, List, arith}
use axiom_ai.Json.{JsonCodec}
use axiom_ai.Types.{Conversation}
use axiom_ai.Conversations.{load_conversations, sort_by_recent}
use axiom_ai.ChatApp.Saving
use axiom_ai.ChatApp.Saving.{Mounted, commit, load_user, fire, saved_json}
use axiom_ai.ChatApp.Durable.{
  opened, reload-fire, opened-IsDurable, Run-IsDurable, unmount_loses_change,
}
use axiom_ai.ChatApp.{handle_new_chat}
use axiom_ai.ChatApp.Steps.{created}
use axiom_ai.Conversations.{create_conversation}
use axiom_ai.Common.{map, any}
use axiom_ai.Conversations.Lists.{has}
use axiom_ai.ChatApp.Saving.{unmount}
use axiom_ai.Types.Encode.{conversation_json}
use axiom_ai.Examples.Fixtures.{constant_codec, empty_browser, empty-IsOpen}
use axiom_ai.Common.{[], ◌∷◌, codes, text_eq, trim, ◌≡◌, refl, find, if◌then◌else◌}
use axiom_ai.ChatApp.{
  Chat, Fresh, Run, ask, active_conversation, switch_user, send, set_input, handle_stop,
  handle_submit,
}
use axiom_ai.Stream.{on_done}
use axiom_ai.ChatApp.Answer.{run_of}
use axiom_ai.ChatApp.Races.{Busy, run_asked, run_called, run_ended, finish_lifts_guard}
use axiom_ai.ChatApp.Steps.{typed, submitted, stopped, here, next, IsSound, mounted-IsSound}
use axiom_ai.Examples.Fixtures.{as_string, talk, two_talks, chat, fresh, later}

-- Three questions of one chat.
abbrev latest : Fresh
latest = record later { user_message_id = codes "q4"; assistant_message_id = codes "a4" }

abbrev after_one : Conversation
after_one = ask (codes "one") [] fresh talk

abbrev run_one : Run
run_one = run_of (codes "one") [] fresh talk

abbrev run_two : Run
run_two = run_of (codes "two") [] later after_one

abbrev both : Busy
both =
    run_asked (codes "two") [] later
      (run_called as_string run_one on_done (run_asked (codes "one") [] fresh (chat, [])))

abbrev last : Busy
last = run_asked (codes "three") [] latest (run_ended run_one both)

finish_lifts_guard_example :
    (both.1 ≡ run_two ∷ run_one ∷ [])
    × (run_asked (codes "three") [] latest both ≡ both)
    × (last.1
        ≡ run_of (codes "three") [] latest (ask (codes "two") [] later after_one) ∷ run_two ∷ [])
    × ((handle_stop last.0).aborted ≡ codes "a4" ∷ chat.aborted)
unfolding trim text_eq active_conversation find
finish_lifts_guard_example =
    finish_lifts_guard as_string (codes "one") (codes "two") (codes "three") [] [] [] fresh later
      latest chat talk refl refl refl refl refl refl

-- The chat of a user who is shown two stored conversations, types a question, sends it and stops.
abbrev mounted : Chat
mounted = switch_user (codes "u1") two_talks (codes "c9") 7 chat

abbrev stopped_chat : Chat
stopped_chat =
    handle_stop
      (send (set_input (codes "hello") mounted).input fresh (set_input (codes "hello") mounted)).0

mounted-IsSound_example : IsSound stopped_chat
unfolding text_eq send handle_submit
mounted-IsSound_example =
    mounted-IsSound as_string chat (codes "u1") two_talks (codes "c9") 7 ((refl, tt), (tt, tt))
      ((refl, refl, tt), (tt, tt))
      (next
        (next (next here (typed mounted (codes "hello")))
          (submitted (set_input (codes "hello") mounted) fresh))
        (stopped
          (send (set_input (codes "hello") mounted).input fresh
            (set_input (codes "hello") mounted)).0))

-- A chat opens on an empty browser, another chat is made, and the timer is pending.
abbrev both_blank : List Conversation
both_blank = create_conversation (codes "c8") 9 ∷ create_conversation (codes "c9") 7 ∷ []

abbrev blank_codec : JsonCodec
blank_codec = constant_codec (saved_json both_blank)

abbrev opened_chat : Mounted
opened_chat = opened blank_codec (codes "u1") (codes "c9") 7 empty_browser chat

abbrev changed_chat : Mounted
changed_chat = commit true (handle_new_chat (codes "c8") 9 opened_chat.chat) opened_chat

reload-fire_example :
    ((new_id : Text) (later : ℕ) (s : Chat)
      → (load_user blank_codec
          (codes "u1")
          new_id
          later
          (fire blank_codec changed_chat).browser
          s).conversations
        ≡ sort_by_recent both_blank)
    × (load_conversations blank_codec (fire blank_codec changed_chat).browser (codes "u2")
        ≡ load_conversations blank_codec empty_browser (codes "u2"))
unfolding load_user commit sort_by_recent handle_new_chat create_conversation any text_eq has
reload-fire_example =
    reload-fire blank_codec as_string (codes "u1") (codes "c9") 7 empty_browser chat (codes "u2")
      empty-IsOpen (record { distinct = tt; turns = tt })
      (Saving.next Saving.here
        (Saving.rendered opened_chat (created opened_chat.chat (codes "c8") 9 refl)))
      (record { round_trip = refl; empty_throws = refl }) (λ e. ground arith)

-- The new chat is lost where the chat leaves the screen at once.
abbrev saved_chat : Mounted
saved_chat = fire blank_codec changed_chat

unmount_loses_change_example :
    load_conversations blank_codec
      (fire blank_codec (
        unmount (commit true (handle_new_chat (codes "c7") 11 saved_chat.chat) saved_chat))).browser
      (codes "u1")
    ≡ map conversation_json both_blank
unfolding load_user commit sort_by_recent handle_new_chat create_conversation any text_eq has fire
unmount_loses_change_example =
    unmount_loses_change blank_codec saved_chat (handle_new_chat (codes "c7") 11 saved_chat.chat)
      (Run-IsDurable blank_codec as_string
        (opened-IsDurable blank_codec as_string (codes "u1") (codes "c9") 7 empty_browser chat
          empty-IsOpen (record { distinct = tt; turns = tt }))
        (Saving.next
          (Saving.next Saving.here
            (Saving.rendered opened_chat (created opened_chat.chat (codes "c8") 9 refl)))
          (Saving.timeout changed_chat (codes "u1") both_blank refl
            (record { round_trip = refl; empty_throws = refl }))))
      refl refl

-- Another user signs in before the timer runs out.
abbrev owner_of : Text → Text
owner_of i = if text_eq i (codes "c5") then codes "u2" else codes "u1"

empty-IsApart : IsApart blank_codec owner_of empty_browser
unfolding load_conversations get_item lookup_item
empty-IsApart v = tt

abbrev switched_chat : Mounted
switched_chat =
    commit true (switch_user (codes "u2") [] (codes "c5") 12 changed_chat.chat) changed_chat

conversations_private_example :
    AllOf owner_of (codes "u2") switched_chat.chat.conversations
    × IsApart blank_codec owner_of switched_chat.browser
unfolding load_user commit sort_by_recent handle_new_chat create_conversation any text_eq has
    switch_user load_conversations get_item lookup_item
conversations_private_example =
    conversations_private blank_codec owner_of as_string (codes "u1") (codes "c9") 7 empty_browser
      chat empty-IsOpen empty-IsApart refl
      (Private.next
        (Private.next Private.here
          (Saving.rendered opened_chat (created opened_chat.chat (codes "c8") 9 refl)) refl)
        (Saving.rendered changed_chat
          (switched changed_chat.chat (codes "u2") [] (codes "c5") 12 tt tt))
        (refl, refl))
