-- ===== src/Examples/Overwriting.antt =====
-- An example for two tabs that save the conversations of one user.
use axiom_ai.Common.{
  true, false, Option, none, some, List, [], ◌∷◌, Text, codes, text_eq, any, ◌≡◌, refl,
}
use axiom_ai.Json.{Json, arr, nil, cons, JsonCodec}
use axiom_ai.Types.{Conversation}
use axiom_ai.Conversations.{create_conversation, sort_by_recent}
use axiom_ai.Conversations.Lists.{has}
use axiom_ai.ChatApp
use axiom_ai.ChatApp.{Chat, handle_new_chat}
use axiom_ai.ChatApp.Steps.{created}
use axiom_ai.ChatApp.Saving
use axiom_ai.ChatApp.Saving.{Mounted, commit, load_user, fire, saved_json}
use axiom_ai.ChatApp.Durable.{IsDurable, opened, opened-IsDurable, Run-IsDurable}
use axiom_ai.ChatApp.Overwritten.{second_tab_overwrites}
use axiom_ai.Examples.Fixtures.{as_string, empty_browser, empty-IsOpen}

abbrev one : List Conversation
one = create_conversation (codes "c9") 7 ∷ []

abbrev two : List Conversation
two = create_conversation (codes "c8") 9 ∷ one

-- A codec that knows both lists.
abbrev by_length : Json → Text
by_length (arr (cons v nil)) = codes "1"
by_length v = codes "22"

abbrev lists : Text → Option Json
lists [] = none
lists (a ∷ []) = some (saved_json one)
lists (a ∷ b ∷ t) = some (saved_json two)

abbrev list_codec : JsonCodec
list_codec = record { parse = lists; stringify = by_length }

-- Both tabs open on an empty browser, and the first one begins another chat.
abbrev second_tab : Mounted
second_tab =
    opened list_codec (codes "u1") (codes "c9") 7 empty_browser (ChatApp.start (codes "u1"))

abbrev first_tab : Mounted
first_tab = commit true (handle_new_chat (codes "c8") 9 second_tab.chat) second_tab

second-IsDurable : IsDurable list_codec second_tab
unfolding load_user
second-IsDurable =
    opened-IsDurable list_codec as_string (codes "u1") (codes "c9") 7 empty_browser
      (ChatApp.start (codes "u1")) empty-IsOpen (record { distinct = tt; turns = tt })

first-IsDurable : IsDurable list_codec first_tab
unfolding load_user sort_by_recent create_conversation has any text_eq commit
first-IsDurable = Run-IsDurable list_codec as_string second-IsDurable (
    Saving.next Saving.here
      (Saving.rendered second_tab (created second_tab.chat (codes "c8") 9 refl)))

second_tab_overwrites_example :
    let first = fire list_codec first_tab in
    let second = fire list_codec (record second_tab { browser = first.browser }) in
    let later = ChatApp.start (codes "u1") in
    (has
        (codes "c8")
        (load_user list_codec (codes "u1") (codes "c5") 20 first.browser later).conversations
      ≡ true)
    × (has
          (codes "c8")
          (load_user list_codec (codes "u1") (codes "c5") 20 second.browser later).conversations
        ≡ false)
unfolding load_user commit sort_by_recent handle_new_chat create_conversation has any text_eq
second_tab_overwrites_example =
    second_tab_overwrites list_codec first_tab second_tab (codes "c8") (codes "c5") 20
      (ChatApp.start (codes "u1")) first-IsDurable
      (record { round_trip = refl; empty_throws = refl }) second-IsDurable.sound
      (record { round_trip = refl; empty_throws = refl }) refl refl refl refl
