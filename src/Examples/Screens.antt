-- ===== src/Examples/Screens.antt =====
-- Examples for what is on the screen.
use axiom_ai.Json.{Json, str, arr, of_items, obj, field, end}
use axiom_ai.Bubble.{Bubble}
use axiom_ai.Types.{Message}
use axiom_ai.Common.{true, false, none, some, [], ◌∷◌, Text, codes, text_eq, ◌≡◌, ◌⊎◌, refl}
use axiom_ai.Types.{Conversation}
use axiom_ai.Conversations.Lists.{has}
use axiom_ai.ChatApp.{active_conversation, messages, handle_submit}
use axiom_ai.ChatApp.Answer.{run_of}
use axiom_ai.ChatApp.View.{view}
use axiom_ai.ChatApp.Valid.{IsValid}
use axiom_ai.ChatApp.Buttons.{IsStarted, send_disabled-handle_submit}
use axiom_ai.Examples.Fixtures.{ann, reply, chat, fresh}

-- A letter of the alphabet in upper case.
abbrev same_case : Text → Text
same_case t = t

chat-IsValid : IsValid chat
unfolding text_eq has
chat-IsValid = record {
  open_id = codes "c1";
  active = refl;
  listed = refl;
  distinct = ((refl, tt), (tt, tt));
}

send_disabled-handle_submit_example :
    (((view same_case (some ann) chat).send_disabled ≡ true)
      × (handle_submit fresh chat ≡ (chat, none)))
    ⊎ (((view same_case (some ann) chat).send_disabled ≡ false)
        × ((c : Conversation) × (active_conversation chat ≡ some c)
            × IsStarted
                (run_of (codes "and then?") (messages chat) fresh c)
                (handle_submit fresh chat))
        × ((view same_case (some ann) (handle_submit fresh chat).0).stop_button ≡ true))
send_disabled-handle_submit_example =
    send_disabled-handle_submit same_case (some ann) fresh chat chat-IsValid

-- An answer with two sources.
abbrev first_source : Json
first_source = obj (field (codes "file") (str (codes "a.pdf")) end)

abbrev second_source : Json
second_source = obj (field (codes "text") (str (codes "so")) end)

abbrev cited_reply : Message
cited_reply = record reply { citations = some (arr (of_items (first_source ∷ second_source ∷ []))) }

abbrev first_open : Bubble
first_open = record { expanded = some 0; copied = false; timers = 0 }
