-- ===== src/ChatApp/View.antt =====
-- What frontend/src/components/ChatApp.tsx puts on the screen for a state: its texts and which buttons
-- there are.
use axiom_ai.Common.{
  Bool, false, not, ◌&&◌, ◌||◌, Option, none, some, List, [], ◌∷◌, ◌++◌, any, or_else, map_option,
  if◌then◌else◌, Text, codes, text_eq, text_truthy, trim, split_spaces,
}
use axiom_ai.Types.{Message, User}
use axiom_ai.Sidebar.{Sidebar, sidebar, initials_of}
use axiom_ai.ChatApp.{Chat, active_conversation, messages, is_user}

-- The greeting and the example prompts are there only while there are no messages.
pub record View : Type 0 where
  pub sidebar : Sidebar
  pub title : Text
  pub greeting : Text
  pub prompts : List (Text × Text)
  pub bubbles : List Message
  pub initials : Text
  pub composing : Bool
  pub regenerate_button : Bool
  pub stop_button : Bool
  pub send_disabled : Bool

abbrev first_piece : List Text → Text
first_piece [] = []
first_piece (p ∷ ps) = p

-- `user?.name?.trim().split(/\s+/)[0] ?? ""`
unfoldable pub first_name : Option User → Text
unfolding split_spaces trim
first_name none = []
first_name (some u) = first_piece (split_spaces false (trim u.name))

unfoldable pub greeting : Text → Text
greeting first = if text_truthy first then codes "Hello, " ++ first ++ codes "." else codes "Hello."

unfoldable pub last_message : List Message → Option Message
last_message [] = none
last_message (m ∷ ms) = let later = last_message ms in elim ms [ [] ↦ some m | _ ∷ _ ↦ later ]

abbrev is_blank_answer : Option Message → Bool
is_blank_answer none = false
is_blank_answer (some m) = text_eq m.content []

-- The labels and the prompts of the examples; a click sends the prompt.
abbrev pub example_prompts : List (Text × Text)
example_prompts =
    (codes "Summarize the corpus", codes "Summarize the key findings in the indexed documents.")
    ∷ (codes "Explain a concept", codes "What does the Eyring equation describe?")
    ∷ (
      codes "Walk through a procedure",
      codes "Explain the synthesis of catalyst C-104 step by step.",
    )
    ∷ []

abbrev when_empty {ℓ} : {A : Type ℓ} → List Message → List A → List A
when_empty [] shown = shown
when_empty (_ ∷ _) shown = []

unfoldable pub view : (Text → Text) → Option User → Chat → View
unfolding messages sidebar first_name greeting last_message initials_of any
view upper u s = record {
  sidebar = sidebar upper u s.conversations s.active_id s.is_sidebar_open;
  title = or_else (map_option (λ c. c.title) (active_conversation s)) (codes "New chat");
  greeting = when_empty (messages s) (greeting (first_name u));
  prompts = when_empty (messages s) example_prompts;
  bubbles = messages s;
  initials = initials_of upper (map_option (λ w. w.name) u);
  composing = s.is_streaming && is_blank_answer (last_message (messages s));
  regenerate_button = not s.is_streaming && any (λ m. is_user m.role) (messages s);
  stop_button = s.is_streaming;
  send_disabled = s.is_streaming || not (text_truthy (trim s.input));
}
