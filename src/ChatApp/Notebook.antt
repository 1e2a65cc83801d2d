-- ===== src/ChatApp/Notebook.antt =====
-- What the chat promises of its conversations, without their order: a notebook that holds them by
-- their ids and has one of them open.
use axiom_ai.Common.{
  ℕ, Bool, true, false, not, ◌&&◌, Option, none, some, List, [], ◌∷◌, ◌++◌, All, map_option,
  if◌then◌else◌, Text, codes, text_eq, text_truthy, trim, ◌≡◌, ◌≢◌, ◌⊎◌,
}
use axiom_ai.Json.{Json}
use axiom_ai.Types.{user, Message, Conversation}
use axiom_ai.Conversations.{create_conversation}
use axiom_ai.Conversations.Lists.{lookup}
use axiom_ai.Stream.{Call, on_token, on_sources, on_done, on_error}
use axiom_ai.ChatApp.{Chat, Run, Fresh, ask, amend, is_user}
use axiom_ai.ChatApp.Answer.{patched}
use axiom_ai.ChatApp.Steps.{
  Step, typed, shown, documents, created, selected, deleted, prompted, submitted, pressed,
  regenerated, called, ended, stopped, switched, Reach, here, next,
}

pub record Notebook : Type 0 where
  pub holds : Text → Option Conversation
  pub opened : Option Text
  pub streaming : Bool

abbrev pub notebook : Chat → Notebook
notebook s = record {
  holds = λ id. lookup id s.conversations;
  opened = s.active_id;
  streaming = s.is_streaming;
}

-- The notebook with the conversation `c` under an id, and without one.
abbrev pub with_at : Text → Option Conversation → Notebook → Text → Option Conversation
with_at id c n j = if text_eq id j then c else n.holds j

-- What is asked of the notebook.
pub data Action : Type 0 where
  resting : Action
  settling : Action
  creating : Text → ℕ → Action
  opening : Text → Action
  removing : Text → Text → ℕ → Action
  asking : Text → Fresh → Action
  asking_again : Fresh → Action
  hearing : Run → Call → Action
  loading : List Conversation → Text → ℕ → Action

abbrev streams_after : Call → Bool → Bool
streams_after (on_token v) streams = streams
streams_after (on_sources v) streams = streams
streams_after on_done streams = false
streams_after (on_error v) streams = false

module _ (n m : Notebook) where
  abbrev pub Keeps : Type 0
  Keeps = ((j : Text) → m.holds j ≡ n.holds j) × (m.opened ≡ n.opened)

  abbrev pub IsOpened : Conversation → Type 0
  IsOpened c = (n.opened ≡ some c.id) × (n.holds c.id ≡ some c)

  -- A new conversation is all there is.
  abbrev pub Begins : Text → ℕ → Type 0
  Begins id now =
      ((j : Text) → m.holds j ≡ (if text_eq id j then some (create_conversation id now) else none))
      × (m.opened ≡ some id)
      × (m.streaming ≡ n.streaming)

  -- Without the conversation `gone` there is none, and a new one takes its place; or else what was
  -- open stays open, or another one is where it was `gone`.
  abbrev pub Removes : Text → Text → ℕ → Type 0
  Removes gone id now =
      (((j : Text) → with_at gone none n j ≡ none) × Begins id now)
      ⊎ ((next : Text) × (c : Conversation) × ((j : Text) → m.holds j ≡ with_at gone none n j)
          × (m.opened ≡ some next)
          × (m.holds next ≡ some c)
          × ((a : Text) → n.opened ≡ some a → text_eq gone a ≡ false → next ≡ a)
          × (m.streaming ≡ n.streaming))

  -- A blank question, or one while an answer streams, is refused; any other one stands behind the
  -- messages `base` in the open conversation, and its answer streams.
  abbrev pub Asks : Text → List Message → Fresh → Conversation → Type 0
  Asks query base f c =
      (((text_truthy (trim query) ≡ false) ⊎ (n.streaming ≡ true))
        × Keeps
        × (m.streaming ≡ n.streaming))
      ⊎ ((text_truthy (trim query) ≡ true)
          × (n.streaming ≡ false)
          × ((j : Text) → m.holds j ≡ with_at c.id (some (ask query base f c)) n j)
          × (m.opened ≡ n.opened)
          × (m.streaming ≡ true))

  -- The last question of the open conversation is asked again behind what stood before it.
  abbrev pub AsksAgain : Fresh → Conversation → Type 0
  AsksAgain f c =
      (All (λ k. is_user k.role ≡ false) c.messages × Keeps × (m.streaming ≡ n.streaming))
      ⊎ ((before : List Message) × (q : Message) × (after : List Message) × (c.messages
            ≡ before ++ q ∷ after)
          × (q.role ≡ user)
          × All (λ k. is_user k.role ≡ false) after
          × Asks q.content before f c)

  -- The stored conversations, of which one is open, or a new one where none is stored.
  abbrev pub Loads : List Conversation → Text → ℕ → Type 0
  Loads stored id now =
      ((stored ≡ []) × Begins id now)
      ⊎ ((stored ≢ [])
          × ((j : Text) → m.holds j ≡ lookup j stored)
          × ((next : Text) × (c : Conversation) × (m.opened ≡ some next)
              × (lookup next stored ≡ some c))
          × (m.streaming ≡ n.streaming))

  -- What an action does to the notebook `n`, with `m` behind it.
  abbrev pub Move : (Json → Text) → Action → Type 0
  Move coerce resting = Keeps × (m.streaming ≡ n.streaming)
  Move coerce settling = Keeps × (m.streaming ≡ false)
  Move coerce (creating id now) =
      ((j : Text) → m.holds j ≡ with_at id (some (create_conversation id now)) n j)
      × (m.opened ≡ some id)
      × (m.streaming ≡ n.streaming)
  Move coerce (opening id) =
      ((j : Text) → m.holds j ≡ n.holds j) × (m.opened ≡ some id) × (m.streaming ≡ n.streaming)
  Move coerce (removing gone id now) = Removes gone id now
  Move coerce (asking query f) = (c : Conversation) × IsOpened c × Asks query c.messages f c
  Move coerce (asking_again f) = (c : Conversation) × IsOpened c × AsksAgain f c
  Move coerce (hearing run call) =
      ((j : Text)
        → m.holds j
          ≡ with_at run.conversation_id
              (map_option (patched run (amend coerce call)) (n.holds run.conversation_id)) n j)
      × (m.opened ≡ n.opened)
      × (m.streaming ≡ streams_after call n.streaming)
  Move coerce (loading stored id now) = Loads stored id now

-- One action after the other, the last one first.
unfoldable pub Moves : (Json → Text) → List Action → Notebook → Notebook → Type 0
Moves coerce [] n m = m ≡ n
Moves coerce (action ∷ actions) n m =
    (o : Notebook) × Moves coerce actions n o × Move o m coerce action

module _ (coerce : Json → Text) where
  -- What the events of the chat ask of the notebook. Enter without Shift sends the composer's text.
  abbrev pub action : {s t : Chat} → Step coerce s t → Action
  action (typed s text) = resting
  action (shown s open_bar) = resting
  action (documents s) = resting
  action (created s id now new) = creating id now
  action (selected s id there) = opening id
  action (deleted s gone id now) = removing gone id now
  action (prompted s prompt f) = asking prompt f
  action (submitted s f) = asking s.input f
  action (pressed s key shift f) =
      if text_eq key (codes "Enter") && not shift then asking s.input f else resting
  action (regenerated s f) = asking_again f
  action (called s run call) = hearing run call
  action (ended s) = settling
  action (stopped s) = settling
  action (switched s user_id stored id now distinct turns) = loading stored id now

  unfoldable pub actions : {s t : Chat} → Reach coerce s t → List Action
  unfolding text_eq
  actions here = []
  actions (next r step) = action step ∷ actions r
