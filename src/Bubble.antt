-- ===== src/Bubble.antt =====
-- frontend/src/components/MessageBubble.tsx: what a message shows, the copy button, and the sources, one of
-- which may be expanded. A source is a JSON value, as the server sent it.
pub mod Laws
use axiom_ai.Common.{
  ℕ, suc, Bool, true, false, not, ◌==◌, ◌&&◌, Option, none, some, List, [], ◌∷◌, get_elem?,
  if◌then◌else◌, Text, codes, text_truthy, or_else, map_option, ◌+◌, ◌-◌,
}
use axiom_ai.Json.{Json, str, prop, arr, items}
use axiom_ai.Types.{Role, user, assistant, Message}
use axiom_ai.Stream.{nullish}
use axiom_ai.ChatApp.{is_user}

-- The state of `Citations` and that of `MessageBubble`; `timers` counts the timeouts that are
-- pending.
pub record Bubble : Type 0 where
  pub expanded : Option ℕ
  pub copied : Bool
  pub timers : ℕ

abbrev pub is_expanded : Option ℕ → ℕ → Bool
is_expanded none i = false
is_expanded (some j) i = j == i

-- A click on the source `i`.
unfoldable pub toggle : ℕ → Bubble → Bubble
toggle i b = record b { expanded = if is_expanded b.expanded i then none else some i }

-- A click on the copy button; the flag says that the clipboard took the text.
unfoldable pub handle_copy : Bool → Bubble → Bubble
handle_copy true b = record b { copied = true; timers = suc b.timers }
handle_copy false b = b

-- The button of a source: its number, its file and whether it is the expanded one.
pub record Source : Type 0 where
  pub number : ℕ
  pub file : Json
  pub is_open : Bool

abbrev pub file_of : Json → Json
file_of c = nullish (prop (codes "file") c) (str (codes "source"))

unfoldable pub sources_from : ℕ → Option ℕ → List Json → List Source
unfolding prop
sources_from i open_one [] = []
sources_from i open_one (c ∷ cs) =
    record { number = i + 1; file = file_of c; is_open = is_expanded open_one i }
    ∷ sources_from (suc i) open_one cs

-- The panel below the buttons: the file and the text of the expanded source, if it is there.
unfoldable pub details : Option ℕ → List Json → Option (Json × Option Json)
unfolding prop
details none cs = none
details (some i) cs = map_option (λ c. (file_of c, prop (codes "text") c)) (get_elem? cs i)

-- A value that is no array has no items.
abbrev pub citations_of : Option Json → List Json
citations_of (some (arr vs)) = items vs
citations_of _ = []

-- The timeout that takes `Copied` back.
unfoldable pub copy_timeout : Bubble → Bubble
copy_timeout b = record b { copied = false; timers = b.timers - 1 }

-- `avatar` is `none` for the glyph that stands for a user without initials.
pub record BubbleView : Type 0 where
  pub avatar : Option Text
  pub is_error : Bool
  pub body : Text
  pub copy_label : Option Text
  pub sources : List Source
  pub expanded_source : Option (Json × Option Json)

abbrev text_or : Text → Text → Text
text_or t other = if text_truthy t then t else other

abbrev view_of : Role → Text → Message → Bubble → BubbleView
view_of user initials m b = record {
  avatar = if text_truthy initials then some initials else none;
  is_error = false;
  body = m.content;
  copy_label = none;
  sources = [];
  expanded_source = none;
}
view_of assistant initials m b = record {
  avatar = none;
  is_error = m.is_error;
  body = text_or m.content (codes " ");
  copy_label =
      if text_truthy m.content
      then some (if b.copied then codes "Copied" else codes "Copy")
      else none;
  sources = sources_from 0 b.expanded (citations_of m.citations);
  expanded_source = details b.expanded (citations_of m.citations);
}

unfoldable pub bubble_view : Text → Message → Bubble → BubbleView
unfolding sources_from details
bubble_view initials m b = view_of m.role initials m b
