-- ===== src/Sidebar.antt =====
-- frontend/src/components/Sidebar.tsx: `initialsOf`, and what the sidebar shows. `upper` is the
-- language's `toUpperCase`.
pub mod Laws
use axiom_ai.Common.{
  Option, none, some, List, [], ◌∷◌, ◌++◌, take, filter, if◌then◌else◌, Text, text_truthy, trim,
  split_spaces, false, Bool, map, map_option, or_else, codes, text_eq,
}
use axiom_ai.Types.{Conversation, User}

-- `s.split(/\s+/).filter(Boolean)`
unfoldable pub words : Text → List Text
unfolding split_spaces filter
words s = filter text_truthy (split_spaces false s)

unfoldable pub last_of : Text → List Text → Text
last_of w [] = w
last_of w (v ∷ vs) = last_of v vs

-- The two letters, before they are made upper case.
unfoldable pub letters : List Text → Text
unfolding last_of
letters [] = []
letters (w ∷ []) = take 2 w
letters (w ∷ v ∷ vs) = take 1 w ++ take 1 (last_of v vs)

unfoldable pub initials_of : (Text → Text) → Option Text → Text
unfolding words letters trim
initials_of upper none = []
initials_of upper (some name) =
    if text_truthy name
    then elim (words (trim name)) [ [] ↦ [] | w ∷ ws ↦ upper (letters (w ∷ ws)) ]
    else []

-- A row of the list of conversations.
pub record Row : Type 0 where
  pub id : Text
  pub title : Text
  pub is_active : Bool

abbrev pub is_open : Text → Option Text → Bool
is_open id none = false
is_open id (some a) = text_eq id a

unfoldable pub row : Option Text → Conversation → Row
unfolding text_eq
row active_id c = record { id = c.id; title = c.title; is_active = is_open c.id active_id }

abbrev notice_for : List Conversation → Option Text
notice_for [] = some (codes "No conversations yet.")
notice_for (_ ∷ _) = none

-- The conversations and the account footer; `backdrop` is the layer that closes the menu, and
-- `notice` stands in place of the rows.
pub record Sidebar : Type 0 where
  pub backdrop : Bool
  pub notice : Option Text
  pub rows : List Row
  pub initials : Text
  pub name : Text
  pub email : Option Text

unfoldable pub sidebar :
    (Text → Text) → Option User → List Conversation → Option Text → Bool → Sidebar
unfolding row initials_of
sidebar upper user conversations active_id is_open = record {
  backdrop = is_open;
  notice = notice_for conversations;
  rows = map (row active_id) conversations;
  initials = initials_of upper (map_option (λ u. u.name) user);
  name = or_else (map_option (λ u. u.name) user) (codes "Signed in");
  email = map_option (λ u. u.email) user;
}
