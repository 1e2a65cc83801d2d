-- ===== src/Browser.antt =====
-- `window.localStorage` as frontend/src/lib and frontend/src/context use it. It is the browser's: reading
-- throws where the browser denies access, writing throws also when the quota is used up, and on the
-- server there is no `window` at all.
pub mod Laws
use axiom_ai.Common.{
  Bool, true, false, ◌||◌, Option, none, some, List, [], ◌∷◌, if◌then◌else◌, Text, text_eq,
}

pub record Browser : Type 0 where
  pub window : Bool
  pub blocked : Bool
  pub full : Bool
  pub stored : List (Text × Text)

unfoldable pub lookup : Text → List (Text × Text) → Option Text
lookup k [] = none
lookup k ((j, v) ∷ m) = if text_eq j k then some v else lookup k m

unfoldable pub insert : Text → Text → List (Text × Text) → List (Text × Text)
insert k v [] = (k, v) ∷ []
insert k v ((j, w) ∷ m) = if text_eq j k then (k, v) ∷ m else (j, w) ∷ insert k v m

unfoldable pub remove : Text → List (Text × Text) → List (Text × Text)
remove k [] = []
remove k ((j, w) ∷ m) = let rest = remove k m in if text_eq j k then rest else (j, w) ∷ rest

-- `none` is an exception; a missing key is `some none`.
unfoldable pub get_item : Browser → Text → Option (Option Text)
unfolding lookup text_eq
get_item b k = if b.blocked then none else some (lookup k b.stored)

unfoldable pub set_item : Browser → Text → Text → Option Browser
unfolding insert text_eq
set_item b k v =
    if b.blocked || b.full then none else some (record b { stored = insert k v b.stored })

unfoldable pub remove_item : Browser → Text → Option Browser
unfolding remove text_eq
remove_item b k = if b.blocked then none else some (record b { stored = remove k b.stored })

-- What a script reads back, with the exception and the missing key told apart from a text.
abbrev pub found : Browser → Text → Option Text
found b k = lookup k b.stored
