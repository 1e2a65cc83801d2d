-- ===== src/Browser/Laws.antt =====
-- The laws of the store behind `localStorage`: a write is seen at its own key and at no other.
use axiom_ai.Common.{
  none, some, List, [], ◌∷◌, ◌≡◌, ◌≢◌, refl, arith, if◌then◌else◌, Text, text_eq, text_eq_iff,
  text_eq_refl,
}
use axiom_ai.Browser.{lookup, insert, remove}

pub lookup-insert :
    (k j v : Text) (m : List (Text × Text))
    → lookup j (insert k v m) ≡ (if text_eq k j then some v else lookup j m)
unfolding lookup insert
lookup-insert k j v [] = refl
lookup-insert k j v ((i, w) ∷ m) =
    ground (arith, text_eq_iff k j, text_eq_iff i k, text_eq_iff i j, lookup-insert k j v m)

pub lookup-insert_self : (k v : Text) (m : List (Text × Text)) → lookup k (insert k v m) ≡ some v
lookup-insert_self k v m = simp (lookup-insert, text_eq_refl)

pub lookup-insert_ne :
    (k j v : Text) (m : List (Text × Text)) → k ≢ j → lookup j (insert k v m) ≡ lookup j m
lookup-insert_ne k j v m h = ground (arith, lookup-insert k j v m, text_eq_iff k j)

pub lookup-remove :
    (k j : Text) (m : List (Text × Text))
    → lookup j (remove k m) ≡ (if text_eq k j then none else lookup j m)
unfolding lookup remove
lookup-remove k j [] = ground arith
lookup-remove k j ((i, w) ∷ m) =
    ground (arith, text_eq_iff k j, text_eq_iff i k, text_eq_iff i j, lookup-remove k j m)
