-- ===== src/Json.antt =====
-- The values of JSON, as frontend/src/lib reads and writes them, with the language's property access and
-- truthiness. `JSON.parse` and `JSON.stringify` are the runtime's and stay a parameter.
use axiom_ai.Common.{
  ℕ, Bool, true, false, ◌==◌, not, Option, none, some, List, [], ◌∷◌, if◌then◌else◌, Text, text_eq,
  text_truthy,
}

-- `num` is a whole number; `real` is any other one, by the text that prints it.
mutual
  pub data Json : Type 0 where
    null : Json
    bool : Bool → Json
    num : ℕ → Json
    real : Text → Json
    str : Text → Json
    arr : Items → Json
    obj : Fields → Json

  pub data Items : Type 0 where
    nil : Items
    cons : Json → Items → Items

  pub data Fields : Type 0 where
    end : Fields
    field : Text → Json → Fields → Fields

abbrev pub items : Items → List Json
items nil = []
items (cons v vs) = v ∷ items vs

abbrev pub of_items : List Json → Items
of_items [] = nil
of_items (v ∷ vs) = cons v (of_items vs)

unfoldable pub get_field : Text → Fields → Option Json
get_field k end = none
get_field k (field j v fs) = if text_eq j k then some v else get_field k fs

-- `v?.k`, with `undefined` as `none`: only an object has fields of its own.
unfoldable pub prop : Text → Json → Option Json
unfolding get_field text_eq
prop k (obj fs) = get_field k fs
prop k _ = none

-- A value, or `undefined`, in a Boolean context.
abbrev pub truthy : Option Json → Bool
truthy none = false
truthy (some null) = false
truthy (some (bool b)) = b
truthy (some (num n)) = not (n == 0)
truthy (some (str t)) = text_truthy t
truthy (some _) = true

-- `JSON.parse`, which throws as `none`, and `JSON.stringify`.
pub record JsonCodec : Type 0 where
  pub parse : Text → Option Json
  pub stringify : Json → Text
