-- ===== src/Types/Sessions.antt =====
-- The stored session of frontend/src/lib/types.ts as JSON, and its reading as in `Encode`.
use axiom_ai.Common.{
  is_some, true, ℕ, ◌≡◌, refl, codes, or_else, Option, Text, if◌then◌else◌, ℕ, some, ap, none,
}
use axiom_ai.Json.{Json, null, num, str, obj, end, field, prop, Fields, truthy}
use axiom_ai.Types.{User, StoredSession}
use axiom_ai.Types.Encode.{text_prop}

abbrev id_field : Option Text → Fields → Fields
id_field none rest = rest
id_field (some id) rest = field (codes "id") (str id) rest

unfoldable pub user_json : User → Json
user_json u = obj (
    id_field u.id (
      field (codes "email") (str u.email)
        (field (codes "name") (str u.name) (field (codes "created_at") (str u.created_at) end))))

-- A value that is no text is taken for a missing one.
abbrev id_of : Option Json → Option Text
id_of (some (str t)) = some t
id_of _ = none

unfoldable pub user_of_json : Json → User
unfolding text_prop prop
user_of_json j = record {
  id = id_of (prop (codes "id") j);
  email = text_prop (codes "email") j;
  name = text_prop (codes "name") j;
  created_at = text_prop (codes "created_at") j;
}

abbrev user_of_value : Option Json → Option User
user_of_value o = if truthy o then some (user_of_json (or_else o null)) else none

-- `v.user`, `none` where it is falsy: the page then shows no user, and a stored session is discarded.
unfoldable pub user_prop : Json → Option User
unfolding user_of_json prop
user_prop j = user_of_value (prop (codes "user") j)

-- A property that is `undefined` is left out of the text.
abbrev user_field : Option User → Fields → Fields
user_field none rest = rest
user_field (some u) rest = field (codes "user") (user_json u) rest

-- `JSON.stringify` writes NaN as `null`.
abbrev number_json : Option ℕ → Json
number_json none = null
number_json (some n) = num n

-- A number in arithmetic: a missing one is NaN, and `null` is 0. Other values are taken for NaN.
abbrev numeric : Option Json → Option ℕ
numeric (some (num n)) = some n
numeric (some null) = some 0
numeric _ = none

unfoldable pub numeric_prop : Text → Json → Option ℕ
unfolding prop
numeric_prop k j = numeric (prop k j)

unfoldable pub session_json : StoredSession → Json
unfolding user_json
session_json s = obj (
    user_field s.user (
      field (codes "accessToken") (str s.access_token) (
        field (codes "refreshToken") (str s.refresh_token)
          (field (codes "expiresAt") (number_json s.expires_at) end))))

unfoldable pub session_of_json : Json → StoredSession
unfolding text_prop numeric_prop user_prop
session_of_json j = record {
  user = user_prop j;
  access_token = text_prop (codes "accessToken") j;
  refresh_token = text_prop (codes "refreshToken") j;
  expires_at = numeric_prop (codes "expiresAt") j;
}

-- A session whose expiry is a number is read as it was written.
pub session_round :
    (s : StoredSession) → is_some s.expires_at ≡ true → session_of_json (session_json s) ≡ s
unfolding session_of_json session_json
session_round s timed = go s.user s.access_token s.refresh_token s.expires_at timed
  where
    of : Option User → Text → Text → Option ℕ → StoredSession
    of o a r e = record { user = o; access_token = a; refresh_token = r; expires_at = e }

    by_id :
        (id : Option Text) (e m c : Text)
        → user_of_json (user_json (record { id = id; email = e; name = m; created_at = c }))
          ≡ record { id = id; email = e; name = m; created_at = c }
    by_id none e m c = refl
    by_id (some id) e m c = refl

    go :
        (o : Option User) (a r : Text) (e : Option ℕ)
        → is_some e ≡ true
        → session_of_json (session_json (of o a r e)) ≡ of o a r e
    go o a r none h = cc
    go none a r (some e) h = refl
    go (some u) a r (some e) h =
        ap (λ v. of (some v) a r (some e)) (by_id u.id u.email u.name u.created_at)
