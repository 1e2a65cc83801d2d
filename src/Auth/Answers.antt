-- ===== src/Auth/Answers.antt =====
-- Which answers of the gateway make a session.
use axiom_ai.Common.{
  ℕ, Option, none, some, Text, if◌then◌else◌, ◌≡◌, ◌⊎◌, inl, inr, refl, Bool-cases,
}
use axiom_ai.Json.{Json, null, bool, num, real, str, arr, obj}
use axiom_ai.Types.{StoredSession}
use axiom_ai.Stream.{Fetched, rejected, resolved, is_ok}
use axiom_ai.Auth.{
  Result, ok, thrown, runtime_error, to_stored_session, payload_of_json, stored_payload, post_auth,
}

-- JSON that is not `null`, in an answer of success.
abbrev non_null : Option Json → Option Json
non_null none = none
non_null (some null) = none
non_null (some (bool b)) = some (bool b)
non_null (some (num n)) = some (num n)
non_null (some (real t)) = some (real t)
non_null (some (str t)) = some (str t)
non_null (some (arr vs)) = some (arr vs)
non_null (some (obj fs)) = some (obj fs)

abbrev pub accepted_body : Fetched → Option Json
accepted_body (rejected name) = none
accepted_body (resolved res) = if is_ok res then non_null res.json else none

-- A session of the body, or an error.
abbrev pub IsAnswer : ℕ → Option Json → Result StoredSession → Type 0
IsAnswer now (some body) answer = answer ≡ ok (to_stored_session now (payload_of_json body))
IsAnswer now none answer = ((message : Text) × (answer ≡ thrown message)) ⊎ (answer ≡ runtime_error)

stored_payload-IsAnswer :
    (now : ℕ) (o : Option Json) → IsAnswer now (non_null o) (stored_payload now o)
unfolding stored_payload
stored_payload-IsAnswer now none = inr refl
stored_payload-IsAnswer now (some null) = inr refl
stored_payload-IsAnswer now (some (bool b)) = refl
stored_payload-IsAnswer now (some (num n)) = refl
stored_payload-IsAnswer now (some (real t)) = refl
stored_payload-IsAnswer now (some (str t)) = refl
stored_payload-IsAnswer now (some (arr vs)) = refl
stored_payload-IsAnswer now (some (obj fs)) = refl

pub post_auth-IsAnswer :
    (coerce : Json → Text) (now : ℕ) (fetched : Fetched)
    → IsAnswer now (accepted_body fetched) (post_auth coerce now fetched)
unfolding post_auth
post_auth-IsAnswer coerce now (rejected name) = inl (_, refl)
post_auth-IsAnswer coerce now (resolved res) = elim (Bool-cases (is_ok res)) [
  | inl good ↦ rw (good, post_auth) (stored_payload-IsAnswer now res.json)
  | inr bad ↦ rw (bad, post_auth) (inl (_, refl))
]
