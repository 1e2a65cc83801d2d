-- ===== src/AuthScreen/Laws.antt =====
-- One submission at a time, and what its answer does.
use axiom_ai.Common.{false, none, some, Text, ◌≡◌, ◌⊎◌, refl, inl, inr}
use axiom_ai.Json.{JsonCodec, Json, obj, field, end, str, prop}
use axiom_ai.Types.{StoredSession}
use axiom_ai.Auth.{text_body, register_request, login_request, Result, ok, thrown, runtime_error}
use axiom_ai.AuthProvider.{Auth, sign_in}
use axiom_ai.Common.{
  true, Bool, text_eq_iff, sym, List, [], ◌∷◌, Option, codes, text_eq, if◌then◌else◌,
}
use axiom_ai.AuthScreen.View.{Field, auth_view, form_fields}
use axiom_ai.AuthScreen.{
  Mode, submit_request, sign_in_mode, sign_up_mode, Form, handle_submit, submit_settled,
}

-- An idle form is submitted once: a second click before the answer sends nothing and changes nothing.
-- With the answer the form can be submitted again. A session is then held by the application and no
-- error is shown; after an error the session is the old one and the error is shown.
pub submit_settles :
    (codec : JsonCodec) (runtime : Text) (f : Form) (answer : Result StoredSession) (a : Auth)
    → f.busy ≡ false
    → let pending = (handle_submit f).0 in
      let ended = submit_settled runtime f answer pending in
      ((handle_submit f).1 ≡ some f)
      × (handle_submit pending ≡ (pending, none))
      × ((handle_submit ended).1 ≡ some ended)
      × (((s : StoredSession) × ((sign_in codec answer a).session ≡ some s)
            × (ended.error_text ≡ none))
          ⊎ ((message : Text) × (sign_in codec answer a ≡ a) × (ended.error_text ≡ some message)))
unfolding handle_submit submit_settled sign_in
submit_settles codec runtime f (ok next) a idle = rw idle (refl, refl, refl, inl (next, refl, refl))
submit_settles codec runtime f (thrown message) a idle =
    rw idle (refl, refl, refl, inr (message, refl, refl))
submit_settles codec runtime f runtime_error a idle =
    rw idle (refl, refl, refl, inr (runtime, refl, refl))

-- The JSON that a submission sends.
unfoldable submit_json : Form → Json
submit_json f = elim f.mode [
  | sign_up_mode ↦ obj (
      field (codes "email") (str f.email)
        (field (codes "name") (str f.name) (field (codes "password") (str f.password) end)))
  | sign_in_mode ↦
      obj (field (codes "email") (str f.email) (field (codes "password") (str f.password) end))
]

-- What the screen shows in the field with an id.
abbrev pub shown_in : Text → List Field → Option Json
shown_in k [] = none
shown_in k (f ∷ fs) = if text_eq f.id k then some (str f.value) else shown_in k fs

-- Two tests that do not both succeed may be made in either order.
if_swap {ℓ} :
    {A : Type ℓ} (a b : Bool) (x y z : A)
    → (a ≡ true → b ≡ false)
    → (if a then x else if b then y else z) ≡ (if b then y else if a then x else z)
if_swap true true x y z apart = cc (apart refl)
if_swap true false x y z apart = refl
if_swap false b x y z apart = refl

email_no_name : (k : Text) → text_eq (codes "email") k ≡ true → text_eq (codes "name") k ≡ false
unfolding text_eq
email_no_name k e =
    let same : codes "email" ≡ k = (text_eq_iff (codes "email") k).0 e in rw (sym same) refl

Mode-cases : (m : Mode) → (m ≡ sign_up_mode) ⊎ (m ≡ sign_in_mode)
Mode-cases sign_up_mode = inl refl
Mode-cases sign_in_mode = inr refl

submit_json-fields :
    (f : Form) (k : Text) → prop k (submit_json f) ≡ shown_in k (auth_view f).fields
unfolding submit_json auth_view form_fields prop
submit_json-fields f k = elim (Mode-cases f.mode) [
  | inl up ↦
      rw (up, submit_json)
        (if_swap (text_eq (codes "email") k) (text_eq (codes "name") k) (some (str f.email))
          (some (str f.name)) (if text_eq (codes "password") k then some (str f.password) else none)
          (email_no_name k))
  | inr signing_in ↦ rw (signing_in, submit_json) refl
]

submit_request-body :
    (api_base : Text) (codec : JsonCodec) (f : Form)
    → (submit_request api_base codec f).body ≡ text_body (codec.stringify (submit_json f))
unfolding submit_json submit_request register_request login_request
submit_request-body api_base codec f = elim (Mode-cases f.mode) [
  | inl up ↦ rw (up, submit_json, submit_request) refl
  | inr signing_in ↦ rw (signing_in, submit_json, submit_request) refl
]

-- A submission sends one JSON value: it has a key for each field that is on the screen, with the
-- text that the field shows, and no other key.
pub submit_request-fields :
    (api_base : Text) (codec : JsonCodec) (f : Form)
    → (j : Json) × ((submit_request api_base codec f).body ≡ text_body (codec.stringify j))
      × ((k : Text) → prop k j ≡ shown_in k (auth_view f).fields)
submit_request-fields api_base codec f =
    (submit_json f, submit_request-body api_base codec f, submit_json-fields f)
