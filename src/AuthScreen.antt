-- ===== src/AuthScreen.antt =====
-- frontend/src/components/AuthScreen.tsx: the form that signs in or up. A submission is what the handler
-- closes over; `runtime` is the message of an error that the runtime throws.
pub mod View
pub mod Laws
pub mod Steps
use axiom_ai.Common.{
  ℕ, Bool, true, false, not, ◌==◌, Option, none, some, List, [], ◌∷◌, ◌++◌, if◌then◌else◌, Text,
  codes, text_truthy,
}
use axiom_ai.Types.{StoredSession}
use axiom_ai.Json.{JsonCodec}
use axiom_ai.Auth.{Request, register_request, login_request, Result, ok, thrown, runtime_error}
use axiom_ai.Toast.{Toasts, success, notify}

pub data Mode : Type 0 where
  sign_in_mode sign_up_mode : Mode

pub record Form : Type 0 where
  pub mode : Mode
  pub email : Text
  pub name : Text
  pub password : Text
  pub show_password : Bool
  pub error_text : Option Text
  pub busy : Bool
  pub toasts : Toasts

-- The first render.
unfoldable pub start : Toasts → Form
start toasts = record {
  mode = sign_in_mode;
  email = [];
  name = [];
  password = [];
  show_password = false;
  error_text = none;
  busy = false;
  toasts = toasts;
}

unfoldable pub set_email : Text → Form → Form
set_email text f = record f { email = text }

unfoldable pub set_name : Text → Form → Form
set_name text f = record f { name = text }

unfoldable pub set_password : Text → Form → Form
set_password text f = record f { password = text }

unfoldable pub toggle_password : Form → Form
toggle_password f = record f { show_password = not f.show_password }

abbrev switched : Mode → Mode
switched sign_in_mode = sign_up_mode
switched sign_up_mode = sign_in_mode

unfoldable pub switch_mode : Form → Form
switch_mode f = record f { mode = switched f.mode; error_text = none }

-- `s.split(" ")[0]`
unfoldable pub first_word : Text → Text
first_word [] = []
first_word (c ∷ s) = let rest = first_word s in if c == 0x20 then [] else c ∷ rest

-- `handleSubmit` up to its `await`; the form that goes to the gateway is the one of the last render.
unfoldable pub handle_submit : Form → Form × Option Form
handle_submit f =
    if f.busy then (f, none) else (record f { error_text = none; busy = true }, some f)

abbrev or_name : Text → Text → Text
or_name first name = if text_truthy first then first else name

abbrev greeting : Mode → Text → Text
greeting sign_in_mode name = codes "Signed in."
greeting sign_up_mode name =
    codes "Welcome to Axiom, " ++ or_name (first_word name) name ++ codes "."

unfoldable pub submit_settled : Text → Form → Result StoredSession → Form → Form
unfolding notify first_word
submit_settled runtime sent (ok next) f = record f {
  busy = false;
  toasts = notify (greeting sent.mode sent.name) success f.toasts;
}
submit_settled runtime sent (thrown message) f = record f {
  busy = false;
  error_text = some message;
}
submit_settled runtime sent runtime_error f = record f { busy = false; error_text = some runtime }

-- `signUp` and `signIn` of the submitted form, up to what `fetch` is given.
unfoldable pub submit_request : Text → JsonCodec → Form → Request
unfolding register_request login_request
submit_request api_base codec f = elim f.mode [
  | sign_up_mode ↦ register_request api_base codec f.email f.name f.password
  | sign_in_mode ↦ login_request api_base codec f.email f.password
]
