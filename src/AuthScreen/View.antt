-- ===== src/AuthScreen/View.antt =====
-- What frontend/src/components/AuthScreen.tsx puts on the screen: its texts, fields and buttons.
use axiom_ai.Common.{
  ℕ, Bool, true, Option, none, some, List, [], ◌∷◌, ◌++◌, if◌then◌else◌, Text, codes, text_truthy,
}
use axiom_ai.AuthScreen.{Mode, sign_in_mode, sign_up_mode, Form}

-- The titles and texts of the brand panel.
abbrev pub highlights : List (Text × Text)
highlights =
    (
      codes "Hybrid retrieval",
      codes "Dense vector search and BM25 keyword search, fused with reciprocal rank reranking.",
    )
    ∷ (
      codes "Grounded citations",
      codes "Every answer names the source chunks it was built from, with relevance scores.",
    )
    ∷ (
      codes "Your corpus, yours alone",
      codes
          "Documents are scoped to your account end to end — nobody else's text can reach your answers.",
    )
    ∷ []

-- `Field`, and the password's input.
pub record Field : Type 0 where
  pub id : Text
  pub label : Text
  pub type : Text
  pub value : Text
  pub auto_complete : Text
  pub placeholder : Text
  pub required : Bool
  pub min_length : Option ℕ

unfoldable pub name_field : Form → Field
name_field f = record {
  id = codes "name";
  label = codes "Name";
  type = codes "text";
  value = f.name;
  auto_complete = codes "name";
  placeholder = codes "Ada Lovelace";
  required = true;
  min_length = none;
}

unfoldable pub email_field : Form → Field
email_field f = record {
  id = codes "email";
  label = codes "Email";
  type = codes "email";
  value = f.email;
  auto_complete = codes "email";
  placeholder = codes "you@lab.org";
  required = true;
  min_length = none;
}

abbrev pub by_mode {ℓ} : {A : Type ℓ} → Mode → A → A → A
by_mode sign_up_mode up other = up
by_mode sign_in_mode up other = other

unfoldable pub password_field : Form → Field
password_field f = record {
  id = codes "password";
  label = codes "Password";
  type = if f.show_password then codes "text" else codes "password";
  value = f.password;
  auto_complete = by_mode f.mode (codes "new-password") (codes "current-password");
  placeholder = by_mode f.mode (codes "At least 8 characters") (codes "••••••••");
  required = true;
  min_length = by_mode f.mode (some 8) none;
}

pub record AuthView : Type 0 where
  pub title : Text
  pub subtitle : Text
  pub fields : List Field
  pub password_toggle : Text
  pub hint : Option Text
  pub alert : Option Text
  pub submit_disabled : Bool
  pub spinner : Bool
  pub submit_label : Text
  pub switch_question : Text
  pub switch_label : Text

-- An error that is the empty text is not shown.
abbrev alert_of : Option Text → Option Text
alert_of none = none
alert_of (some message) = if text_truthy message then some message else none

-- The title, and the line under it.
abbrev heading : Mode → Text × Text
heading sign_up_mode =
    (codes "Create your account", codes "Your documents and conversations stay scoped to you.")
heading sign_in_mode = (codes "Welcome back", codes "Sign in to reach your indexed corpus.")

unfoldable pub form_fields : Form → List Field
unfolding name_field email_field password_field
form_fields f = by_mode f.mode (name_field f ∷ []) [] ++ email_field f ∷ password_field f ∷ []

-- The label of the button with the eye.
abbrev password_toggle : Form → Text
password_toggle f = if f.show_password then codes "Hide password" else codes "Show password"

unfoldable pub auth_view : Form → AuthView
unfolding form_fields
auth_view f = record {
  title = (heading f.mode).0;
  subtitle = (heading f.mode).1;
  fields = form_fields f;
  password_toggle = password_toggle f;
  hint =
      by_mode f.mode
        (some (codes "At least 8 characters. Stored as a bcrypt hash — never in plain text.")) none;
  alert = alert_of f.error_text;
  submit_disabled = f.busy;
  spinner = f.busy;
  submit_label =
      if f.busy
      then by_mode f.mode (codes "Creating account…") (codes "Signing in…")
      else by_mode f.mode (codes "Create account") (codes "Sign in");
  switch_question = by_mode f.mode (codes "Already have an account?") (codes "No account yet?");
  switch_label = by_mode f.mode (codes "Sign in") (codes "Create one");
}
