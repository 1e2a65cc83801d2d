-- ===== src/AuthScreen/Steps.antt =====
-- The form from its first render on: what a person does, and the answers to the submissions.
use axiom_ai.Common.{
  true, false, Option, none, some, List, [], ◌∷◌, ◌++◌, Text, ◌≡◌, ◌⊎◌, inl, inr, refl, sym, ◌∙◌,
}
use axiom_ai.Types.{StoredSession}
use axiom_ai.Toast.{Toasts}
use axiom_ai.Auth.{Result, ok, thrown, runtime_error}
use axiom_ai.AuthScreen.{
  Form, start, set_email, set_name, set_password, toggle_password, switch_mode, handle_submit,
  submit_settled,
}
use axiom_ai.AuthScreen.View.{auth_view}

-- A form, and the submissions that wait for their answer, the last one first.
pub record Sheet : Type 0 where
  pub form : Form
  pub sent : List Form

abbrev also_sent : Option Form → List Form → List Form
also_sent none sent = sent
also_sent (some f) sent = f ∷ sent

unfoldable pub submit : Sheet → Sheet
unfolding handle_submit
submit p = record {
  form = (handle_submit p.form).0;
  sent = also_sent (handle_submit p.form).1 p.sent;
}

pub data Step (runtime : Text) : Sheet → Sheet → Type 0 where
  email_typed : (p : Sheet) (t : Text) → Step runtime p (record p { form = set_email t p.form })
  name_typed : (p : Sheet) (t : Text) → Step runtime p (record p { form = set_name t p.form })
  password_typed :
      (p : Sheet) (t : Text) → Step runtime p (record p { form = set_password t p.form })
  eye_clicked : (p : Sheet) → Step runtime p (record p { form = toggle_password p.form })
  mode_switched : (p : Sheet) → Step runtime p (record p { form = switch_mode p.form })
  submitted : (p : Sheet) → Step runtime p (submit p)
  answered :
      (p : Sheet) (before : List Form) (f : Form) (after : List Form)
      (answer : Result StoredSession)
      → p.sent ≡ before ++ f ∷ after
      → Step runtime p
          (record { form = submit_settled runtime f answer p.form; sent = before ++ after })

pub data Reach (runtime : Text) (p : Sheet) : Sheet → Type 0 where
  here : Reach runtime p p
  next : {q r : Sheet} → Reach runtime p q → Step runtime q r → Reach runtime p r

-- The form waits for one answer, or for none.
abbrev pub IsSingle : Sheet → Type 0
IsSingle p =
    ((p.form.busy ≡ false) × (p.sent ≡ []))
    ⊎ ((p.form.busy ≡ true) × ((f : Form) × (p.sent ≡ f ∷ [])))

submit-IsSingle : (p : Sheet) → IsSingle p → IsSingle (submit p)
unfolding submit handle_submit
submit-IsSingle p (inl (idle, empty)) = inr (rw idle refl, (p.form, rw (idle, empty) refl))
submit-IsSingle p (inr (busy, (f, one))) = inr (rw busy refl, (f, rw (busy, one) refl))

settled-busy :
    (runtime : Text) (f g : Form) (answer : Result StoredSession)
    → (submit_settled runtime f answer g).busy ≡ false
unfolding submit_settled
settled-busy runtime f g (ok s) = refl
settled-busy runtime f g (thrown m) = refl
settled-busy runtime f g runtime_error = refl

-- Out of one submission nothing is left.
none_left :
    (g : Form) (before : List Form) (f : Form) (after : List Form)
    → g ∷ [] ≡ before ++ f ∷ after
    → before ++ after ≡ []
none_left g [] f [] e = refl
none_left g [] f (h ∷ after) e = cc
none_left g (h ∷ []) f after e = cc
none_left g (h ∷ k ∷ before) f after e = cc

none_sent : (before : List Form) (f : Form) (after : List Form) → [] ≡ before ++ f ∷ after → ⊥
none_sent [] f after e = cc
none_sent (h ∷ before) f after e = cc

module _ (runtime : Text) where
  answered-IsSingle :
      (p : Sheet) (before : List Form) (f : Form) (after : List Form)
      (answer : Result StoredSession)
      → p.sent ≡ before ++ f ∷ after
      → IsSingle p
      → IsSingle (record { form = submit_settled runtime f answer p.form; sent = before ++ after })
  answered-IsSingle p before f after answer e (inl (idle, empty)) =
      absurd (none_sent before f after (sym empty ∙ e))
  answered-IsSingle p before f after answer e (inr (busy, (g, one))) =
      inl (settled-busy runtime f p.form answer, none_left g before f after (sym one ∙ e))

  Step-IsSingle : {p q : Sheet} → Step runtime p q → IsSingle p → IsSingle q
  unfolding set_email set_name set_password toggle_password switch_mode
  Step-IsSingle (email_typed p t) h = h
  Step-IsSingle (name_typed p t) h = h
  Step-IsSingle (password_typed p t) h = h
  Step-IsSingle (eye_clicked p) h = h
  Step-IsSingle (mode_switched p) h = h
  Step-IsSingle (submitted p) h = submit-IsSingle p h
  Step-IsSingle (answered p before f after answer e) h =
      answered-IsSingle p before f after answer e h

  Reach-IsSingle : {p q : Sheet} → IsSingle p → Reach runtime p q → IsSingle q
  Reach-IsSingle h here = h
  Reach-IsSingle h (next r step) = Step-IsSingle step (Reach-IsSingle h r)

  -- From the first render on, in any order of what a person does and of the answers: the submit
  -- button is enabled and no submission is under way, or it is disabled and exactly one is.
  pub submit_disabled-Reach :
      (toasts : Toasts) {p : Sheet}
      → Reach runtime (record { form = start toasts; sent = [] }) p
      → (((auth_view p.form).submit_disabled ≡ false) × (p.sent ≡ []))
        ⊎ (((auth_view p.form).submit_disabled ≡ true) × ((f : Form) × (p.sent ≡ f ∷ [])))
  unfolding start auth_view
  submit_disabled-Reach toasts r = Reach-IsSingle (inl (refl, refl)) r
