-- ===== src/Examples/Forms.antt =====
-- Examples for the sign-in form and the upload panel from their first render on.
use axiom_ai.Common.{true, false, List, [], ◌∷◌, All, Text, codes, ◌≡◌, ◌⊎◌, refl}
use axiom_ai.Json.{Json, arr, nil, prop}
use axiom_ai.Auth.{ok, text_body}
use axiom_ai.Toast.{Toasts}
use axiom_ai.Toast
use axiom_ai.AuthScreen.{Form, set_email, submit_request}
use axiom_ai.AuthScreen
use axiom_ai.AuthScreen.View.{auth_view}
use axiom_ai.AuthScreen.Laws.{submit_request-fields, shown_in}
use axiom_ai.AuthScreen.Steps.{
  Sheet, submit, email_typed, submitted, here, next, submit_disabled-Reach,
}
use axiom_ai.UploadPanel
use axiom_ai.UploadPanel.{upload_started, upload_settled}
use axiom_ai.UploadPanel.View.{panel_view}
use axiom_ai.UploadPanel.Steps.{Desk, upload_begun, upload_ended, settled-idle}
use axiom_ai.UploadPanel.Steps
use axiom_ai.Examples.Fixtures.{constant_codec}

abbrev blank : Sheet
blank = record { form = AuthScreen.start (Toast.start 0); sent = [] }

abbrev typed : Sheet
typed = record blank { form = set_email (codes "ann@x") blank.form }

submit_disabled-Reach_example :
    (((auth_view (submit typed).form).submit_disabled ≡ false) × ((submit typed).sent ≡ []))
    ⊎ (((auth_view (submit typed).form).submit_disabled ≡ true)
        × ((f : Form) × ((submit typed).sent ≡ f ∷ [])))
submit_disabled-Reach_example =
    submit_disabled-Reach (codes "") (Toast.start 0)
      (next (next here (email_typed blank (codes "ann@x"))) (submitted typed))

submit_request-fields_example :
    (j : Json) × ((submit_request (codes "http://x") (constant_codec (arr nil)) typed.form).body
      ≡ text_body (codes "x"))
    × ((k : Text) → prop k j ≡ shown_in k (auth_view typed.form).fields)
submit_request-fields_example =
    submit_request-fields (codes "http://x") (constant_codec (arr nil)) typed.form

abbrev empty_desk : Desk
empty_desk = record { panel = UploadPanel.start (Toast.start 0); uploads = []; deletions = [] }

abbrev files : List Text
files = codes "a" ∷ []

abbrev busy_desk : Desk
busy_desk = record empty_desk { panel = upload_started empty_desk.panel; uploads = files ∷ [] }

abbrev done_desk : Desk
done_desk = record busy_desk {
  panel = upload_settled (codes "") files (ok tt) (ok (arr nil)) busy_desk.panel;
  uploads = [];
}

settled-idle_example :
    ((panel_view done_desk.panel).zone_label ≡ codes "Drop files or click to upload")
    × All (λ r. r.is_removing ≡ false) (panel_view done_desk.panel).rows
settled-idle_example =
    settled-idle (codes "") (Toast.start 0)
      (Steps.next (Steps.next Steps.here (upload_begun empty_desk files))
        (upload_ended busy_desk [] files [] (ok tt) (ok (arr nil)) refl))
      refl refl
