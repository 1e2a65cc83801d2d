-- ===== src/UploadPanel.antt =====
-- frontend/src/components/UploadPanel.tsx: uploading and deleting documents. A file is its name here,
-- and the server answers an upload by the files that were sent so far, the last one first.
-- `runtime` is the message of an error that the runtime throws.
pub mod Laws
pub mod View
pub mod Steps
pub mod Sizes
use axiom_ai.Common.{
  ℕ, suc, Bool, true, false, Option, none, some, List, [], ◌∷◌, ◌++◌, length, Text, codes, decimal,
  text_eq, ◌||◌,
}
use axiom_ai.Json.{Json, arr, nil}
use axiom_ai.Auth.{Result, ok, thrown, runtime_error}
use axiom_ai.Toast.{Toasts, success, error, notify}

-- `indexed` counts the calls of `onUploaded`.
pub record Panel : Type 0 where
  pub documents : Json
  pub is_uploading : Bool
  pub is_dragging : Bool
  pub error_text : Option Text
  pub pending_delete : Option Text
  pub indexed : ℕ
  pub toasts : Toasts

unfoldable pub start : Toasts → Panel
start toasts = record {
  documents = arr nil;
  is_uploading = false;
  is_dragging = false;
  error_text = none;
  pending_delete = none;
  indexed = 0;
  toasts = toasts;
}

-- `refresh`, once the list has come or failed to.
abbrev pub listed : Result Json → Json → Json
listed (ok documents) shown = documents
listed _ shown = shown

unfoldable pub refresh : Result Json → Panel → Panel
refresh listing p = record p { documents = listed listing p.documents }

-- The loop of uploads, which the first failure ends: its result and the files sent.
unfoldable pub upload_files :
    (List Text → Result {0} Unit) → List Text → List Text → Result {0} Unit × List Text
upload_files server [] sent = (ok tt, sent)
upload_files server (file ∷ files) sent = elim (server (file ∷ sent)) [
  | ok _ ↦ upload_files server files (file ∷ sent)
  | thrown message ↦ (thrown message, file ∷ sent)
  | runtime_error ↦ (runtime_error, file ∷ sent)
]

abbrev indexed_message : List Text → Text
indexed_message (file ∷ []) = codes "Indexed " ++ file
indexed_message files = codes "Indexed " ++ decimal (length files) ++ codes " documents"

-- The `catch` of an upload.
abbrev failed_upload : Text → Panel → Panel
failed_upload message p = record p {
  is_uploading = false;
  error_text = some message;
  toasts = notify message error p.toasts;
}

-- What stands behind the loop, with the `finally`.
unfoldable pub upload_settled : Text → List Text → Result {0} Unit → Result Json → Panel → Panel
unfolding refresh notify decimal
upload_settled runtime files (ok _) listing p = record (refresh listing p) {
  is_uploading = false;
  indexed = suc p.indexed;
  toasts = notify (indexed_message files) success p.toasts;
}
upload_settled runtime files (thrown message) listing p = failed_upload message p
upload_settled runtime files runtime_error listing p = failed_upload runtime p

-- `handleFiles` up to its first `await`.
unfoldable pub upload_started : Panel → Panel
upload_started p = record p { error_text = none; is_uploading = true }

-- The panel in the end, and the files sent; without a file nothing happens.
unfoldable pub handle_files :
    Text → (List Text → Result {0} Unit) → Result Json → List Text → Panel → Panel × List Text
unfolding upload_files upload_settled upload_started
handle_files runtime server listing [] p = (p, [])
handle_files runtime server listing (file ∷ files) p =
    let uploaded = upload_files server (file ∷ files) [] in
    (upload_settled runtime (file ∷ files) uploaded.0 listing (upload_started p), uploaded.1)

unfoldable pub delete_started : Text → Panel → Panel
delete_started name p = record p { pending_delete = some name }

abbrev failed_delete : Text → Panel → Panel
failed_delete message p = record p { pending_delete = none; toasts = notify message error p.toasts }

unfoldable pub delete_settled : Text → Text → Result {0} Unit → Result Json → Panel → Panel
unfolding refresh notify
delete_settled runtime name (ok _) listing p = record (refresh listing p) {
  pending_delete = none;
  indexed = suc p.indexed;
  toasts = notify (codes "Removed " ++ name) success p.toasts;
}
delete_settled runtime name (thrown message) listing p = failed_delete message p
delete_settled runtime name runtime_error listing p = failed_delete runtime p

unfoldable pub drag_over : Panel → Panel
drag_over p = record p { is_dragging = true }

unfoldable pub drag_leave : Panel → Panel
drag_leave p = record p { is_dragging = false }

-- A drop takes the files like a choice in the dialog does.
unfoldable pub on_drop :
    Text → (List Text → Result {0} Unit) → Result Json → List Text → Panel → Panel × List Text
unfolding handle_files
on_drop runtime server listing files p =
    handle_files runtime server listing files (record p { is_dragging = false })

-- Does the key open the dialog?
unfoldable pub opens_dialog : Text → Bool
unfolding text_eq
opens_dialog key = text_eq key (codes "Enter") || text_eq key (codes " ")
