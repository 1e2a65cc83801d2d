-- ===== src/UploadPanel/Steps.antt =====
-- The panel from its first render on. Nothing keeps a person from starting an upload or a deletion
-- while others are under way, so they may end in any order.
use axiom_ai.Common.{
  false, none, List, [], ◌∷◌, ◌++◌, map, All, Text, codes, ◌≡◌, ◌≢◌, ◌⊎◌, inl, inr, refl,
}
use axiom_ai.Json.{Json}
use axiom_ai.Auth.{Result, ok, thrown, runtime_error}
use axiom_ai.Toast.{Toasts}
use axiom_ai.UploadPanel.{
  Panel, start, refresh, upload_started, upload_settled, delete_started, delete_settled, drag_over,
  drag_leave,
}
use axiom_ai.UploadPanel.View.{document_row, document_list, panel_view}

-- A panel with what it waits for: the files of each upload, and the name of each deletion.
pub record Desk : Type 0 where
  pub panel : Panel
  pub uploads : List (List Text)
  pub deletions : List Text

module _ (runtime : Text) where
  pub data Step : Desk → Desk → Type 0 where
    dragged : (d : Desk) → Step d (record d { panel = drag_over d.panel })
    drag_left : (d : Desk) → Step d (record d { panel = drag_leave d.panel })
    listed :
        (d : Desk) (listing : Result Json) → Step d (record d { panel = refresh listing d.panel })
    upload_begun :
        (d : Desk) (files : List Text)
        → Step d (record d { panel = upload_started d.panel; uploads = files ∷ d.uploads })
    upload_ended :
        (d : Desk) (before : List (List Text)) (files : List Text) (after : List (List Text))
        (result : Result {0} Unit) (listing : Result Json)
        → d.uploads ≡ before ++ files ∷ after
        → Step d (record d {
          panel = upload_settled runtime files result listing d.panel;
          uploads = before ++ after;
        })
    deletion_begun :
        (d : Desk) (name : Text)
        → Step d (record d { panel = delete_started name d.panel; deletions = name ∷ d.deletions })
    deletion_ended :
        (d : Desk) (before : List Text) (name : Text) (after : List Text) (result : Result {0} Unit)
        (listing : Result Json)
        → d.deletions ≡ before ++ name ∷ after
        → Step d (record d {
          panel = delete_settled runtime name result listing d.panel;
          deletions = before ++ after;
        })

  pub data Reach (d : Desk) : Desk → Type 0 where
    here : Reach d d
    next : {e f : Desk} → Reach d e → Step e f → Reach d f

  -- A panel that looks busy is busy.
  pub record IsHonest (d : Desk) : Type 0 where
    pub uploading : (d.panel.is_uploading ≡ false) ⊎ (d.uploads ≢ [])
    pub deleting : (d.panel.pending_delete ≡ none) ⊎ (d.deletions ≢ [])

  uploaded :
      (files : List Text) (result : Result {0} Unit) (listing : Result Json) (p : Panel)
      → ((upload_settled runtime files result listing p).is_uploading ≡ false)
        × ((upload_settled runtime files result listing p).pending_delete ≡ p.pending_delete)
  unfolding upload_settled refresh
  uploaded files (ok _) listing p = (refl, refl)
  uploaded files (thrown m) listing p = (refl, refl)
  uploaded files runtime_error listing p = (refl, refl)

  removed :
      (name : Text) (result : Result {0} Unit) (listing : Result Json) (p : Panel)
      → ((delete_settled runtime name result listing p).pending_delete ≡ none)
        × ((delete_settled runtime name result listing p).is_uploading ≡ p.is_uploading)
  unfolding delete_settled refresh
  removed name (ok _) listing p = (refl, refl)
  removed name (thrown m) listing p = (refl, refl)
  removed name runtime_error listing p = (refl, refl)

  Step-IsHonest : {d e : Desk} → Step d e → IsHonest d → IsHonest e
  unfolding drag_over drag_leave refresh upload_started delete_started
  Step-IsHonest (dragged d) h = record { uploading = h.uploading; deleting = h.deleting }
  Step-IsHonest (drag_left d) h = record { uploading = h.uploading; deleting = h.deleting }
  Step-IsHonest (listed d listing) h = record { uploading = h.uploading; deleting = h.deleting }
  Step-IsHonest (upload_begun d files) h = record {
    uploading = inr (λ e. cc);
    deleting = h.deleting;
  }
  Step-IsHonest (upload_ended d before files after result listing e) h =
      let (idle, kept) = uploaded files result listing d.panel in
      record { uploading = inl idle; deleting = rw kept h.deleting }
  Step-IsHonest (deletion_begun d name) h = record {
    uploading = h.uploading;
    deleting = inr (λ e. cc);
  }
  Step-IsHonest (deletion_ended d before name after result listing e) h =
      let (idle, kept) = removed name result listing d.panel in
      record { uploading = rw kept h.uploading; deleting = inl idle }

  Reach-IsHonest : {d e : Desk} → IsHonest d → Reach d e → IsHonest e
  Reach-IsHonest h here = h
  Reach-IsHonest h (next r step) = Step-IsHonest step (Reach-IsHonest h r)

  settled : {A : Type 0} (P : Type 0) (xs : List A) → xs ≡ [] → P ⊎ (xs ≢ []) → P
  settled P xs e (inl h) = h
  settled P xs e (inr h) = absurd (h e)

  start-IsHonest :
      (toasts : Toasts) → IsHonest (record { panel = start toasts; uploads = []; deletions = [] })
  unfolding start
  start-IsHonest toasts = record { uploading = inl refl; deleting = inl refl }

  removable : (docs : List Json) → All (λ r. r.is_removing ≡ false) (map (document_row none) docs)
  unfolding document_row
  removable [] = tt
  removable (doc ∷ docs) = (refl, removable docs)

  -- Uploads and deletions begin and end in any order. Once none is under way the panel takes
  -- files again and every document can be removed.
  pub settled-idle :
      (toasts : Toasts) {d : Desk}
      → Reach (record { panel = start toasts; uploads = []; deletions = [] }) d
      → d.uploads ≡ []
      → d.deletions ≡ []
      → ((panel_view d.panel).zone_label ≡ codes "Drop files or click to upload")
        × All (λ r. r.is_removing ≡ false) (panel_view d.panel).rows
  unfolding panel_view
  settled-idle toasts {d} r up down =
      let h : IsHonest d = Reach-IsHonest (start-IsHonest toasts) r in
      let idle = settled (d.panel.is_uploading ≡ false) d.uploads up h.uploading in
      let free = settled (d.panel.pending_delete ≡ none) d.deletions down h.deleting in
      (rw idle refl, rw free (removable (document_list d.panel.documents)))
