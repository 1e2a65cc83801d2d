-- ===== src/UploadPanel/View.antt =====
-- What frontend/src/components/UploadPanel.tsx puts on the screen. A document is a JSON value, as the server
-- sent it.
use axiom_ai.Common.{
  Bool, true, false, Option, none, some, List, [], ◌∷◌, map, if◌then◌else◌, Text, codes, text_eq,
  text_truthy,
}
use axiom_ai.Json.{Json, null, bool, num, str, arr, obj, items, prop}
use axiom_ai.UploadPanel.{Panel}
use axiom_ai.UploadPanel.Sizes.{format_bytes}

pub record DocumentRow : Type 0 where
  pub name : Option Json
  pub size : Option Text
  pub is_removing : Bool

-- `formatBytes` of what the server sent. It compares and divides a `null` as 0 and a boolean as 0 or 1,
-- and it writes them as they are; a missing size and an object are no number. `none` stands for a
-- text, an array and a number that is not natural, whose text is not modelled.
abbrev pub size_of : Option Json → Option Text
size_of none = some (codes "NaN MB")
size_of (some (num n)) = some (format_bytes n)
size_of (some null) = some (codes "null B")
size_of (some (bool true)) = some (codes "true B")
size_of (some (bool false)) = some (codes "false B")
size_of (some (obj fields)) = some (codes "NaN MB")
size_of (some _) = none

abbrev pub is_pending : Option Text → Option Json → Bool
is_pending (some name) (some (str t)) = text_eq name t
is_pending _ _ = false

unfoldable pub document_row : Option Text → Json → DocumentRow
unfolding prop format_bytes text_eq
document_row pending doc = record {
  name = prop (codes "name") doc;
  size = size_of (prop (codes "size_bytes") doc);
  is_removing = is_pending pending (prop (codes "name") doc);
}

abbrev pub document_list : Json → List Json
document_list (arr vs) = items vs
document_list _ = []

pub record PanelView : Type 0 where
  pub zone_label : Text
  pub zone_is_lit : Bool
  pub alert : Option Text
  pub notice : Option Text
  pub rows : List DocumentRow

abbrev notice_for : List Json → Option Text
notice_for [] = some (codes "No documents indexed yet.")
notice_for (_ ∷ _) = none

-- An error that is the empty text is not shown.
abbrev alert_of : Option Text → Option Text
alert_of none = none
alert_of (some message) = if text_truthy message then some message else none

-- Is the zone drawn for a drop?
abbrev zone_is_lit : Panel → Bool
zone_is_lit p = p.is_dragging

unfoldable pub panel_view : Panel → PanelView
unfolding document_row
panel_view p = record {
  zone_label = if p.is_uploading then codes "Indexing…" else codes "Drop files or click to upload";
  zone_is_lit = zone_is_lit p;
  alert = alert_of p.error_text;
  notice = notice_for (document_list p.documents);
  rows = map (document_row p.pending_delete) (document_list p.documents);
}
