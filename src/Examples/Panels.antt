-- ===== src/Examples/Panels.antt =====
-- Examples for the requests, the theme, the sizes of files, and an upload that fails on the way.
use axiom_ai.UploadPanel.Sizes.{format_bytes, fixed, IsNearest, format_bytes-IsNearest}
use axiom_ai.Common.{◌≤◌, ◌<◌, decimal, ◌++◌, ℕ}
use axiom_ai.Common.{true, false, none, some, List, [], ◌∷◌, Text, codes, ◌≡◌, ◌⊎◌}
use axiom_ai.Json.{arr, nil, obj, end}
use axiom_ai.Types.{dark, system}
use axiom_ai.Stream.{Fetched, resolved}
use axiom_ai.Auth.{Result, ok, thrown, Request}
use axiom_ai.Api.{documents_request, authed_fetch}
use axiom_ai.Api.Retry.{Once, Twice, IsFirst, authed_fetch-Once_or_Twice}
use axiom_ai.AuthProvider.{Auth}
use axiom_ai.Theme.{Page, set_theme, first_render, mount}
use axiom_ai.Theme.Laws.{mount-set_theme}
use axiom_ai.Toast.{start}
use axiom_ai.UploadPanel.{Panel, handle_files}
use axiom_ai.UploadPanel.Laws.{HasIndexed, HasFailed, handle_files_ends}
use axiom_ai.AuthScreen.{Form, sign_in_mode}
use axiom_ai.Examples.Fixtures.{empty_browser, empty-IsOpen}

-- A server that answers the first request with a 401, and the next ones well.
abbrev server : List Request → Fetched
server (r ∷ []) = resolved (record { status = 401; json = none; body = none })
server _ = resolved (record { status = 200; json = none; body = none })

authed_fetch-Once_or_Twice_example :
    let ended =
      authed_fetch server
        (some (codes "old"))
        (some (codes "new"))
        (documents_request (codes "http://x"))
        [] in
    (first : Request) × IsFirst (some (codes "old")) (documents_request (codes "http://x")) first
    × (Once server (some (codes "new")) first [] ended
        ⊎ Twice server (some (codes "new")) (documents_request (codes "http://x")) first [] ended)
authed_fetch-Once_or_Twice_example =
    authed_fetch-Once_or_Twice server (some (codes "old")) (some (codes "new"))
      (documents_request (codes "http://x")) []

abbrev page : Page
page = record { browser = empty_browser; attribute = none; theme = system; system_dark = false }

mount-set_theme_example :
    ((first_render (set_theme dark page).browser).attribute ≡ (set_theme dark page).attribute)
    × ((mount (some true) (first_render (set_theme dark page).browser)).theme ≡ dark)
mount-set_theme_example = mount-set_theme dark page (some true) empty-IsOpen

abbrev panel : Panel
panel = record {
  documents = arr nil;
  is_uploading = false;
  is_dragging = false;
  error_text = none;
  pending_delete = none;
  indexed = 2;
  toasts = start 0;
}

-- It takes one file and no second one.
abbrev one_file : List Text → Result {0} Unit
one_file (a ∷ []) = ok tt
one_file _ = thrown (codes "too large")

handle_files_ends_example :
    let ended =
      handle_files (codes "") one_file (ok (arr nil)) (codes "a" ∷ codes "b" ∷ []) panel in
    (ended.0.is_uploading ≡ false)
    × (HasIndexed one_file (codes "a" ∷ codes "b" ∷ []) (ok (arr nil)) panel ended
        ⊎ HasFailed one_file (codes "") (codes "a" ∷ codes "b" ∷ []) panel ended)
handle_files_ends_example =
    handle_files_ends (codes "") one_file (ok (arr nil)) (codes "a") (codes "b" ∷ []) panel

abbrev form : Form
form = record {
  mode = sign_in_mode;
  email = codes "ann@x";
  name = [];
  password = codes "secret";
  show_password = false;
  error_text = none;
  busy = false;
  toasts = start 0;
}

abbrev signed_out : Auth
signed_out = record {
  browser = empty_browser;
  session = none;
  is_ready = true;
  flight = none;
  refreshed = [];
  logged_out = [];
}

abbrev good : Fetched
good = resolved (record { status = 200; json = some (obj end); body = none })

format_bytes-IsNearest_example :
    ((1048570 < 1024) × (format_bytes 1048570 ≡ decimal 1048570 ++ codes " B"))
    ⊎ (((1024 ≤ 1048570)
          × (1048570 < 1048576)
          × ((n : ℕ) × (format_bytes 1048570 ≡ fixed n ++ codes " KB")
              × IsNearest 1048570 1024 n
              × (10 ≤ n)
              × (((1048570 < 1048525) × (n < 10240)) ⊎ ((1048525 ≤ 1048570) × (n ≡ 10240)))))
        ⊎ ((1048576 ≤ 1048570)
            × ((n : ℕ) × (format_bytes 1048570 ≡ fixed n ++ codes " MB")
                × IsNearest 1048570 1048576 n
                × (10 ≤ n))))
format_bytes-IsNearest_example = format_bytes-IsNearest 1048570
