-- ===== src/Theme.antt =====
-- frontend/src/context/ThemeProvider.tsx: the chosen theme, its copy in the browser, and the attribute of
-- the document that the style sheet reads. What `matchMedia` says is an argument.
pub mod Laws
use axiom_ai.Common.{
  ℕ, Bool, true, false, ◌||◌, ◌&&◌, Option, none, some, List, [], ◌∷◌, if◌then◌else◌, Text, codes,
  text_eq,
}
use axiom_ai.Browser.{Browser, get_item, set_item, remove_item}
use axiom_ai.Types.{Theme, light, dark, system}

abbrev pub storage_key : Text
storage_key = codes "axiom-ai-theme"

-- `attribute` is the document's `data-theme`.
pub record Page : Type 0 where
  pub browser : Browser
  pub attribute : Option Text
  pub theme : Theme
  pub system_dark : Bool

-- The text of a theme; what is stored for a theme that the document is marked with.
abbrev pub theme_text : Theme → Text
theme_text light = codes "light"
theme_text dark = codes "dark"
theme_text system = codes "system"

-- The script in the head of the document, on what `getItem` gives.
unfoldable pub init_script : Option (Option Text) → Option Text → Option Text
unfolding text_eq
init_script (some (some stored)) attribute =
    if text_eq stored (codes "dark") || text_eq stored (codes "light")
    then some stored
    else attribute
init_script _ attribute = attribute

-- `raw === "dark" || raw === "light"`, with `system` for everything else.
unfoldable pub stored_theme : Option (Option Text) → Theme
unfolding text_eq
stored_theme (some (some raw)) =
    if text_eq raw (codes "dark")
    then dark
    else if text_eq raw (codes "light")
    then light
    else system
stored_theme _ = system

-- `media` is what `matchMedia` says, `none` where there is no `window` or no `matchMedia`.
unfoldable pub system_prefers_dark : Option Bool → Bool
system_prefers_dark none = false
system_prefers_dark (some matches) = matches

-- The first render of a document, after its script.
unfoldable pub first_render : Browser → Page
unfolding init_script get_item
first_render b = record {
  browser = b;
  attribute = init_script (get_item b storage_key) none;
  theme = system;
  system_dark = false;
}

-- The effect on mount.
unfoldable pub mount : Option Bool → Page → Page
unfolding stored_theme get_item system_prefers_dark
mount media p = record p {
  theme = stored_theme (get_item p.browser storage_key);
  system_dark = system_prefers_dark media;
}

unfoldable pub on_change : Bool → Page → Page
on_change matches p = record p { system_dark = matches }

-- The `try` where it succeeds or throws, and the `catch`.
abbrev forgotten : Option Browser → Page → Page
forgotten none p = p
forgotten (some b) p = record p { browser = b; attribute = none }

abbrev remembered : Option Browser → Theme → Page → Page
remembered none next p = record p { attribute = some (theme_text next) }
remembered (some b) next p = record p { browser = b; attribute = some (theme_text next) }

unfoldable pub set_theme : Theme → Page → Page
unfolding set_item remove_item
set_theme system p = forgotten (remove_item p.browser storage_key) (record p { theme = system })
set_theme light p =
    remembered (set_item p.browser storage_key (theme_text light)) light
      (record p { theme = light })
set_theme dark p =
    remembered (set_item p.browser storage_key (theme_text dark)) dark (record p { theme = dark })

unfoldable pub resolved : Page → Theme
resolved p = elim p.theme [
  | system ↦ if p.system_dark then dark else light
  | light ↦ light
  | dark ↦ dark
]

-- `order[(order.indexOf(theme) + 1) % order.length]`
unfoldable pub next_theme : Theme → Theme
next_theme light = dark
next_theme dark = system
next_theme system = light

unfoldable pub cycle_theme : Page → Page
unfolding set_theme next_theme
cycle_theme p = set_theme (next_theme p.theme) p
