-- ===== src/Theme/Laws.antt =====
-- The choice of a theme: what a reload shows, and what the document is marked with.
use axiom_ai.Common.{
  Bool, true, false, ◌&&◌, Option, none, some, ◌≡◌, refl, arith, if◌then◌else◌, Text, codes,
  text_eq_refl, ◌⊎◌, inl, inr, ◌∙◌, ap,
}
use axiom_ai.Browser.{get_item, set_item, remove_item}
use axiom_ai.Browser.Laws.{lookup-insert_self, lookup-remove}
use axiom_ai.SessionStorage.Laws.{IsOpen}
use axiom_ai.Types.{Theme, light, dark, system}
use axiom_ai.Theme.{
  storage_key, Page, init_script, stored_theme, first_render, mount, set_theme, next_theme,
  cycle_theme,
}

-- What the document is marked with for a theme.
unfoldable pub mark : Theme → Option Text
mark light = some (codes "light")
mark dark = some (codes "dark")
mark system = none

abbrev pub is_system : Theme → Bool
is_system light = false
is_system dark = false
is_system system = true

-- In an open browser a theme that was chosen is there after a reload of the page, and the script
-- of the new document marks it before the first render the way the old one was marked.
pub mount-set_theme :
    (next : Theme) (p : Page) (media : Option Bool)
    → IsOpen p.browser
    → ((first_render (set_theme next p).browser).attribute ≡ (set_theme next p).attribute)
      × ((mount media (first_render (set_theme next p).browser)).theme ≡ next)
unfolding mount first_render set_theme get_item set_item remove_item init_script stored_theme
mount-set_theme light p media h =
    ground (arith, h, lookup-insert_self storage_key (codes "light") p.browser.stored)
mount-set_theme dark p media h =
    ground (arith, h, lookup-insert_self storage_key (codes "dark") p.browser.stored)
mount-set_theme system p media h =
    ground
      (arith, h, lookup-remove storage_key storage_key p.browser.stored, text_eq_refl storage_key)

-- The document is marked with the theme that was chosen, except where the browser denies its store
-- and the choice is `system`: there the old mark stays.
pub attribute-set_theme :
    (next : Theme) (p : Page)
    → (set_theme next p).attribute
      ≡ (if is_system next && p.browser.blocked then p.attribute else mark next)
unfolding set_theme mark set_item remove_item
attribute-set_theme light p = ground arith
attribute-set_theme dark p = ground arith
attribute-set_theme system p = ground arith

theme-set_theme : (next : Theme) (p : Page) → (set_theme next p).theme ≡ next
unfolding set_theme set_item remove_item
theme-set_theme light p = ground arith
theme-set_theme dark p = ground arith
theme-set_theme system p = ground arith

theme-cycle_theme : (p : Page) → (cycle_theme p).theme ≡ next_theme p.theme
unfolding cycle_theme
theme-cycle_theme p = theme-set_theme (next_theme p.theme) p

next_theme-thrice : (t : Theme) → next_theme (next_theme (next_theme t)) ≡ t
unfolding next_theme
next_theme-thrice light = refl
next_theme-thrice dark = refl
next_theme-thrice system = refl

theme-cycle_theme_twice :
    (p : Page) → (cycle_theme (cycle_theme p)).theme ≡ next_theme (next_theme p.theme)
theme-cycle_theme_twice p = theme-cycle_theme (cycle_theme p) ∙ ap next_theme (theme-cycle_theme p)

reached : (a t : Theme) → (a ≡ t) ⊎ ((next_theme a ≡ t) ⊎ (next_theme (next_theme a) ≡ t))
unfolding next_theme
reached light light = inl refl
reached light dark = inr (inl refl)
reached light system = inr (inr refl)
reached dark dark = inl refl
reached dark system = inr (inl refl)
reached dark light = inr (inr refl)
reached system system = inl refl
reached system light = inr (inl refl)
reached system dark = inr (inr refl)

-- Three clicks on the toggle come back to the theme they began with, and the toggle reaches every
-- theme in two clicks at most, in any browser.
pub cycle_theme_cycles :
    (p : Page)
    → ((cycle_theme (cycle_theme (cycle_theme p))).theme ≡ p.theme)
      × ((t : Theme)
          → (p.theme ≡ t)
            ⊎ (((cycle_theme p).theme ≡ t) ⊎ ((cycle_theme (cycle_theme p)).theme ≡ t)))
cycle_theme_cycles p = (
  theme-cycle_theme (cycle_theme (cycle_theme p))
      ∙ ap next_theme (theme-cycle_theme_twice p)
      ∙ next_theme-thrice p.theme,
  λ t. elim (reached p.theme t) [
    | inl e ↦ inl e
    | inr (inl e) ↦ inr (inl (theme-cycle_theme p ∙ e))
    | inr (inr e) ↦ inr (inr (theme-cycle_theme_twice p ∙ e))
  ],
)
