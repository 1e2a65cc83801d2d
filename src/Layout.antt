-- ===== src/Layout.antt =====
-- frontend/src/app/layout.tsx and the hooks of the three providers of frontend/src/context: a hook throws where its
-- provider does not stand above the component that calls it. A component is given by the hooks
-- that it calls and by what it renders.
use axiom_ai.Common.{Bool, true, false, List, [], ◌∷◌, if◌then◌else◌, codes, ◌≡◌, ◌≢◌, refl}
use axiom_ai.Auth.{Result, ok, thrown, runtime_error}
use axiom_ai.Types.{User}
use axiom_ai.Home.{View, splash, auth_screen, chat}

pub data Hook : Type 0 where
  use_theme use_toast use_auth : Hook

pub data Tree : Type 0 where
  nothing : Tree
  component : List Hook → Tree → Tree
  beside : Tree → Tree → Tree
  provider : Hook → Tree → Tree

-- The providers above a component.
pub record Above : Type 0 where
  pub theme : Bool
  pub toast : Bool
  pub auth : Bool

abbrev with_provider : Hook → Above → Above
with_provider use_theme a = record a { theme = true }
with_provider use_toast a = record a { toast = true }
with_provider use_auth a = record a { auth = true }

-- `useContext`, and the check behind it.
unfoldable pub theme_context : Above → Result {0} Unit
theme_context a =
    if a.theme then ok tt else thrown (codes "useTheme must be used inside a <ThemeProvider>")

unfoldable pub toast_context : Above → Result {0} Unit
toast_context a =
    if a.toast then ok tt else thrown (codes "useToast must be used inside a <ToastProvider>")

unfoldable pub auth_context : Above → Result {0} Unit
auth_context a =
    if a.auth then ok tt else thrown (codes "useAuth must be used inside an <AuthProvider>")

unfoldable pub call_hook : Above → Hook → Result {0} Unit
unfolding theme_context toast_context auth_context
call_hook a use_theme = theme_context a
call_hook a use_toast = toast_context a
call_hook a use_auth = auth_context a

abbrev then_render : Result {0} Unit → Result {0} Unit → Result {0} Unit
then_render (ok _) later = later
then_render (thrown message) later = thrown message
then_render runtime_error later = runtime_error

unfoldable pub call_hooks : Above → List Hook → Result {0} Unit
unfolding call_hook
call_hooks a [] = ok tt
call_hooks a (h ∷ hs) = then_render (call_hook a h) (call_hooks a hs)

-- The first error, from the outside in and from the left to the right.
unfoldable pub render_tree : Above → Tree → Result {0} Unit
unfolding call_hooks
render_tree a nothing = ok tt
render_tree a (component hs children) = then_render (call_hooks a hs) (render_tree a children)
render_tree a (beside s t) = then_render (render_tree a s) (render_tree a t)
render_tree a (provider h children) = render_tree (with_provider h a) children

unfoldable pub root_layout : Tree → Tree
root_layout children = provider use_theme (provider use_toast (provider use_auth children))

-- The components that call a hook, as they stand in one another.
abbrev theme_toggle : Tree
theme_toggle = component (use_theme ∷ []) nothing

abbrev auth_screen_tree : Tree
auth_screen_tree = component (use_auth ∷ use_toast ∷ []) theme_toggle

abbrev sidebar_tree : Tree
sidebar_tree = component (use_auth ∷ []) (component (use_toast ∷ []) nothing)

abbrev chat_tree : Tree
chat_tree = component (use_auth ∷ []) (beside sidebar_tree theme_toggle)

unfoldable pub page_tree : View → Tree
page_tree splash = component (use_auth ∷ []) nothing
page_tree auth_screen = component (use_auth ∷ []) auth_screen_tree
page_tree (chat user) = component (use_auth ∷ []) chat_tree

abbrev no_provider : Above
no_provider = record { theme = false; toast = false; auth = false }

abbrev all_but : Hook → Above
all_but use_theme = record { theme = false; toast = true; auth = true }
all_but use_toast = record { theme = true; toast = false; auth = true }
all_but use_auth = record { theme = true; toast = true; auth = false }

-- Under the root layout no hook of any screen throws.
root_layout-provides : (v : View) → render_tree no_provider (root_layout (page_tree v)) ≡ ok tt
unfolding render_tree root_layout page_tree
root_layout-provides splash = refl
root_layout-provides auth_screen = refl
root_layout-provides (chat user) = refl

-- Both screens need every provider: without one of them its hook throws.
page_tree-needs :
    (h : Hook) (user : User)
    → (render_tree (all_but h) (page_tree auth_screen) ≡ call_hook (all_but h) h)
      × (render_tree (all_but h) (page_tree (chat user)) ≡ call_hook (all_but h) h)
      × (call_hook (all_but h) h ≢ ok tt)
unfolding render_tree page_tree
page_tree-needs use_theme user = (refl, refl, λ e. cc)
page_tree-needs use_toast user = (refl, refl, λ e. cc)
page_tree-needs use_auth user = (refl, refl, λ e. cc)
