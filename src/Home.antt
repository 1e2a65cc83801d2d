-- ===== src/Home.antt =====
-- frontend/src/app/page.tsx: which screen is shown.
pub mod Reload
use axiom_ai.Common.{Bool, true, false, Option, none, some, if◌then◌else◌}
use axiom_ai.Types.{User}
use axiom_ai.AuthProvider.{Auth, current_user}

pub data View : Type 0 where
  splash auth_screen : View
  chat : User → View

abbrev pub view_of : Option User → View
view_of none = auth_screen
view_of (some user) = chat user

unfoldable pub home : Auth → View
unfolding current_user
home a = if a.is_ready then view_of (current_user a) else splash
