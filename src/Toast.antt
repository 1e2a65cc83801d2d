-- ===== src/Toast.antt =====
-- frontend/src/context/ToastProvider.tsx: the notes on the screen and the timers that take them down.
pub mod Laws
pub mod View
use axiom_ai.Common.{ℕ, suc, Bool, not, ◌==◌, List, [], ◌∷◌, ◌++◌, filter, Text}

pub data ToastTone : Type 0 where
  success error info : ToastTone

pub record Toast : Type 0 where
  pub id : ℕ
  pub message : Text
  pub tone : ToastTone

-- `next_id` is the module's counter; `timers` are the ids that a timer is pending for.
pub record Toasts : Type 0 where
  pub next_id : ℕ
  pub toasts : List Toast
  pub timers : List ℕ

-- The first render of a provider, in a module that has counted so far.
unfoldable pub start : ℕ → Toasts
start next_id = record { next_id = next_id; toasts = []; timers = [] }

unfoldable pub dismiss : ℕ → Toasts → Toasts
unfolding filter
dismiss id s = record s { toasts = filter (λ toast. not (toast.id == id)) s.toasts }

unfoldable pub notify : Text → ToastTone → Toasts → Toasts
notify message tone s = record {
  next_id = suc s.next_id;
  toasts = s.toasts ++ record { id = s.next_id; message = message; tone = tone } ∷ [];
  timers = s.timers ++ s.next_id ∷ [];
}

-- The oldest timer fires; all of them take the same five seconds.
unfoldable pub fire : Toasts → Toasts
unfolding dismiss
fire s = elim s.timers [ [] ↦ s | id ∷ later ↦ dismiss id (record s { timers = later }) ]
