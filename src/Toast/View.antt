-- ===== src/Toast/View.antt =====
-- What frontend/src/context/ToastProvider.tsx puts on the screen: a row for each note, with a button that takes
-- it down.
use axiom_ai.Common.{
  ℕ, suc, Bool, true, false, not, ◌==◌, ◌<◌, ◌≤◌, List, [], ◌∷◌, ◌++◌, map, filter, map-append, All,
  All-append, Text, codes, ◌≡◌, refl, arith, ap, ◌∙◌, Bool-cases, inl, inr,
}
use axiom_ai.Toast.{ToastTone, success, error, info, Toast, Toasts, start, dismiss, notify, fire}
use axiom_ai.Toast.Laws.{
  Step, notified, dismissed, fired, Reach, here, next, fire_all, fire_all-empty,
}

-- A tone is told by its colour.
abbrev pub tone_bar : ToastTone → Text
tone_bar success = codes "bg-emerald"
tone_bar error = codes "bg-rose"
tone_bar info = codes "bg-cyan"

pub record ToastRow : Type 0 where
  pub key : ℕ
  pub bar : Text
  pub message : Text

abbrev pub toast_row : Toast → ToastRow
toast_row t = record { key = t.id; bar = tone_bar t.tone; message = t.message }

unfoldable pub toast_rows : Toasts → List ToastRow
toast_rows s = map toast_row s.toasts

-- Ids grow from the front to the back, and the counter is above them.
abbrev IsAbove : ℕ → List Toast → Type 0
IsAbove n = All (λ t. n ≤ t.id)

abbrev IsGrowing : List Toast → Type 0
IsGrowing [] = Unit
IsGrowing (t ∷ ts) = IsAbove (suc t.id) ts × IsGrowing ts

record IsOrdered (s : Toasts) : Type 0 where
  growing : IsGrowing s.toasts
  below : All (λ t. t.id < s.next_id) s.toasts

All-filter :
    (P : Toast → Type 0) (keep : Toast → Bool) (ts : List Toast) → All P ts → All P (filter keep ts)
unfolding filter
All-filter P keep [] h = tt
All-filter P keep (t ∷ ts) h = elim (Bool-cases (keep t)) [
  | inl stays ↦ rw stays (h.0, All-filter P keep ts h.1)
  | inr gone ↦ rw gone (All-filter P keep ts h.1)
]

IsGrowing-filter :
    (keep : Toast → Bool) (ts : List Toast) → IsGrowing ts → IsGrowing (filter keep ts)
unfolding filter
IsGrowing-filter keep [] h = tt
IsGrowing-filter keep (t ∷ ts) h = elim (Bool-cases (keep t)) [
  | inl stays ↦
      rw stays (All-filter (λ u. suc t.id ≤ u.id) keep ts h.0, IsGrowing-filter keep ts h.1)
  | inr gone ↦ rw gone (IsGrowing-filter keep ts h.1)
]

-- All notes come before the counter, so a new one may be put behind them.
IsGrowing-append :
    (n : ℕ) (ts : List Toast) (t : Toast)
    → All (λ u. u.id < n) ts
    → t.id ≡ n
    → IsGrowing ts
    → IsGrowing (ts ++ t ∷ [])
IsGrowing-append n [] t h same g = (tt, tt)
IsGrowing-append n (u ∷ ts) t h same g =
    (All-append _ ts _ g.0 (omega (arith, h.0, same), tt), IsGrowing-append n ts t h.1 same g.1)

below_next : (n : ℕ) (ts : List Toast) → All (λ t. t.id < n) ts → All (λ t. t.id < suc n) ts
below_next n [] h = tt
below_next n (t ∷ ts) h = (omega (arith, h.0), below_next n ts h.1)

dismiss-IsOrdered : (id : ℕ) (s : Toasts) → IsOrdered s → IsOrdered (dismiss id s)
unfolding dismiss
dismiss-IsOrdered id s h = record {
  growing = IsGrowing-filter _ s.toasts h.growing;
  below = All-filter _ _ s.toasts h.below;
}

fire-IsOrdered : (s : Toasts) (ts : List ℕ) → s.timers ≡ ts → IsOrdered s → IsOrdered (fire s)
unfolding fire
fire-IsOrdered s [] e h = rw (e, fire) h
fire-IsOrdered s (t ∷ ts) e h =
    rw (e, fire)
      (dismiss-IsOrdered t (record s { timers = ts })
        (record { growing = h.growing; below = h.below }))

Step-IsOrdered : {s t : Toasts} → Step s t → IsOrdered s → IsOrdered t
unfolding notify
Step-IsOrdered (notified s message tone) h = record {
  growing = IsGrowing-append s.next_id s.toasts _ h.below refl h.growing;
  below = All-append _ s.toasts _ (below_next s.next_id s.toasts h.below) (omega arith, tt);
}
Step-IsOrdered (dismissed s id) h = dismiss-IsOrdered id s h
Step-IsOrdered (fired s) h = fire-IsOrdered s s.timers refl h

Reach-IsOrdered : {s t : Toasts} → IsOrdered s → Reach s t → IsOrdered t
Reach-IsOrdered h here = h
Reach-IsOrdered h (next r step) = Step-IsOrdered step (Reach-IsOrdered h r)

abbrev others : ℕ → List Toast → List Toast
others id = filter (λ t. not (t.id == id))

others_above : (id : ℕ) (ts : List Toast) → IsAbove (suc id) ts → others id ts ≡ ts
unfolding filter
others_above id [] h = refl
others_above id (t ∷ ts) h =
    let apart : (t.id == id) ≡ false = ground (arith, h.0) in
    rw apart (ap (t ∷◌) (others_above id ts h.1))

-- In growing order no two notes share an id.
others-one :
    (before : List Toast) (t : Toast) (after : List Toast)
    → IsGrowing (before ++ t ∷ after)
    → others t.id (before ++ t ∷ after) ≡ before ++ after
unfolding filter
others-one [] t after g =
    let gone : (t.id == t.id) ≡ true = ground arith in rw gone (others_above t.id after g.0)
others-one (u ∷ before) t after g =
    let above : suc u.id ≤ t.id = (All-last before g.0) in
    let apart : (u.id == t.id) ≡ false = ground arith in
    rw apart (ap (u ∷◌) (others-one before t after g.1))
  where
    All-last : (ts : List Toast) → IsAbove (suc u.id) (ts ++ t ∷ after) → suc u.id ≤ t.id
    All-last [] h = h.0
    All-last (v ∷ ts) h = All-last ts h.1

-- From the first render on, with notes shown and dismissed and timers fired in any order: the button
-- of a note takes down its row and no other, which stay in their order; and once the pending
-- timers have fired no row is left.
pub toast_rows-dismiss :
    (next_id : ℕ) {s : Toasts} (before : List Toast) (t : Toast) (after : List Toast)
    → Reach (start next_id) s
    → s.toasts ≡ before ++ t ∷ after
    → (toast_rows (dismiss t.id s) ≡ map toast_row before ++ map toast_row after)
      × (toast_rows (fire_all s) ≡ [])
unfolding toast_rows dismiss start
toast_rows-dismiss next_id {s} before t after r shown =
    let h : IsOrdered s = Reach-IsOrdered (record { growing = tt; below = tt }) r in
    (
      ap (λ ts. map toast_row (others t.id ts)) shown
          ∙ ap (map toast_row) (others-one before t after (rw shown at h.growing))
          ∙ map-append toast_row before after,
      ap (map toast_row) (fire_all-empty next_id r),
    )
