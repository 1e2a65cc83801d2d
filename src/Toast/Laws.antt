-- ===== src/Toast/Laws.antt =====
-- Every note goes: its timer is pending for as long as it is shown.
use axiom_ai.Common.{
  ℕ, Bool, true, not, ◌==◌, List, [], ◌∷◌, ◌++◌, filter, any, All, All-append, any-append, Text,
  ◌≡◌, refl, arith, Bool-cases, inl, inr,
}
use axiom_ai.Toast.{ToastTone, Toast, Toasts, start, dismiss, notify, fire}

-- What a person, the program and the clock do to the notes.
pub data Step : Toasts → Toasts → Type 0 where
  notified : (s : Toasts) (message : Text) (tone : ToastTone) → Step s (notify message tone s)
  dismissed : (s : Toasts) (id : ℕ) → Step s (dismiss id s)
  fired : (s : Toasts) → Step s (fire s)

pub data Reach (s : Toasts) : Toasts → Type 0 where
  here : Reach s s
  next : {t u : Toasts} → Reach s t → Step t u → Reach s u

abbrev is_pending : List ℕ → ℕ → Bool
is_pending timers id = any (λ t. t == id) timers

-- Each note has its timer.
abbrev IsTimed : List ℕ → List Toast → Type 0
IsTimed timers = All (λ t. is_pending timers t.id ≡ true)

IsTimed-append : (ts more : List ℕ) (xs : List Toast) → IsTimed ts xs → IsTimed (ts ++ more) xs
IsTimed-append ts more [] h = tt
IsTimed-append ts more (x ∷ xs) h =
    (ground (arith, any-append (λ t. t == x.id) ts more, h.0), IsTimed-append ts more xs h.1)

IsTimed-filter :
    (ts : List ℕ) (id : ℕ) (xs : List Toast)
    → IsTimed ts xs
    → IsTimed ts (filter (λ x. not (x.id == id)) xs)
unfolding filter
IsTimed-filter ts id [] h = tt
IsTimed-filter ts id (x ∷ xs) h = elim (Bool-cases (x.id == id)) [
  | inl gone ↦ rw gone (IsTimed-filter ts id xs h.1)
  | inr stays ↦ rw stays (h.0, IsTimed-filter ts id xs h.1)
]

-- Without its notes an id needs no timer.
IsTimed-fired :
    (ts : List ℕ) (id : ℕ) (xs : List Toast)
    → IsTimed (id ∷ ts) xs
    → IsTimed ts (filter (λ x. not (x.id == id)) xs)
unfolding filter any
IsTimed-fired ts id [] h = tt
IsTimed-fired ts id (x ∷ xs) h = elim (Bool-cases (x.id == id)) [
  | inl gone ↦ rw gone (IsTimed-fired ts id xs h.1)
  | inr stays ↦ rw stays (ground (arith, h.0), IsTimed-fired ts id xs h.1)
]

pending_last : (ts : List ℕ) (id : ℕ) → is_pending (ts ++ id ∷ []) id ≡ true
unfolding any
pending_last [] id = ground arith
pending_last (t ∷ ts) id = ground (arith, pending_last ts id)

fire-IsTimed :
    (s : Toasts) (ts : List ℕ)
    → s.timers ≡ ts
    → IsTimed s.timers s.toasts
    → IsTimed (fire s).timers (fire s).toasts
unfolding fire dismiss
fire-IsTimed s [] e h = rw (e, fire) h
fire-IsTimed s (t ∷ ts) e h = rw (e, fire) (IsTimed-fired ts t s.toasts (rw e at h))

Step-IsTimed : {s t : Toasts} → Step s t → IsTimed s.timers s.toasts → IsTimed t.timers t.toasts
unfolding notify dismiss
Step-IsTimed (notified s message tone) h =
    All-append _ s.toasts _ (IsTimed-append s.timers (s.next_id ∷ []) s.toasts h)
      (pending_last s.timers s.next_id, tt)
Step-IsTimed (dismissed s id) h = IsTimed-filter s.timers id s.toasts h
Step-IsTimed (fired s) h = fire-IsTimed s s.timers refl h

Reach-IsTimed : {s t : Toasts} → Reach s t → IsTimed s.timers s.toasts → IsTimed t.timers t.toasts
Reach-IsTimed here h = h
Reach-IsTimed (next r step) h = Step-IsTimed step (Reach-IsTimed r h)

-- The timers that are pending fire, one after the other.
fire_all_from : List ℕ → Toasts → Toasts
fire_all_from [] s = s
fire_all_from (t ∷ ts) s = fire_all_from ts (fire s)

unfoldable pub fire_all : Toasts → Toasts
unfolding fire_all_from
fire_all s = fire_all_from s.timers s

fired_out :
    (ts : List ℕ) (s : Toasts)
    → s.timers ≡ ts
    → IsTimed s.timers s.toasts
    → (fire_all_from ts s).toasts ≡ []
unfolding fire_all_from fire dismiss any
fired_out [] s e h = none_timed s.toasts (rw e at h)
  where
    none_timed : (xs : List Toast) → IsTimed [] xs → xs ≡ []
    none_timed [] h = refl
    none_timed (x ∷ xs) h = cc (h.0)
fired_out (t ∷ ts) s e h = fired_out ts (fire s) (rw (e, fire) refl) (fire-IsTimed s (t ∷ ts) e h)

-- However notes were shown and dismissed, once the pending timers have fired no note is left.
pub fire_all-empty : (next_id : ℕ) {s : Toasts} → Reach (start next_id) s → (fire_all s).toasts ≡ []
unfolding fire_all start
fire_all-empty next_id {s} r = fired_out s.timers s refl (Reach-IsTimed r tt)
