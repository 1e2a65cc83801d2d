-- ===== src/Conversations/Sorting.antt =====
-- `sortByRecent`: newest first, nothing lost, and ties in the order they had.
use mathlib.Core.List.{Perm}
use mathlib.Core.List.Perm
use axiom_ai.Common.{
  ℕ, ◌≤◌, List, [], ◌∷◌, ◌==◌, filter, All, leb, leb→le, ◌≡◌, refl, arith, Bool-cases, inl, inr,
}
use axiom_ai.Types.{Conversation}
use axiom_ai.Conversations.{insert_by_recent, sort_by_recent}

abbrev pub IsNewestFirst : List Conversation → Type 0
IsNewestFirst [] = Unit
IsNewestFirst (c ∷ cs) = All (λ d. d.updated_at ≤ c.updated_at) cs × IsNewestFirst cs

insert_by_recent-perm :
    (c : Conversation) (cs : List Conversation) → Perm (insert_by_recent c cs) (c ∷ cs)
unfolding insert_by_recent
insert_by_recent-perm c [] = Perm.refl (c ∷ [])
insert_by_recent-perm c (d ∷ cs) = elim (Bool-cases (leb d.updated_at c.updated_at)) [
  | inl here ↦ rw here (Perm.refl (c ∷ d ∷ cs))
  | inr later ↦ rw later (Perm.trans (Perm.cons d (insert_by_recent-perm c cs)) (Perm.swap c d cs))
]

-- The sorted list holds the same conversations.
pub sort_by_recent-perm : (cs : List Conversation) → Perm (sort_by_recent cs) cs
unfolding sort_by_recent
sort_by_recent-perm [] = Perm.refl []
sort_by_recent-perm (c ∷ cs) =
    Perm.trans (insert_by_recent-perm c (sort_by_recent cs)) (Perm.cons c (sort_by_recent-perm cs))

All-weaken :
    (m n : ℕ) (cs : List Conversation)
    → m ≤ n
    → All (λ d. d.updated_at ≤ m) cs
    → All (λ d. d.updated_at ≤ n) cs
All-weaken m n [] h a = tt
All-weaken m n (c ∷ cs) h a = (omega arith, All-weaken m n cs h a.1)

All-insert_by_recent :
    (n : ℕ) (c : Conversation) (cs : List Conversation)
    → c.updated_at ≤ n
    → All (λ d. d.updated_at ≤ n) cs
    → All (λ d. d.updated_at ≤ n) (insert_by_recent c cs)
unfolding insert_by_recent
All-insert_by_recent n c [] h a = (h, tt)
All-insert_by_recent n c (d ∷ cs) h a = elim (Bool-cases (leb d.updated_at c.updated_at)) [
  | inl here ↦ rw here (h, a)
  | inr later ↦ rw later (a.0, All-insert_by_recent n c cs h a.1)
]

insert_by_recent-IsNewestFirst :
    (c : Conversation) (cs : List Conversation)
    → IsNewestFirst cs
    → IsNewestFirst (insert_by_recent c cs)
unfolding insert_by_recent
insert_by_recent-IsNewestFirst c [] h = (tt, tt)
insert_by_recent-IsNewestFirst c (d ∷ cs) h = elim (Bool-cases (leb d.updated_at c.updated_at)) [
  | inl here ↦
      let newer = leb→le d.updated_at c.updated_at here in
      rw here ((newer, All-weaken d.updated_at c.updated_at cs newer h.0), h)
  | inr later ↦ rw later (
    All-insert_by_recent d.updated_at c cs (ground arith) h.0,
    insert_by_recent-IsNewestFirst c cs h.1,
  )
]

-- No conversation stands behind an older one.
pub sort_by_recent-IsNewestFirst : (cs : List Conversation) → IsNewestFirst (sort_by_recent cs)
unfolding sort_by_recent
sort_by_recent-IsNewestFirst [] = tt
sort_by_recent-IsNewestFirst (c ∷ cs) =
    insert_by_recent-IsNewestFirst c (sort_by_recent cs) (sort_by_recent-IsNewestFirst cs)

-- The conversations of one time, in their order.
abbrev pub at_time : ℕ → List Conversation → List Conversation
at_time t = filter (λ c. c.updated_at == t)

insert_by_recent-at_time :
    (t : ℕ) (c : Conversation) (cs : List Conversation)
    → at_time t (insert_by_recent c cs) ≡ at_time t (c ∷ cs)
unfolding insert_by_recent filter
insert_by_recent-at_time t c [] = refl
insert_by_recent-at_time t c (d ∷ cs) = ground (arith, insert_by_recent-at_time t c cs)

-- Sorting is stable.
pub sort_by_recent-at_time :
    (t : ℕ) (cs : List Conversation) → at_time t (sort_by_recent cs) ≡ at_time t cs
unfolding sort_by_recent filter
sort_by_recent-at_time t [] = refl
sort_by_recent-at_time t (c ∷ cs) =
    ground (arith, insert_by_recent-at_time t c (sort_by_recent cs), sort_by_recent-at_time t cs)

-- What the sidebar is given: the same conversations, newest first, ties as they were.
pub sort_by_recent_sorts :
    (cs : List Conversation)
    → Perm (sort_by_recent cs) cs
      × IsNewestFirst (sort_by_recent cs)
      × ((t : ℕ) → at_time t (sort_by_recent cs) ≡ at_time t cs)
sort_by_recent_sorts cs =
    (sort_by_recent-perm cs, sort_by_recent-IsNewestFirst cs, λ t. sort_by_recent-at_time t cs)
