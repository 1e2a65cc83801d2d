-- ===== src/Conversations/Titles.antt =====
-- What `titleFromMessage` makes of a message.
use axiom_ai.Common.{
  ℕ, zero, suc, ◌≤◌, ◌<◌, Bool, true, false, [], ◌∷◌, ◌++◌, take, length, All, leb, length-append,
  length-take-le, Text, codes, trim, trim_start, trim_end, is_space, ◌≡◌, refl, arith, Bool-cases,
  ap, ap₂, sym, inl, inr,
}
use axiom_ai.Conversations.{collapse, shorten, title_from_message}

-- White space is single spaces: no other character of it, and no two in a row. The flag says that
-- a space stands before the text.
abbrev pub IsTidy : Bool → Text → Type 0
IsTidy after [] = Unit
IsTidy after (c ∷ s) = (is_space c ≡ true → (c ≡ 0x20) × (after ≡ false)) × IsTidy (is_space c) s

collapse-IsTidy : (inside : Bool) (s : Text) → IsTidy inside (collapse inside s)
unfolding collapse
collapse-IsTidy inside [] = tt
collapse-IsTidy true (c ∷ s) = elim (Bool-cases (is_space c)) [
  | inl space ↦ rw (space, collapse) (collapse-IsTidy true s)
  | inr other ↦ rw (other, collapse) (rw other ((λ e. cc), collapse-IsTidy false s))
]
collapse-IsTidy false (c ∷ s) = elim (Bool-cases (is_space c)) [
  | inl space ↦ rw (space, collapse) ((λ e. (refl, refl)), collapse-IsTidy true s)
  | inr other ↦ rw (other, collapse) (rw other ((λ e. cc), collapse-IsTidy false s))
]

IsTidy-take : (n : ℕ) (after : Bool) (s : Text) → IsTidy after s → IsTidy after (take n s)
IsTidy-take zero after s h = tt
IsTidy-take (suc n) after [] h = tt
IsTidy-take (suc n) after (c ∷ s) h = (h.0, IsTidy-take n (is_space c) s h.1)

IsTidy-append_ellipsis : (after : Bool) (s : Text) → IsTidy after s → IsTidy after (s ++ codes "…")
unfolding is_space
IsTidy-append_ellipsis after [] h = ((λ e. cc), tt)
IsTidy-append_ellipsis after (c ∷ s) h = (h.0, IsTidy-append_ellipsis (is_space c) s h.1)

-- A text that does not begin with white space.
abbrev BeginsPlain : Text → Type 0
BeginsPlain [] = Unit
BeginsPlain (c ∷ s) = is_space c ≡ false

trim_start-BeginsPlain : (s : Text) → BeginsPlain (trim_start s)
unfolding trim_start
trim_start-BeginsPlain [] = tt
trim_start-BeginsPlain (c ∷ s) = elim (Bool-cases (is_space c)) [
  | inl space ↦ rw (space, trim_start) (trim_start-BeginsPlain s)
  | inr other ↦ rw (other, trim_start) other
]

trim_end-BeginsPlain : (s : Text) → BeginsPlain s → BeginsPlain (trim_end s)
unfolding trim_end
trim_end-BeginsPlain [] h = tt
trim_end-BeginsPlain (c ∷ s) h = rw (h, trim_end) h

trim-BeginsPlain : (s : Text) → BeginsPlain (trim s)
unfolding trim
trim-BeginsPlain s = trim_end-BeginsPlain (trim_start s) (trim_start-BeginsPlain s)

collapse-BeginsPlain : (s : Text) → BeginsPlain s → collapse false s ≡ collapse true s
unfolding collapse
collapse-BeginsPlain [] h = refl
collapse-BeginsPlain (c ∷ s) h = rw (h, collapse)

trimmed-IsTidy : (s : Text) → IsTidy true (collapse false (trim s))
trimmed-IsTidy s =
    rw (collapse-BeginsPlain (trim s) (trim-BeginsPlain s)) (collapse-IsTidy true (trim s))

abbrev pub IsTitle : Text → Type 0
IsTitle t = (0 < length t) × (length t ≤ 49) × IsTidy true t

shorten-IsTitle : (t : Text) → IsTidy true t → IsTitle (shorten t)
unfolding shorten is_space
shorten-IsTitle [] h = ground arith
shorten-IsTitle (c ∷ t) h = elim (Bool-cases (leb (suc (length t)) 48)) [
  | inl short ↦ rw short (omega arith, ground arith, h)
  | inr long ↦
      let cut = take 48 (c ∷ t) in
      rw long (
        omega arith,
        omega (arith, length-append {0} cut (codes "…"), length-take-le {0} 48 (c ∷ t)),
        IsTidy-append_ellipsis true cut (IsTidy-take 48 true (c ∷ t) h),
      )
]

-- A title is never empty, has at most 49 code units, and no white space but single spaces, of
-- which none comes first.
pub title_from_message-IsTitle : (content : Text) → IsTitle (title_from_message content)
unfolding title_from_message
title_from_message-IsTitle content =
    shorten-IsTitle (collapse false (trim content)) (trimmed-IsTidy content)

pub trim_start-blank : (s : Text) → All (λ c. is_space c ≡ true) s → trim_start s ≡ []
unfolding trim_start
trim_start-blank [] h = refl
trim_start-blank (c ∷ s) h = rw h.0 (trim_start-blank s h.1)

-- White space alone gives the placeholder.
pub title_from_message-blank :
    (content : Text)
    → All (λ c. is_space c ≡ true) content
    → title_from_message content ≡ codes "New chat"
unfolding title_from_message
title_from_message-blank content h = rw (trim_start-blank content h, trim) refl

collapse_of_IsTidy : (inside : Bool) (s : Text) → IsTidy inside s → collapse inside s ≡ s
unfolding collapse
collapse_of_IsTidy inside [] h = refl
collapse_of_IsTidy inside (c ∷ s) h = elim (Bool-cases (is_space c)) [
  | inl space ↦
      let (blank, first) = h.0 space in
      let rest = rw space at (h.1) in
      rw (space, first) (ap₂ ◌∷◌ (sym blank) (collapse_of_IsTidy true s rest))
  | inr other ↦
      let rest = rw other at (h.1) in rw other (ap (◌∷◌ c) (collapse_of_IsTidy false s rest))
]

-- A short message with nothing to trim or to collapse is its own title.
pub title_from_message-short :
    (content : Text)
    → 0 < length content
    → length content ≤ 48
    → trim content ≡ content
    → IsTidy false content
    → title_from_message content ≡ content
unfolding title_from_message
title_from_message-short content some_text short clean tidy =
    rw (clean, collapse_of_IsTidy false content tidy) (shorten_of_short content some_text short)
  where
    shorten_of_short : (t : Text) → 0 < length t → length t ≤ 48 → shorten t ≡ t
    shorten_of_short [] p q = absurd (omega arith)
    shorten_of_short (c ∷ t) p q = ground arith
