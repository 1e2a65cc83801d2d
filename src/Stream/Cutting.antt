-- ===== src/Stream/Cutting.antt =====
-- Cutting the buffer into frames: `split` and `pop` as one function, and what appending does to it.
use axiom_ai.Common.{
  ℕ, ◌==◌, ◌&&◌, List, [], ◌∷◌, ◌++◌, if◌then◌else◌, Text, ◌≡◌, refl, Bool-cases, inl, inr, ap, sym,
  ◌∙◌,
}
use axiom_ai.Common.{push_front}
use axiom_ai.Stream.{split_frames, pop_last}

-- The complete frames of a buffer, and what stays.
pub push : ℕ → List Text × Text → List Text × Text
push c ([], rest) = ([], c ∷ rest)
push c (f ∷ fs, rest) = ((c ∷ f) ∷ fs, rest)

unfoldable pub cut : Text → List Text × Text
unfolding push
cut [] = ([], [])
cut (c ∷ []) = ([], c ∷ [])
cut (c ∷ d ∷ s) =
    let after = cut s in
    let on = cut (d ∷ s) in if c == 0xa && d == 0xa then ([] ∷ after.0, after.1) else push c on

pop_last-concat : (fs : List Text) (r : Text) → pop_last (fs ++ r ∷ []) ≡ (fs, r)
unfolding pop_last
pop_last-concat [] r = refl
pop_last-concat (f ∷ []) r = refl
pop_last-concat (f ∷ g ∷ fs) r = rw (pop_last-concat (g ∷ fs) r)

push_front-push :
    (c : ℕ) (p : List Text × Text)
    → push_front c (p.0 ++ p.1 ∷ []) ≡ (push c p).0 ++ (push c p).1 ∷ []
unfolding push_front push
push_front-push c ([], r) = refl
push_front-push c (f ∷ fs, r) = refl

split_frames-cut : (s : Text) → split_frames s ≡ (cut s).0 ++ (cut s).1 ∷ []
unfolding split_frames cut
split_frames-cut [] = refl
split_frames-cut (c ∷ []) = refl
split_frames-cut (c ∷ d ∷ s) = elim (Bool-cases (c == 0xa && d == 0xa)) [
  | inl blank ↦ rw blank (ap (◌∷◌ []) (split_frames-cut s))
  | inr other ↦
      rw other (ap (push_front c) (split_frames-cut (d ∷ s)) ∙ push_front-push c (cut (d ∷ s)))
]

-- `split` and `pop` together are `cut`.
pub pop_last-split_frames : (s : Text) → pop_last (split_frames s) ≡ cut s
pop_last-split_frames s = ap pop_last (split_frames-cut s) ∙ pop_last-concat (cut s).0 (cut s).1

-- A text with no complete frame stays whole.
push_whole :
    (c : ℕ) (p : List Text × Text) (s : Text)
    → (p.0 ≡ [] → p.1 ≡ s)
    → (push c p).0 ≡ []
    → (push c p).1 ≡ c ∷ s
unfolding push
push_whole c ([], r) s h e = ap (◌∷◌ c) (h refl)
push_whole c (f ∷ fs, r) s h e = cc

pub cut_whole : (s : Text) → (cut s).0 ≡ [] → (cut s).1 ≡ s
unfolding cut
cut_whole [] e = refl
cut_whole (c ∷ []) e = refl
cut_whole (c ∷ d ∷ s) e = elim (Bool-cases (c == 0xa && d == 0xa)) [
  | inl blank ↦ (let nonempty = rw blank at e in cc)
  | inr other ↦ rw other (push_whole c (cut (d ∷ s)) (d ∷ s) (cut_whole (d ∷ s)) (rw other at e))
]

push-append :
    (c : ℕ) (s t : Text) (p : List Text × Text)
    → (p.0 ≡ [] → p.1 ≡ s)
    → cut (s ++ t) ≡ (p.0 ++ (cut (p.1 ++ t)).0, (cut (p.1 ++ t)).1)
    → cut (c ∷ s ++ t) ≡ push c (cut (s ++ t))
    → push c (cut (s ++ t))
      ≡ ((push c p).0 ++ (cut ((push c p).1 ++ t)).0, (cut ((push c p).1 ++ t)).1)
unfolding push
push-append c s t ([], r) whole ih step = rw (whole refl) (sym step)
push-append c s t (f ∷ fs, r) whole ih step = ap (push c) ih

-- To cut a longer text, cut the shorter one and go on from what stayed.
pub cut-append :
    (s t : Text) → cut (s ++ t) ≡ ((cut s).0 ++ (cut ((cut s).1 ++ t)).0, (cut ((cut s).1 ++ t)).1)
unfolding cut
cut-append [] t = refl
cut-append (c ∷ []) t = refl
cut-append (c ∷ d ∷ s) t = elim (Bool-cases (c == 0xa && d == 0xa)) [
  | inl blank ↦ rw blank (λ i. ([] ∷ (cut-append s t i).0, (cut-append s t i).1))
  | inr other ↦ rw other (
      push-append c (d ∷ s) t (cut (d ∷ s)) (cut_whole (d ∷ s)) (cut-append (d ∷ s) t)
        (rw (other, cut)))
]
