-- ===== src/Sidebar/Laws.antt =====
-- The initials of a name.
use axiom_ai.Common.{
  Bool, true, false, some, List, [], ◌∷◌, ◌++◌, All, take, filter, Text, text_truthy, is_space,
  trim, trim_start, trim_end, split_spaces, push_front, ◌≡◌, refl, ap, sym, ◌∙◌, Bool-cases, inl,
  inr, append_assoc,
}
use axiom_ai.Conversations.Titles.{trim_start-blank}
use axiom_ai.Sidebar.{words, last_of, letters, initials_of}

-- Some characters, none of them white space.
abbrev pub IsWord : Text → Type 0
IsWord [] = ⊥
IsWord (c ∷ s) = (is_space c ≡ false) × All (λ d. is_space d ≡ false) s

word_truthy : (w : Text) → IsWord w → text_truthy w ≡ true
word_truthy [] h = absurd h
word_truthy (c ∷ w) h = refl

split-gap :
    (w m : Text)
    → All (λ d. is_space d ≡ false) w
    → split_spaces false (w ++ 0x20 ∷ m) ≡ w ∷ split_spaces true m
unfolding split_spaces
split-gap [] m h = refl
split-gap (c ∷ w) m h = rw (h.0, split-gap w m h.1) refl

split-plain : (w : Text) → All (λ d. is_space d ≡ false) w → split_spaces false w ≡ w ∷ []
unfolding split_spaces
split-plain [] h = refl
split-plain (c ∷ w) h = rw (h.0, split-plain w h.1) refl

split-word : (inside : Bool) (v : Text) → IsWord v → split_spaces inside v ≡ v ∷ []
unfolding split_spaces
split-word inside [] h = absurd h
split-word inside (c ∷ v) h = rw (h.0, split-plain v h.1) refl

-- Behind a gap the last word is a piece of its own, whatever stands before the gap.
record HasLast (v : Text) (outside inside : List Text) : Type 0 where
  first : Text
  before : List Text
  within : List Text
  from_outside : outside ≡ first ∷ (before ++ v ∷ [])
  from_inside : inside ≡ within ++ v ∷ []

module _ (v : Text) (word : IsWord v) where
  split_last :
      (m : Text)
      → HasLast v (split_spaces false (m ++ 0x20 ∷ v)) (split_spaces true (m ++ 0x20 ∷ v))
  unfolding split_spaces
  split_last [] = record {
    first = [];
    before = [];
    within = [];
    from_outside = rw (split-word true v word) refl;
    from_inside = split-word true v word;
  }
  split_last (c ∷ m) =
      let h = split_last m in
      elim (Bool-cases (is_space c)) [
        | inl space ↦ record {
          first = [];
          before = h.within;
          within = h.within;
          from_outside = rw space (ap (◌∷◌ []) h.from_inside);
          from_inside = rw space h.from_inside;
        }
        | inr other ↦ record {
          first = c ∷ h.first;
          before = h.before;
          within = (c ∷ h.first) ∷ h.before;
          from_outside = rw other (ap (push_front c) h.from_outside);
          from_inside = rw other (ap (push_front c) h.from_outside);
        }
      ]

  filter-last :
      (qs : List Text) → filter text_truthy (qs ++ v ∷ []) ≡ filter text_truthy qs ++ v ∷ []
  unfolding filter
  filter-last [] = rw (word_truthy v word) refl
  filter-last (q ∷ qs) = elim (Bool-cases (text_truthy q)) [
    | inl some_text ↦ rw some_text (ap (q ∷◌) (filter-last qs))
    | inr empty ↦ rw empty (filter-last qs)
  ]

  last_of-append : (w : Text) (ys : List Text) → last_of w (ys ++ v ∷ []) ≡ v
  unfolding last_of
  last_of-append w [] = refl
  last_of-append w (y ∷ ys) = last_of-append y ys

  letters-last : (w : Text) (ys : List Text) → letters (w ∷ (ys ++ v ∷ [])) ≡ take 1 w ++ take 1 v
  unfolding letters
  letters-last w [] = refl
  letters-last w (y ∷ ys) = ap (λ (t : Text). take 1 w ++ take 1 t) (last_of-append y ys)

  truthy_before : (x : Text) → text_truthy (x ++ v) ≡ true
  truthy_before [] = word_truthy v word
  truthy_before (c ∷ x) = refl

trim_end-plain : (w : Text) → All (λ d. is_space d ≡ false) w → trim_end w ≡ w
unfolding trim_end
trim_end-plain [] h = refl
trim_end-plain (c ∷ w) h = rw (h.0, trim_end-plain w h.1) refl

plain_of_word : (w : Text) → IsWord w → All (λ d. is_space d ≡ false) w
plain_of_word [] h = absurd h
plain_of_word (c ∷ w) h = h

trim_end-append : (x v : Text) → IsWord v → trim_end (x ++ v) ≡ x ++ v
unfolding trim_end
trim_end-append [] v h = trim_end-plain v (plain_of_word v h)
trim_end-append (c ∷ x) v h = elim (Bool-cases (is_space c)) [
  | inl space ↦ rw (space, trim_end-append x v h, truthy_before v h x) refl
  | inr other ↦ rw (other, trim_end-append x v h) refl
]

trim_start-word : (w s : Text) → IsWord w → trim_start (w ++ s) ≡ w ++ s
unfolding trim_start
trim_start-word [] s h = absurd h
trim_start-word (c ∷ w) s h = rw (h.0) refl

words-word : (w : Text) → IsWord w → words w ≡ w ∷ []
unfolding words filter
words-word w h = rw (split-plain w (plain_of_word w h)) (rw (word_truthy w h) refl)

trim-between : (w m v : Text) → IsWord w → IsWord v → trim (w ++ (m ++ v)) ≡ w ++ (m ++ v)
unfolding trim
trim-between w m v hw hv =
    ap trim_end (trim_start-word w (m ++ v) hw ∙ sym (append_assoc w m v))
    ∙ trim_end-append (w ++ m) v hv
    ∙ append_assoc w m v

trim_of_word : (w : Text) → IsWord w → trim w ≡ w
unfolding trim trim_start
trim_of_word [] h = absurd h
trim_of_word (c ∷ w) h = rw h.0 (trim_end-plain (c ∷ w) h)

trim-gap :
    (w m v : Text)
    → IsWord w
    → IsWord v
    → trim (w ++ 0x20 ∷ (m ++ 0x20 ∷ v)) ≡ w ++ 0x20 ∷ (m ++ 0x20 ∷ v)
trim-gap w m v hw hv =
    let gap = ap (λ (t : Text). w ++ 0x20 ∷ t) (append_assoc m (0x20 ∷ []) v) in
    ap trim (sym gap) ∙ trim-between w (0x20 ∷ (m ++ 0x20 ∷ [])) v hw hv ∙ gap

words-between :
    (w m v : Text)
    → IsWord w
    → IsWord v
    → (qs : List Text) × (words (w ++ 0x20 ∷ (m ++ 0x20 ∷ v)) ≡ w ∷ (qs ++ v ∷ []))
unfolding words filter
words-between w m v hw hv =
    let h = split_last v hv m in
    (
      filter text_truthy h.within,
      ap (filter text_truthy) (split-gap w (m ++ 0x20 ∷ v) (plain_of_word w hw))
          ∙ (rw (word_truthy w hw)
              (ap (w ∷◌) (ap (filter text_truthy) h.from_inside ∙ filter-last v hv h.within))),
    )

nonempty : (w s : Text) → IsWord w → text_truthy (w ++ s) ≡ true
nonempty [] s h = absurd h
nonempty (c ∷ w) s h = refl

initials-blank :
    (upper : Text → Text) (b : Text)
    → All (λ c. is_space c ≡ true) b
    → initials_of upper (some b) ≡ []
unfolding initials_of trim words split_spaces filter
initials-blank upper [] h = refl
initials-blank upper (c ∷ b) h = rw (trim_start-blank (c ∷ b) h) refl

initials-word :
    (upper : Text → Text) (w : Text) → IsWord w → initials_of upper (some w) ≡ upper (take 2 w)
unfolding initials_of letters
initials-word upper [] h = absurd h
initials-word upper (c ∷ w) h = rw (trim_of_word (c ∷ w) h) (rw (words-word (c ∷ w) h) refl)

initials-between :
    (upper : Text → Text) (w m v : Text)
    → IsWord w
    → IsWord v
    → initials_of upper (some (w ++ 0x20 ∷ (m ++ 0x20 ∷ v))) ≡ upper (take 1 w ++ take 1 v)
unfolding initials_of
initials-between upper w m v hw hv =
    let (qs, e) = words-between w m v hw hv in
    rw (nonempty w (0x20 ∷ (m ++ 0x20 ∷ v)) hw, trim-gap w m v hw hv)
      (rw e (ap upper (letters-last v hv w qs)))

-- A name of white space alone has no initials; a name that is one word has its first two characters;
-- and a name with a first and a last word, whatever stands between the blanks behind the first and
-- before the last one, has the first character of each, all in upper case.
initials_of_words :
    (upper : Text → Text) (b w m v : Text)
    → All (λ c. is_space c ≡ true) b
    → IsWord w
    → IsWord v
    → (initials_of upper (some b) ≡ [])
      × (initials_of upper (some w) ≡ upper (take 2 w))
      × (initials_of upper (some (w ++ 0x20 ∷ (m ++ 0x20 ∷ v))) ≡ upper (take 1 w ++ take 1 v))
initials_of_words upper b w m v blank hw hv =
    (initials-blank upper b blank, initials-word upper w hw, initials-between upper w m v hw hv)
