-- ===== src/Bubble/Laws.antt =====
-- The sources of an answer.
use axiom_ai.Common.{
  ℕ, zero, suc, ◌+◌, ◌<◌, ◌==◌, true, false, Option, none, some, List, [], ◌∷◌, filter, get_elem?,
  Text, codes, ◌≡◌, refl, arith, ap, ◌∙◌,
}
use axiom_ai.Json.{Json, arr, of_items, prop}
use axiom_ai.Types.Encode.{items-of_items}
use axiom_ai.Types.{assistant, Message}
use axiom_ai.Bubble.{
  Bubble, Source, is_expanded, toggle, file_of, sources_from, details, bubble_view,
}

-- The buttons that are pressed.
abbrev pub pressed : List Source → List Source
pressed = filter (λ s. s.is_open)

pressed-none : (k : ℕ) (cs : List Json) → pressed (sources_from k none cs) ≡ []
unfolding sources_from filter
pressed-none k [] = refl
pressed-none k (c ∷ cs) = pressed-none (suc k) cs

pressed-behind : (j k : ℕ) (cs : List Json) → j < k → pressed (sources_from k (some j) cs) ≡ []
unfolding sources_from filter
pressed-behind j k [] h = refl
pressed-behind j k (c ∷ cs) h =
    let other : (j == k) ≡ false = ground arith in
    rw other (pressed-behind j (suc k) cs (omega arith))

some_cancel : (c d : Json) → some c ≡ some d → c ≡ d
some_cancel c d e = cc

pressed-one :
    (j k i : ℕ) (cs : List Json) (c : Json)
    → j ≡ k + i
    → get_elem? cs i ≡ some c
    → pressed (sources_from k (some j) cs)
      ≡ record { number = j + 1; file = file_of c; is_open = true } ∷ []
unfolding sources_from filter
pressed-one j k i [] c e there = cc
pressed-one j k zero (d ∷ cs) c e there =
    let same : (j == k) ≡ true = ground arith in
    let here : j ≡ k = omega arith in
    let first : d ≡ c = some_cancel d c there in
    rw same (rw (pressed-behind j (suc k) cs (omega arith), here, first) refl)
pressed-one j k (suc i) (d ∷ cs) c e there =
    let other : (j == k) ≡ false = ground arith in
    rw other (pressed-one j (suc k) i cs c (omega arith) there)

toggle_on : (b : Bubble) (i : ℕ) → is_expanded b.expanded i ≡ false → (toggle i b).expanded ≡ some i
unfolding toggle
toggle_on b i closed = rw closed refl

toggle_off :
    (b : Bubble) (i : ℕ)
    → is_expanded b.expanded i ≡ false
    → (toggle i (toggle i b)).expanded ≡ none
unfolding toggle
toggle_off b i closed = let same : (i == i) ≡ true = ground arith in rw closed (rw same refl)

-- What an answer shows of its sources.
answer_sources :
    (initials : Text) (m : Message) (b : Bubble) (cs : List Json) (o : Option ℕ)
    → m.role ≡ assistant
    → m.citations ≡ some (arr (of_items cs))
    → b.expanded ≡ o
    → ((bubble_view initials m b).sources ≡ sources_from 0 o cs)
      × ((bubble_view initials m b).expanded_source ≡ details o cs)
unfolding bubble_view
answer_sources initials m b cs o answer cited e =
    rw (answer, cited, items-of_items cs, e) (refl, refl)

-- An answer has some sources, and one of them is clicked on that is not expanded. Its button is the
-- only one that is pressed, and its file and its text stand below; a second click presses no button
-- and leaves nothing there.
toggle-pressed :
    (initials : Text) (m : Message) (b : Bubble) (cs : List Json) (i : ℕ) (c : Json)
    → m.role ≡ assistant
    → m.citations ≡ some (arr (of_items cs))
    → get_elem? cs i ≡ some c
    → is_expanded b.expanded i ≡ false
    → let once = bubble_view initials m (toggle i b) in
      let twice = bubble_view initials m (toggle i (toggle i b)) in
      (pressed once.sources ≡ record { number = i + 1; file = file_of c; is_open = true } ∷ [])
      × (once.expanded_source ≡ some (file_of c, prop (codes "text") c))
      × (pressed twice.sources ≡ [])
      × (twice.expanded_source ≡ none)
unfolding details
toggle-pressed initials m b cs i c answer cited there closed =
    let once =
      answer_sources initials m (toggle i b) cs (some i) answer cited (toggle_on b i closed) in
    let twice =
      answer_sources initials m (toggle i (toggle i b)) cs none answer cited
        (toggle_off b i closed) in
    (
      ap pressed once.0 ∙ pressed-one i 0 i cs c (omega arith) there,
      once.1 ∙ (rw there refl),
      ap pressed twice.0 ∙ pressed-none 0 cs,
      twice.1,
    )
