-- ===== src/Stream/Chunks.antt =====
-- The callbacks do not depend on how the network cuts the answer into chunks.
use mathlib.Core.Path.{◌≡⟨◌⟩◌, ◌∎}
use mathlib.Core.List.{flatten}
use axiom_ai.Common.{
  ℕ, Bool, true, false, Option, some, List, [], ◌∷◌, ◌++◌, map, if◌then◌else◌, Text, ◌≡◌, refl,
  append_assoc, append-nil, ap, sym, ◌∙◌,
}
use axiom_ai.Json.{Json, JsonCodec}
use axiom_ai.Stream.{
  Call, Read, chunk, Outcome, quiet, calls, throws, after_frame, process_frame, process_frames,
  interrupted, read_loop, Fetched, resolved,
}
use axiom_ai.Stream.Cutting.{cut, cut-append, cut_whole, pop_last-split_frames}

-- What a streaming decoder promises: bytes that come in two pieces give the text that they give in
-- one, and no bytes give no text.
pub record IsStreaming {D : Type 0} (decode : D → List ℕ → D × Text) : Type 0 where
  pub no_bytes : (d : D) → decode d [] ≡ (d, [])
  pub pieces :
      (d : D) (a b : List ℕ)
      → decode d (a ++ b)
        ≡ ((decode (decode d a).0 b).0, (decode d a).1 ++ (decode (decode d a).0 b).1)

-- The calls of some frames, and then those of the rest of the loop unless a frame threw.
abbrev pub emit : List Call × Bool → List Call → List Call
emit made later = if made.1 then made.0 ++ interrupted ∷ [] else made.0 ++ later

-- An answer with the given status and JSON, whose body comes in these chunks and then ends as
-- `ending` says.
abbrev pub answer : ℕ → Option Json → List (List ℕ) → List Read → Fetched
answer status json bs ending =
    resolved (record { status = status; json = json; body = some (map chunk bs ++ ending) })

module _ (codec : JsonCodec) where
  process_frames-append :
      (fs gs : List Text) (later : List Call)
      → emit (process_frames codec (fs ++ gs)) later
        ≡ emit (process_frames codec fs) (emit (process_frames codec gs) later)
  unfolding process_frames
  process_frames-append [] gs later = refl
  process_frames-append (f ∷ fs) gs later =
      go (process_frame codec f) (process_frames-append fs gs later)
    where
      emit_cons :
          (c : Call) (made : List Call × Bool) (rest : List Call)
          → emit (c ∷ made.0, made.1) rest ≡ c ∷ emit made rest
      emit_cons c (made, true) rest = refl
      emit_cons c (made, false) rest = refl

      go :
          (o : Outcome)
          → emit (process_frames codec (fs ++ gs)) later
            ≡ emit (process_frames codec fs) (emit (process_frames codec gs) later)
          → emit (after_frame o (process_frames codec (fs ++ gs))) later
            ≡ emit (after_frame o (process_frames codec fs)) (emit (process_frames codec gs) later)
      go quiet h = h
      go (calls c) h =
          emit_cons c (process_frames codec (fs ++ gs)) later
          ∙ ap (◌∷◌ c) h
          ∙ sym (emit_cons c (process_frames codec fs) (emit (process_frames codec gs) later))
      go throws h = refl

  module _ {D : Type 0} (decode : D → List ℕ → D × Text) (streaming : IsStreaming decode) where
    -- One round of the loop over `cut`.
    pub round :
        (d : D) (buffer : Text) (bytes : List ℕ) (reads : List Read)
        → read_loop codec decode d buffer (chunk bytes ∷ reads) ≡ (
            let popped = cut (buffer ++ (decode d bytes).1) in
            emit
              (process_frames codec popped.0)
              (read_loop codec decode (decode d bytes).0 popped.1 reads))
    unfolding read_loop
    round d buffer bytes reads =
        ap
          (λ (p : List Text × Text).
            emit (process_frames codec p.0) (read_loop codec decode (decode d bytes).0 p.1 reads))
          (pop_last-split_frames (buffer ++ (decode d bytes).1))

    -- What the rest of the loop does with a cut buffer.
    abbrev rest_of : List Read → D → List Text × Text → List Call
    rest_of reads d p = emit (process_frames codec p.0) (read_loop codec decode d p.1 reads)

    -- Two chunks in a row do what the one chunk of their bytes does.
    pub read_loop-join :
        (d : D) (buffer : Text) (a b : List ℕ) (reads : List Read)
        → read_loop codec decode d buffer (chunk a ∷ chunk b ∷ reads)
          ≡ read_loop codec decode d buffer (chunk (a ++ b) ∷ reads)
    read_loop-join d buffer a b reads =
        let first = decode d a in
        let second = decode first.0 b in
        let p = cut (buffer ++ first.1) in
        let q = cut (p.1 ++ second.1) in
        read_loop codec decode d buffer (chunk a ∷ chunk b ∷ reads)
        ≡⟨ round d buffer a (chunk b ∷ reads)
          ∙ ap (emit (process_frames codec p.0)) (round first.0 p.1 b reads) ⟩
          emit (process_frames codec p.0) (rest_of reads second.0 q)
        ≡⟨ sym (process_frames-append p.0 q.0 (read_loop codec decode second.0 q.1 reads)) ⟩
          rest_of reads second.0 (p.0 ++ q.0, q.1)
        ≡⟨ sym (ap (rest_of reads second.0) (cut-append (buffer ++ first.1) second.1)) ⟩
          rest_of reads second.0 (cut ((buffer ++ first.1) ++ second.1))
        ≡⟨ ap (λ w. rest_of reads second.0 (cut w)) (append_assoc buffer first.1 second.1) ⟩
          rest_of reads second.0 (cut (buffer ++ (first.1 ++ second.1)))
        ≡⟨ ap (λ (t : D × Text). rest_of reads t.0 (cut (buffer ++ t.1)))
            (sym (streaming.pieces d a b)) ⟩
          rest_of reads (decode d (a ++ b)).0 (cut (buffer ++ (decode d (a ++ b)).1))
        ≡⟨ sym (round d buffer (a ++ b) reads) ⟩
          read_loop codec decode d buffer (chunk (a ++ b) ∷ reads) ∎

    -- An empty chunk changes nothing while the buffer holds no complete frame.
    read_loop-empty :
        (d : D) (buffer : Text) (reads : List Read)
        → (cut buffer).0 ≡ []
        → read_loop codec decode d buffer (chunk [] ∷ reads) ≡ read_loop codec decode d buffer reads
    unfolding process_frames
    read_loop-empty d buffer reads h =
        round d buffer [] reads
        ∙ ap (λ (t : D × Text). rest_of reads t.0 (cut (buffer ++ t.1))) (streaming.no_bytes d)
        ∙ ap (λ w. rest_of reads d (cut w)) (append-nil buffer)
        ∙ ap (rest_of reads d) (λ i. (h i, cut_whole buffer h i))

    read_loop-flatten_cons :
        (d : D) (buffer : Text) (b : List ℕ) (bs : List (List ℕ)) (reads : List Read)
        → read_loop codec decode d buffer (chunk b ∷ map chunk bs ++ reads)
          ≡ read_loop codec decode d buffer (chunk (b ++ flatten bs) ∷ reads)
    unfolding flatten
    read_loop-flatten_cons d buffer b [] reads =
        ap (λ w. read_loop codec decode d buffer (chunk w ∷ reads)) (sym (append-nil b))
    read_loop-flatten_cons d buffer b (c ∷ bs) reads =
        read_loop-join d buffer b c (map chunk bs ++ reads)
        ∙ read_loop-flatten_cons d buffer (b ++ c) bs reads
        ∙ ap (λ w. read_loop codec decode d buffer (chunk w ∷ reads))
            (append_assoc b c (flatten bs))

    -- Any chunks do what one chunk of all their bytes does.
    pub read_loop-flatten :
        (d : D) (bs : List (List ℕ)) (reads : List Read)
        → read_loop codec decode d [] (map chunk bs ++ reads)
          ≡ read_loop codec decode d [] (chunk (flatten bs) ∷ reads)
    unfolding flatten cut
    read_loop-flatten d [] reads = sym (read_loop-empty d [] reads refl)
    read_loop-flatten d (b ∷ bs) reads = read_loop-flatten_cons d [] b bs reads
