-- ===== src/Stream/Batch.antt =====
-- What `streamChat` promises, without its loop: the whole text at once.
use axiom_ai.Common.{
  ℕ, none, some, List, [], ◌∷◌, ◌++◌, map, if◌then◌else◌, Option, Text, codes, text_eq, ◌≡◌, refl,
  ap, sym, ◌∙◌,
}
use mathlib.Core.List.{flatten}
use axiom_ai.Json.{Json, str, JsonCodec}
use axiom_ai.Stream.{
  Call, Read, chunk, failed, is_abort, is_ok, interrupted, process_frames, split_frames, pop_last,
  read_loop, Fetched, rejected, resolved, stream_chat, on_error, describe_error,
}
use axiom_ai.Stream.Cutting.{cut, pop_last-split_frames}
use axiom_ai.Stream.Chunks.{IsStreaming, answer, emit, round, read_loop-flatten}

-- The chunks that arrive before the body ends or a read fails, and what comes then.
abbrev arrived : List Read → List (List ℕ)
arrived [] = []
arrived (failed name ∷ reads) = []
arrived (chunk bytes ∷ reads) = bytes ∷ arrived reads

abbrev last_calls : List Read → List Call
last_calls [] = []
last_calls (failed name ∷ reads) = if is_abort name then [] else interrupted ∷ []
last_calls (chunk bytes ∷ reads) = last_calls reads

abbrev after_chunks : List Read → List Read
after_chunks [] = []
after_chunks (failed name ∷ reads) = failed name ∷ reads
after_chunks (chunk bytes ∷ reads) = after_chunks reads

reads_apart : (reads : List Read) → reads ≡ map chunk (arrived reads) ++ after_chunks reads
reads_apart [] = refl
reads_apart (failed name ∷ reads) = refl
reads_apart (chunk bytes ∷ reads) = ap (chunk bytes ∷◌) (reads_apart reads)

arrived-chunks :
    (bs : List (List ℕ)) (ending : List Read)
    → arrived (map chunk bs ++ ending) ≡ bs ++ arrived ending
arrived-chunks [] ending = refl
arrived-chunks (b ∷ bs) ending = ap (b ∷◌) (arrived-chunks bs ending)

last_calls-chunks :
    (bs : List (List ℕ)) (ending : List Read)
    → last_calls (map chunk bs ++ ending) ≡ last_calls ending
last_calls-chunks [] ending = refl
last_calls-chunks (b ∷ bs) ending = last_calls-chunks bs ending

module _ (codec : JsonCodec) {D : Type 0} (decode : D → List ℕ → D × Text) where
  -- All bytes are decoded at once and cut behind each blank line. Each complete frame makes its
  -- calls until one throws, and then comes what the end of the body says.
  abbrev pub batch : D → List Read → List Call
  batch d reads =
      let frames = (pop_last (split_frames (decode d (flatten (arrived reads))).1)).0 in
      emit (process_frames codec frames) (last_calls reads)

  abbrev pub batch_chat : D → Fetched → List Call
  batch_chat d (rejected name) =
      if is_abort name
      then []
      else on_error (str (codes "Could not reach Axiom Gateway. Is it running?")) ∷ []
  batch_chat d (resolved res) = elim res.body [
    | none ↦ on_error (describe_error res) ∷ []
    | some reads ↦ if is_ok res then batch d reads else on_error (describe_error res) ∷ []
  ]

  read_loop-after_chunks :
      (d : D) (buffer : Text) (reads : List Read)
      → read_loop codec decode d buffer (after_chunks reads) ≡ last_calls reads
  unfolding read_loop
  read_loop-after_chunks d buffer [] = refl
  read_loop-after_chunks d buffer (failed name ∷ reads) = refl
  read_loop-after_chunks d buffer (chunk bytes ∷ reads) = read_loop-after_chunks d buffer reads

  module _ (streaming : IsStreaming decode) where
    read_loop-batch :
        (d : D) (reads : List Read) → read_loop codec decode d [] reads ≡ batch d reads
    read_loop-batch d reads =
        let bytes = flatten (arrived reads) in
        let text = (decode d bytes).1 in
        ap (read_loop codec decode d []) (reads_apart reads)
        ∙ read_loop-flatten codec decode streaming d (arrived reads) (after_chunks reads)
        ∙ round codec decode streaming d [] bytes (after_chunks reads)
        ∙ ap (emit (process_frames codec (cut text).0))
            (read_loop-after_chunks (decode d bytes).0 (cut text).1 reads)
        ∙ ap (λ (p : List Text × Text). emit (process_frames codec p.0) (last_calls reads))
            (sym (pop_last-split_frames text))

    -- However the network cuts the body: `streamChat` makes the calls of the complete frames of the
    -- whole text, each once and in their order, up to the first frame that throws, and then the one
    -- that the end of the body asks for. An answer that is no success makes the call of its error,
    -- and a `fetch` that rejects the one for a gateway that is not there, unless it was aborted.
    pub stream_chat-batch :
        (d : D) (fetched : Fetched) → stream_chat codec decode d fetched ≡ batch_chat d fetched
    unfolding stream_chat
    stream_chat-batch d (rejected name) = refl
    stream_chat-batch d (resolved res) = λ i. elim res.body [
      | none ↦ on_error (describe_error res) ∷ []
      | some reads ↦
          if is_ok res then read_loop-batch d reads i else on_error (describe_error res) ∷ []
    ]

    -- An abort adds no call to those of the chunks before it.
    pub stream_chat-aborted :
        (d : D) (status : ℕ) (json : Option Json) (bs : List (List ℕ)) (rest : List Read)
        → stream_chat codec decode d (answer status json bs (failed (codes "AbortError") ∷ rest))
          ≡ stream_chat codec decode d (answer status json bs [])
    unfolding text_eq describe_error
    stream_chat-aborted d status json bs rest =
        let aborted = failed (codes "AbortError") ∷ rest in
        let same : batch_chat d (answer status json bs aborted)
            ≡ batch_chat d (answer status json bs []) =
          rw
            (
              arrived-chunks bs aborted,
              arrived-chunks bs [],
              last_calls-chunks bs aborted,
              last_calls-chunks bs [],
            )
            refl in
        stream_chat-batch d (answer status json bs aborted)
        ∙ same
        ∙ sym (stream_chat-batch d (answer status json bs []))
