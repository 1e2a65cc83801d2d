-- ===== src/Stream/BrokenOff.antt =====
-- An answer whose reading ends with an error: the connection breaks, or the reader is aborted.
use mathlib.Core.List.{flatten}
use axiom_ai.Common.{
  ℕ, Bool, true, Option, List, [], ◌∷◌, ◌++◌, All, map, if◌then◌else◌, leb, ◌&&◌, ◌≤◌, Text, codes,
  ◌≡◌, refl, arith, ap, ◌∙◌, append_assoc,
}
use axiom_ai.Json.{Json, JsonCodec}
use axiom_ai.Stream.{
  Call, Read, failed, is_abort, interrupted, read_loop, process_frames, stream_chat,
}
use axiom_ai.Stream.Cutting.{cut}
use axiom_ai.Stream.Chunks.{IsStreaming, answer, emit, read_loop-flatten, round}
use axiom_ai.Stream.Replay.{
  Event, IsPrinted, HasNoNewline, wire, all_made, cut-frame, process_frames-printed,
}

-- The calls for an error of some name.
abbrev pub calls_for : Text → List Call
calls_for name = if is_abort name then [] else interrupted ∷ []

-- A text in which no frame ends.
abbrev pub IsPartial : Text → Type 0
IsPartial t = cut t ≡ ([], t)

module _ (codec : JsonCodec) (print : Event → Text) where
  cut-wire_append :
      (es : List Event) (partial : Text)
      → IsPartial partial
      → All (λ e. IsPrinted codec e (print e)) es
      → cut (wire print es ++ partial) ≡ (map (λ e. codes "data: " ++ print e) es, partial)
  unfolding wire
  cut-wire_append [] partial open_end h = open_end
  cut-wire_append (e ∷ es) partial open_end h =
      ap cut (append_assoc (codes "data: " ++ print e) (0xa ∷ 0xa ∷ wire print es) partial)
      ∙ cut-frame (codes "data: " ++ print e) (wire print es ++ partial)
          (unprefixed (print e) h.0.one_line)
      ∙ ap (λ (p : List Text × Text). ((codes "data: " ++ print e) ∷ p.0, p.1))
          (cut-wire_append es partial open_end h.1)
    where
      unprefixed : (t : Text) → HasNoNewline t → HasNoNewline (codes "data: " ++ t)
      unprefixed t one = (refl, (refl, (refl, (refl, (refl, (refl, one))))))

  -- The server answers with success, some events arrive whole and on one line each, and then the
  -- reading fails, maybe amid a frame. The callbacks are those of the events, in their order, and
  -- behind them one for the interruption, or none where the reading was aborted.
  pub stream_chat-broken_off :
      {D : Type 0} (decode : D → List ℕ → D × Text)
      → IsStreaming decode
      → (d : D) (status : ℕ) (json : Option Json) (bs : List (List ℕ)) (es : List Event)
        (partial name : Text) (rest : List Read)
      → 200 ≤ status
      → status ≤ 299
      → (decode d (flatten bs)).1 ≡ wire print es ++ partial
      → IsPartial partial
      → All (λ e. IsPrinted codec e (print e)) es
      → stream_chat codec decode d (answer status json bs (failed name ∷ rest))
        ≡ all_made es ++ calls_for name
  unfolding stream_chat read_loop
  stream_chat-broken_off decode streaming d status json bs es partial name rest low high sent
        open_end h =
      let accepted : (leb 200 status && leb status 299) ≡ true = ground arith in
      rw accepted (
        read_loop-flatten codec decode streaming d bs (failed name ∷ rest)
        ∙ round codec decode streaming d [] (flatten bs) (failed name ∷ rest)
        ∙ ap after_text sent
        ∙ ap after_cut (cut-wire_append es partial open_end h)
        ∙ ap (λ (m : List Call × Bool). emit m (calls_for name))
            (process_frames-printed codec print es h))
    where
      after_cut : List Text × Text → List Call
      after_cut p =
          emit (process_frames codec p.0)
            (read_loop codec decode (decode d (flatten bs)).0 p.1 (failed name ∷ rest))

      after_text : Text → List Call
      after_text t = after_cut (cut t)
