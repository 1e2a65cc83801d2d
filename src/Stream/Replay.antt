-- ===== src/Stream/Replay.antt =====
-- What the server sends and what the callbacks are given: one frame `data: …` and a blank line for
-- each event, as the stream of ml-service/main.py writes them.
use mathlib.Core.List.{flatten}
use axiom_ai.Common.{
  ℕ, true, false, Option, some, List, [], ◌∷◌, ◌++◌, map, All, ◌==◌, Text, codes, text_truthy, trim,
  ◌≡◌, refl, arith, append-nil, ap, ◌∙◌, leb, ◌≤◌, ◌&&◌,
}
use axiom_ai.Json.{Json, null, str, arr, nil, obj, field, end, JsonCodec}
use axiom_ai.Stream.{
  Call, on_token, on_sources, on_done, on_error, Outcome, quiet, after_frame, calls, nullish,
  handle_payload, split_lines, process_frame, data_line, handle_line, handle_text, process_frames,
  read_loop, stream_chat,
}
use axiom_ai.Stream.Cutting.{cut, push}
use axiom_ai.Stream.Chunks.{IsStreaming, emit, round, answer, read_loop-flatten}

pub data Event : Type 0 where
  token : Text → Event
  sources : Json → Event
  finished : Event
  failure : Text → Event

kind : Text → Json
kind t = str t

-- The object that an event is sent as.
unfoldable pub event_json : Event → Json
event_json (token t) =
    obj (field (codes "type") (str (codes "token")) (field (codes "content") (str t) end))
event_json (sources v) =
    obj (field (codes "type") (str (codes "sources")) (field (codes "sources") v end))
event_json finished = obj (field (codes "type") (str (codes "done")) end)
event_json (failure t) =
    obj (field (codes "type") (str (codes "error")) (field (codes "message") (str t) end))

-- The callbacks that an event is meant to make: an empty token makes none.
unfoldable pub made : Event → List Call
made (token []) = []
made (token (c ∷ t)) = on_token (str (c ∷ t)) ∷ []
made (sources v) = on_sources (nullish (some v) (arr nil)) ∷ []
made finished = on_done ∷ []
made (failure t) = on_error (str t) ∷ []

unfoldable pub all_made : List Event → List Call
all_made [] = []
all_made (e ∷ es) = made e ++ all_made es

abbrev to_outcome : List Call → Outcome
to_outcome [] = quiet
to_outcome (c ∷ cs) = calls c

handle_payload-event_json : (e : Event) → handle_payload (some (event_json e)) ≡ to_outcome (made e)
unfolding handle_payload event_json made
handle_payload-event_json (token []) = refl
handle_payload-event_json (token (c ∷ t)) = refl
handle_payload-event_json (sources null) = refl
handle_payload-event_json (sources _) = refl
handle_payload-event_json finished = refl
handle_payload-event_json (failure t) = refl

after_frame-made :
    (e : Event) (later : List Call)
    → after_frame (to_outcome (made e)) (later, false) ≡ (made e ++ later, false)
unfolding made
after_frame-made (token []) later = refl
after_frame-made (token (c ∷ t)) later = refl
after_frame-made (sources v) later = refl
after_frame-made finished later = refl
after_frame-made (failure t) later = refl

abbrev pub HasNoNewline : Text → Type 0
HasNoNewline = All (λ c. (c == 0xa) ≡ false)

-- What a text that the server prints for an event has: it is JSON for that event on one line, with
-- no white space around it.
pub record IsPrinted (codec : JsonCodec) (e : Event) (t : Text) : Type 0 where
  pub parsed : codec.parse t ≡ some (event_json e)
  pub one_line : HasNoNewline t
  pub trimmed : trim t ≡ t
  pub some_text : text_truthy t ≡ true

split_lines_one : (s : Text) → HasNoNewline s → split_lines s ≡ s ∷ []
unfolding split_lines
split_lines_one [] h = refl
split_lines_one (c ∷ s) h = rw (h.0, split_lines_one s h.1)

-- The text of the whole answer.
unfoldable pub wire : (Event → Text) → List Event → Text
wire print [] = []
wire print (e ∷ es) = (codes "data: " ++ print e) ++ 0xa ∷ 0xa ∷ wire print es

pub cut-frame :
    (s rest : Text)
    → HasNoNewline s
    → cut (s ++ 0xa ∷ 0xa ∷ rest) ≡ (s ∷ (cut rest).0, (cut rest).1)
unfolding cut
cut-frame [] rest h = refl
cut-frame (c ∷ []) rest h = rw (h.0) refl
cut-frame (c ∷ d ∷ s) rest h = rw (h.0) (ap (push c) (cut-frame (d ∷ s) rest h.1))

data_line-printed :
    (t : Text) → HasNoNewline t → data_line (codes "data: " ++ t) ≡ some (codes "data: " ++ t)
unfolding data_line
data_line-printed t h = rw (split_lines_one t h)

trim-blank : (t : Text) → trim (0x20 ∷ t) ≡ trim t
unfolding trim
trim-blank t = refl

handle_text-printed :
    (codec : JsonCodec) (e : Event) (t : Text)
    → IsPrinted codec e t
    → handle_text codec t ≡ to_outcome (made e)
unfolding handle_text
handle_text-printed codec e t h = rw (h.some_text, h.parsed) (handle_payload-event_json e)

module _ (codec : JsonCodec) (print : Event → Text) where
  process_frame-printed :
      (e : Event)
      → IsPrinted codec e (print e)
      → process_frame codec (codes "data: " ++ print e) ≡ to_outcome (made e)
  unfolding process_frame
  process_frame-printed e h =
      ap (handle_line codec) (data_line-printed (print e) h.one_line)
      ∙ ap (handle_text codec) (trim-blank (print e) ∙ h.trimmed)
      ∙ handle_text-printed codec e (print e) h

  pub process_frames-printed :
      (es : List Event)
      → All (λ e. IsPrinted codec e (print e)) es
      → process_frames codec (map (λ e. codes "data: " ++ print e) es) ≡ (all_made es, false)
  unfolding process_frames all_made
  process_frames-printed [] h = refl
  process_frames-printed (e ∷ es) h =
      rw (process_frame-printed e h.0, process_frames-printed es h.1)
        (after_frame-made e (all_made es))

  cut-wire :
      (es : List Event)
      → All (λ e. IsPrinted codec e (print e)) es
      → cut (wire print es) ≡ (map (λ e. codes "data: " ++ print e) es, [])
  unfolding wire
  cut-wire [] h = unfold cut in refl
  cut-wire (e ∷ es) h =
      cut-frame (codes "data: " ++ print e) (wire print es) (unprefixed (print e) h.0.one_line)
      ∙ ap (λ (p : List Text × Text). ((codes "data: " ++ print e) ∷ p.0, p.1)) (cut-wire es h.1)
    where
      unprefixed : (t : Text) → HasNoNewline t → HasNoNewline (codes "data: " ++ t)
      unprefixed t one = (refl, (refl, (refl, (refl, (refl, (refl, one))))))

  -- When the server answers with success, and its events arrive whole and on one line each, the
  -- callbacks are made exactly as the events say, in their order, whatever the chunks.
  pub stream_chat-wire :
      {D : Type 0} (decode : D → List ℕ → D × Text)
      → IsStreaming decode
      → (d : D) (status : ℕ) (json : Option Json) (bs : List (List ℕ)) (es : List Event)
      → 200 ≤ status
      → status ≤ 299
      → (decode d (flatten bs)).1 ≡ wire print es
      → All (λ e. IsPrinted codec e (print e)) es
      → stream_chat codec decode d (answer status json bs []) ≡ all_made es
  unfolding stream_chat
  stream_chat-wire decode streaming d status json bs es low high sent h =
      let accepted : (leb 200 status && leb status 299) ≡ true = ground arith in
      rw accepted (
        read_loop-flatten codec decode streaming d bs []
        ∙ round codec decode streaming d [] (flatten bs) []
        ∙ ap after_text sent
        ∙ all_frames)
    where
      after_text : Text → List Call
      after_text t =
          emit (process_frames codec (cut t).0)
            (read_loop codec decode (decode d (flatten bs)).0 (cut t).1 [])

      all_frames : after_text (wire print es) ≡ all_made es
      all_frames = rw (cut-wire es h, process_frames-printed es h) (append-nil (all_made es))
