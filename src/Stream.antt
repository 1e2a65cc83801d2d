-- ===== src/Stream.antt =====
-- `streamChat` of frontend/src/lib/api.ts: the answer of the server, read in chunks, cut into frames, and
-- handed on as a sequence of callbacks. The bytes come from `reader.read()` and are decoded by the
-- runtime's `TextDecoder`, both parameters here: a read gives a chunk or fails, and the end of the
-- list of reads is `done`.
pub mod Cutting
pub mod Chunks
pub mod Replay
pub mod BrokenOff
pub mod Batch
use axiom_ai.Common.{
  ℕ, Bool, true, false, not, ◌&&◌, ◌||◌, ◌==◌, Option, none, some, List, [], ◌∷◌, ◌++◌, find, drop,
  if◌then◌else◌, leb, Text, codes, text_eq, text_truthy, trim, starts_with, decimal,
}
use axiom_ai.Common.{push_front}
use axiom_ai.Json.{Json, null, str, arr, nil, JsonCodec, prop, truthy}

-- The callbacks, with the values that they are given.
pub data Call : Type 0 where
  on_token : Json → Call
  on_sources : Json → Call
  on_done : Call
  on_error : Json → Call

pub data Read : Type 0 where
  chunk : List ℕ → Read
  failed : Text → Read

-- `json` is what `res.json()` gives, `none` where it throws; `body` is `none` for a null body.
pub record Response : Type 0 where
  pub status : ℕ
  pub json : Option Json
  pub body : Option (List Read)

-- A `fetch` rejects with an error of some name, or resolves.
pub data Fetched : Type 0 where
  rejected : Text → Fetched
  resolved : Response → Fetched

abbrev pub is_ok : Response → Bool
is_ok res = leb 200 res.status && leb res.status 299

-- `body?.k`, where the body was parsed.
abbrev body_prop : Text → Option Json → Option Json
body_prop k none = none
body_prop k (some body) = prop k body

-- `if (v) return v`, and what comes after it.
abbrev returned : Option Json → Json → Json
returned none other = other
returned (some v) other = if truthy (some v) then v else other

unfoldable pub describe_error : Response → Json
unfolding prop decimal
describe_error res = returned (body_prop (codes "error") res.json) (
    returned (body_prop (codes "detail") res.json) (
      if res.status == 401
      then str (codes "Your session expired. Please sign in again.")
      else str (codes "Request failed (" ++ decimal res.status ++ codes ")")))

-- `s.split("\n")`
unfoldable pub split_lines : Text → List Text
unfolding push_front
split_lines [] = [] ∷ []
split_lines (c ∷ s) = let rest = split_lines s in if c == 0xa then [] ∷ rest else push_front c rest

-- `s.split("\n\n")`
unfoldable pub split_frames : Text → List Text
unfolding push_front
split_frames [] = [] ∷ []
split_frames (c ∷ []) = (c ∷ []) ∷ []
split_frames (c ∷ d ∷ s) =
    let after = split_frames s in
    let on = split_frames (d ∷ s) in if c == 0xa && d == 0xa then [] ∷ after else push_front c on

-- `frames.pop() ?? ""`: what stays, and the last piece.
unfoldable pub pop_last : List Text → List Text × Text
pop_last [] = ([], [])
pop_last (p ∷ []) = ([], p)
pop_last (p ∷ q ∷ ps) = let (frames, last) = pop_last (q ∷ ps) in (p ∷ frames, last)

-- A frame makes one call at most, or throws: reading a property of a `null` payload does.
pub data Outcome : Type 0 where
  quiet : Outcome
  calls : Call → Outcome
  throws : Outcome

abbrev pub is_text : Option Json → Text → Bool
is_text (some (str t)) s = text_eq t s
is_text _ s = false

-- `v ?? d`
abbrev pub nullish : Option Json → Json → Json
nullish none d = d
nullish (some null) d = d
nullish (some v) d = v

unfoldable pub dispatch : Json → Outcome
unfolding prop text_eq
dispatch payload =
    let kind = prop (codes "type") payload in
    let content = prop (codes "content") payload in
    if is_text kind (codes "token")
    then if truthy content then calls (on_token (nullish content null)) else quiet
    else if is_text kind (codes "sources")
    then calls (on_sources (nullish (prop (codes "sources") payload) (arr nil)))
    else if is_text kind (codes "done")
    then calls on_done
    else if is_text kind (codes "error")
    then calls (
        on_error (
          nullish (prop (codes "message") payload)
            (str (codes "Unknown error from Axiom ML Service."))))
    else quiet

-- The `switch` on a parsed payload.
unfoldable pub handle_payload : Option Json → Outcome
unfolding dispatch
handle_payload none = quiet
handle_payload (some null) = throws
handle_payload (some v) = dispatch v

abbrev pub interrupted : Call
interrupted = on_error (str (codes "Connection to Axiom Gateway was interrupted."))

abbrev pub is_abort : Text → Bool
is_abort name = text_eq name (codes "AbortError")

-- The calls of a frame before those of the frames behind it, which are not reached if it throws.
abbrev pub after_frame : Outcome → List Call × Bool → List Call × Bool
after_frame quiet later = later
after_frame (calls c) later = (c ∷ later.0, later.1)
after_frame throws later = ([], true)

-- `frame.split("\n").find((line) => line.startsWith("data:"))`
unfoldable pub data_line : Text → Option Text
unfolding split_lines find starts_with
data_line frame = find (λ line. starts_with line (codes "data:")) (split_lines frame)

module _ (codec : JsonCodec) where
  -- The text behind `data:`, without the white space around it.
  unfoldable pub handle_text : Text → Outcome
  unfolding handle_payload
  handle_text json_str =
      if text_truthy json_str then handle_payload (codec.parse json_str) else quiet

  unfoldable pub handle_line : Option Text → Outcome
  unfolding handle_text trim
  handle_line none = quiet
  handle_line (some line) = handle_text (trim (drop 5 line))

  unfoldable pub process_frame : Text → Outcome
  unfolding handle_line data_line
  process_frame frame = handle_line (data_line frame)

  -- The inner loop: the calls made, and whether a frame threw.
  unfoldable pub process_frames : List Text → List Call × Bool
  process_frames [] = ([], false)
  process_frames (frame ∷ frames) = after_frame (process_frame frame) (process_frames frames)

  module _ {D : Type 0} (decode : D → List ℕ → D × Text) where
    -- The `for (;;)` loop with its `catch`.
    unfoldable pub read_loop : D → Text → List Read → List Call
    unfolding split_frames pop_last process_frames text_eq
    read_loop d buffer [] = []
    read_loop d buffer (failed name ∷ reads) = if is_abort name then [] else interrupted ∷ []
    read_loop d buffer (chunk bytes ∷ reads) =
        let decoded = decode d bytes in
        let popped = pop_last (split_frames (buffer ++ decoded.1)) in
        let made = process_frames popped.0 in
        let later = read_loop decoded.0 popped.1 reads in
        if made.1 then made.0 ++ interrupted ∷ [] else made.0 ++ later

    unfoldable pub stream_chat : D → Fetched → List Call
    unfolding read_loop describe_error
    stream_chat d (rejected name) =
        if is_abort name
        then []
        else on_error (str (codes "Could not reach Axiom Gateway. Is it running?")) ∷ []
    stream_chat d (resolved res) =
        let refused = on_error (describe_error res) ∷ [] in
        elim res.body [
          | none ↦ refused
          | some reads ↦ if is_ok res then read_loop d [] reads else refused
        ]
