-- ===== src/Codex/Stream.antt =====
-- provider/codex/response_stream.go: `readResponseStream`. The callback's calls are kept as a list of
-- events; it may be missing.
use dire_agent.Prelude.{
  ℕ, Bool, true, false, ◌&&◌, ◌||◌, not, Option, none, some, List, [], ◌∷◌, ◌++◌, ◌==◌,
  if◌then◌else◌,
}
use dire_agent.Prelude.Text.{Text, codes, text_eq, is_empty, is_blank, trim_space, has_prefix, join}
use dire_agent.Prelude.Int.{pos_part}
use dire_agent.Prelude.Results.{Result, ok, err}
use dire_agent.Prelude.Exec.{Exec, pure, throw, lift, read, ◌>>=◌, ◌>>◌}
use dire_agent.Agent.{ModelEvent, Usage, text_delta, reasoning_delta, reasoning_done, item_done}
use dire_agent.Usage.{no_usage}
use dire_agent.ModelCatalog.{trim_prefix, context_window}
use dire_agent.Codex.Usage.{agent_usage}
use dire_agent.Codex.Event.{
  StreamFailure, Response, StreamEvent, ReasoningItem, Codec, Kind, output_text_delta,
  summary_delta, summary_done, output_item_done, completed_response, failed_response,
  incomplete_response, stream_failed, other_kind, kind_of,
}

pub data StreamError : Type 0 where
  undecodable_event : StreamError
  api_error : Text → Text → StreamError
  context_done : Text → StreamError
  read_failed : Text → StreamError
  closed_early : StreamError

-- `streamResult`, the variables of the loop, and the callback's calls so far.
pub record Stream : Type 0 where
  pub response_id : Text
  pub deltas : Text
  pub items : List Text
  pub usage : Usage
  pub completed : Bool
  pub reasoning_ended : Bool
  pub reasoning : Text
  pub events : List ModelEvent

abbrev pub new_stream : Stream
new_stream = record {
  response_id = [];
  deltas = [];
  items = [];
  usage = no_usage;
  completed = false;
  reasoning_ended = false;
  reasoning = [];
  events = [];
}

abbrev pub Method : Type 0 → Type 0
Method A = Exec Stream StreamError A

-- `streamAPIError`.
unfoldable pub stream_api_error : Option StreamFailure → Text → StreamError
stream_api_error none fallback = api_error [] fallback
stream_api_error (some failure) fallback =
    api_error (if is_empty failure.code then failure.kind else failure.code)
      (if is_empty failure.message then fallback else failure.message)

incomplete_reason : Option Text → Text
incomplete_reason none = codes "unknown"
incomplete_reason (some reason) = if is_empty reason then codes "unknown" else reason

-- The first of three context windows that is known.
unfoldable pub window : (Text → Text) → Response → ℕ
unfolding context_window
window to_lower r =
    if not (r.context_window == 0)
    then r.context_window
    else if not (r.usage.context_window == 0)
    then r.usage.context_window
    else pos_part (context_window to_lower r.model)

-- The parts of a summary that are not blank.
summary_parts : List Text → List Text
unfolding trim_space
summary_parts [] = []
summary_parts (text ∷ rest) =
    let trimmed = trim_space text in
    if is_empty trimmed then summary_parts rest else trimmed ∷ summary_parts rest

-- `dataLines` after a line that is not empty.
unfoldable pub add_line : Text → List Text → List Text
unfolding has_prefix trim_prefix
add_line line frame =
    if has_prefix (codes "data:") line
    then frame ++ trim_prefix (codes " ") (trim_prefix (codes "data:") line) ∷ []
    else frame

-- The items that were streamed, or the output of the response where there were none.
unfoldable pub or_output : List Text → List Text → List Text
or_output [] output = output
or_output (item ∷ items) output = item ∷ items

module _ (codec : Codec) (listening : Bool) where
  -- `if onEvent != nil { onEvent(event) }`.
  unfoldable pub emit : ModelEvent → Stream → Stream
  emit event s = if listening then record s { events = s.events ++ event ∷ [] } else s

  unfoldable pub clean_reasoning_summary : Text → Text
  unfolding trim_space
  clean_reasoning_summary text = trim_space (codec.remove_comments text)

  summary_of : Option ReasoningItem → Text
  unfolding summary_parts clean_reasoning_summary text_eq join
  summary_of none = []
  summary_of (some item) =
      if text_eq item.kind (codes "reasoning")
      then clean_reasoning_summary (join (codes "\n\n") (summary_parts item.summary))
      else []

  unfoldable pub reasoning_summary_from_item : Text → Text
  unfolding summary_of
  reasoning_summary_from_item raw = summary_of (codec.decode_reasoning raw)

  unfoldable pub emit_summary : Text → Stream → Stream
  unfolding emit is_blank
  emit_summary text s = if is_blank text then s else emit (reasoning_done text) s

  -- The summary in an item ends the reasoning, unless it has ended.
  unfoldable pub end_by_item : Text → Stream → Stream
  unfolding emit is_blank reasoning_summary_from_item
  end_by_item raw s =
      let text = reasoning_summary_from_item raw in
      if s.reasoning_ended || is_blank text
      then s
      else emit (reasoning_done text) (record s { reasoning_ended = true })

  unfoldable pub add_item : Text → Stream → Stream
  unfolding emit end_by_item
  add_item raw s = end_by_item raw (emit (item_done raw) (record s { items = s.items ++ raw ∷ [] }))

  unfoldable pub complete : Response → Stream → Stream
  unfolding window agent_usage or_output
  complete r s = record s {
    completed = true;
    response_id = r.id;
    usage = agent_usage r.usage (window codec.to_lower r);
    items = or_output s.items r.output;
  }

  -- The switch on the type of an event.
  unfoldable pub handle : Kind → StreamEvent → Method (Unit {0})
  unfolding emit emit_summary clean_reasoning_summary add_item complete stream_api_error
      incomplete_reason text_eq
  handle output_text_delta e s =
      (ok tt, emit (text_delta e.delta) (record s { deltas = s.deltas ++ e.delta }))
  handle summary_delta e s =
      (ok tt, emit (reasoning_delta e.delta) (record s { reasoning = s.reasoning ++ e.delta }))
  handle summary_done e s =
      let text = clean_reasoning_summary (if is_empty e.text then s.reasoning else e.text) in
      (ok tt, emit_summary text (record s { reasoning_ended = true }))
  handle output_item_done e s =
      (ok tt, (if is_empty e.item || text_eq e.item (codes "null") then s else add_item e.item s))
  handle completed_response e s = (ok tt, complete e.response s)
  handle failed_response e s =
      (err (stream_api_error e.response.failure (codes "response failed")), s)
  handle incomplete_response e s = (
    err (
        api_error (codes "response_incomplete")
          (codes "incomplete response: " ++ incomplete_reason e.response.incomplete_reason)),
    s,
  )
  handle stream_failed e s = (err (stream_api_error e.failure (codes "stream error")), s)
  handle other_kind e s = (ok tt, s)

  unfoldable pub handle_decoded : Option StreamEvent → Method (Unit {0})
  unfolding kind_of handle
  handle_decoded none = throw undecodable_event
  handle_decoded (some e) = handle (kind_of e.kind) e

  -- `process`, on the data lines of a frame.
  unfoldable pub process : List Text → Method (Unit {0})
  unfolding handle_decoded join text_eq
  process [] = pure tt
  process (line ∷ lines) =
      let text = join (codes "\n") (line ∷ lines) in
      if text_eq text (codes "[DONE]") then pure tt else handle_decoded (codec.decode_event text)

  -- The reasoning that the stream left open.
  unfoldable pub close_stream : Stream → Stream
  unfolding emit clean_reasoning_summary is_blank
  close_stream s =
      if not s.reasoning_ended && not (is_blank s.reasoning)
      then emit (reasoning_done (clean_reasoning_summary s.reasoning)) s
      else s

  abbrev close : Method (Unit {0})
  close s = (ok tt, close_stream s)

  -- The return inside the loop.
  unfoldable pub unless_completed : Bool → Method (Unit {0}) → Method (Unit {0})
  unfolding close_stream
  unless_completed true rest = close
  unless_completed false rest = rest

  abbrev pub failed : (Text → StreamError) → Option Text → Result StreamError (Unit {0})
  failed error none = ok tt
  failed error (some text) = err (error text)

  -- After the loop, with the errors of the context and of the reader.
  unfoldable pub finish : Option Text → Option Text → List Text → Method (Unit {0})
  unfolding process unless_completed
  finish context_error read_error frame = do
    lift (failed context_done context_error)
    lift (failed read_failed read_error)
    process frame
    s ← read
    unless_completed s.completed (throw closed_early)

  -- The loop.
  unfoldable pub read_lines : Option Text → Option Text → List Text → List Text → Method (Unit {0})
  unfolding finish add_line process unless_completed
  read_lines context_error read_error frame [] = finish context_error read_error frame
  read_lines context_error read_error frame ([] ∷ lines) = do
    process frame
    s ← read
    unless_completed s.completed (read_lines context_error read_error [] lines)
  read_lines context_error read_error frame ((c ∷ line) ∷ lines) =
      read_lines context_error read_error (add_line (c ∷ line) frame) lines

  unfoldable pub read_response_stream :
      Option Text → Option Text → List Text → Result StreamError (Unit {0}) × Stream
  unfolding read_lines
  read_response_stream context_error read_error lines =
      read_lines context_error read_error [] lines new_stream
