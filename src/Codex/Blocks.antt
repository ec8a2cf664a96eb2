-- ===== src/Codex/Blocks.antt =====
-- provider/codex/response_stream.go: a stream of server-sent events as whole blocks, apart from how the
-- code reads it.
use dire_agent.Prelude.{Bool, true, false, Option, none, some, List, [], ◌∷◌, ◌==◌, if◌then◌else◌}
use dire_agent.Prelude.Text.{Text, codes, text_eq, join}
use dire_agent.Prelude.Results.{Result, ok, err}
use dire_agent.Codex.Event.{StreamEvent, Codec, kind_of}
use dire_agent.Codex.Stream.{
  StreamError, undecodable_event, context_done, read_failed, closed_early, Stream, handle,
  close_stream,
}

-- A line in front of the first block, or of the lines after the last one.
unfoldable pub in_front : Text → List (List Text) × List Text → List (List Text) × List Text
in_front line ([], tail) = ([], line ∷ tail)
in_front line (block ∷ rest, tail) = ((line ∷ block) ∷ rest, tail)

-- The lines in front of each empty line, and the lines after the last empty line.
unfoldable pub blocks : List Text → List (List Text) × List Text
blocks [] = ([], [])
blocks ([] ∷ lines) = let rest = blocks lines in ([] ∷ rest.0, rest.1)
blocks ((c ∷ line) ∷ lines) = in_front (c ∷ line) (blocks lines)

-- A text without a prefix that it has.
unfoldable pub strip : Text → Text → Option Text
strip [] s = some s
strip (a ∷ p) [] = none
strip (a ∷ p) (b ∷ s) = if a == b then strip p s else none

-- The text without a space in front of it.
unfoldable pub without_space : Text → Text
without_space [] = []
without_space (c ∷ s) = if c == b' ' then s else c ∷ s

-- The data of a block, one text for each `data:` line.
unfoldable pub with_data : Option Text → List Text → List Text
with_data none rest = rest
with_data (some text) rest = without_space text ∷ rest

unfoldable pub payloads : List Text → List Text
payloads [] = []
payloads (line ∷ block) = with_data (strip (codes "data:") line) (payloads block)

-- The message of a block, if it has one.
unfoldable pub joined : List Text → Option Text
joined [] = none
joined (text ∷ texts) =
    let whole = join (codes "\n") (text ∷ texts) in
    if text_eq whole (codes "[DONE]") then none else some whole

unfoldable pub message : List Text → Option Text
message block = joined (payloads block)

abbrev pub Outcome : Type 0
Outcome = Result StreamError (Unit {0}) × Stream

module _ (codec : Codec) (listening : Bool) where
  unfoldable pub react : Option StreamEvent → Stream → Outcome
  react none s = (err undecodable_event, s)
  react (some e) s = handle codec listening (kind_of e.kind) e s

  unfoldable pub deliver : Option Text → Stream → Outcome
  deliver none s = (ok tt, s)
  deliver (some text) s = react (codec.decode_event text) s

  -- What comes after a block: nothing once there is an error or a complete response.
  unfoldable pub stop_or : (Stream → Outcome) → Bool → Stream → Outcome
  stop_or next true s = (ok tt, close_stream codec listening s)
  stop_or next false s = next s

  unfoldable pub proceed : (Stream → Outcome) → Outcome → Outcome
  proceed next (err e, s) = (err e, s)
  proceed next (ok done, s) = stop_or next s.completed s

  -- The last message counts only where neither the context nor the reader has an error.
  unfoldable pub read_last : Option Text → Option Text → Option Text → Stream → Outcome
  read_last (some e) read_error last s = (err (context_done e), s)
  read_last none (some e) last s = (err (read_failed e), s)
  read_last none none last s = proceed (λ u. (err closed_early, u)) (deliver last s)

  unfoldable pub read_messages :
      Option Text → Option Text → List (Option Text) → Option Text → Stream → Outcome
  read_messages context_error read_error [] last s = read_last context_error read_error last s
  read_messages context_error read_error (text ∷ texts) last s =
      proceed (read_messages context_error read_error texts last) (deliver text s)
