-- ===== src/Codex/Frames.antt =====
-- provider/codex/response_stream.go: the reader against the blocks of the stream.
use dire_agent.Prelude.{
  ◌≡◌, refl, sym, ap, ◌∙◌, Bool, true, false, Bool-cases, inl, inr, ◌==◌, Option, none, some, List,
  [], ◌∷◌, ◌++◌, map, arith, if◌then◌else◌,
}
use mathlib.Core.Path.{fun_ext}
use mathlib.Core.List.{append_assoc, append-nil}
use dire_agent.Prelude.Text.{Text, codes, text_eq, join, has_prefix}
use dire_agent.Prelude.Results.{ok, err}
use dire_agent.Prelude.Exec.{after}
use dire_agent.ModelCatalog.{after_prefix, trim_prefix}
use dire_agent.Codex.Event.{StreamEvent, Codec}
use dire_agent.Codex.Stream.{
  Stream, new_stream, handle_decoded, process, unless_completed, finish, add_line, read_lines,
  read_response_stream,
}
use dire_agent.Codex.Blocks.{
  in_front, blocks, strip, without_space, with_data, payloads, joined, message, Outcome, react,
  deliver, stop_or, proceed, read_last, read_messages,
}

strip-has_prefix :
    (p s : Text) → strip p s ≡ (if has_prefix p s then some (after_prefix p s) else none)
unfolding strip has_prefix after_prefix
strip-has_prefix [] s = refl
strip-has_prefix (a ∷ p) [] = refl
strip-has_prefix (a ∷ p) (b ∷ s) = elim (Bool-cases (a == b)) [
  | inl same ↦ rw same (strip-has_prefix p s)
  | inr other ↦ rw other refl
]

trim-space : (s : Text) → trim_prefix (codes " ") s ≡ without_space s
unfolding trim_prefix has_prefix after_prefix without_space
trim-space [] = refl
trim-space (c ∷ s) = ground arith

add_line-data :
    (line : Text) (frame : List Text)
    → add_line line frame ≡ frame ++ with_data (strip (codes "data:") line) []
unfolding add_line with_data trim_prefix
add_line-data line frame = elim (Bool-cases (has_prefix (codes "data:") line)) [
  | inl data_line ↦
      rw (strip-has_prefix (codes "data:") line, data_line)
        (ap (λ t. frame ++ t ∷ []) (trim-space (after_prefix (codes "data:") line)))
  | inr other ↦ rw (strip-has_prefix (codes "data:") line, other) (sym (append-nil frame))
]

with_data-append : (o : Option Text) (rest : List Text) → with_data o [] ++ rest ≡ with_data o rest
unfolding with_data
with_data-append none rest = refl
with_data-append (some text) rest = refl

-- The messages, where the first block has begun with the data of a frame.
abbrev begun : List Text → List (List Text) × List Text → List (Option Text) × Option Text
begun frame ([], tail) = ([], joined (frame ++ payloads tail))
begun frame (block ∷ rest, tail) =
    (joined (frame ++ payloads block) ∷ map message rest, message tail)

begun-nil :
    (split : List (List Text) × List Text) → begun [] split ≡ (map message split.0, message split.1)
unfolding message
begun-nil ([], tail) = refl
begun-nil (block ∷ rest, tail) = refl

line-payloads :
    (line : Text) (frame block : List Text)
    → frame ++ payloads (line ∷ block) ≡ add_line line frame ++ payloads block
unfolding payloads
line-payloads line frame block = rw (add_line-data line frame) (
    ap (λ t. frame ++ t) (sym (with_data-append (strip (codes "data:") line) (payloads block)))
    ∙ sym (append_assoc frame _ (payloads block)))

begun-line :
    (line : Text) (frame : List Text) (split : List (List Text) × List Text)
    → begun frame (in_front line split) ≡ begun (add_line line frame) split
unfolding in_front
begun-line line frame ([], tail) = ap (λ t. ([], joined t)) (line-payloads line frame tail)
begun-line line frame (block ∷ rest, tail) =
    ap (λ t. (joined t ∷ map message rest, message tail)) (line-payloads line frame block)

module _ (codec : Codec) (listening : Bool) where
  react-handle :
      (o : Option StreamEvent) (s : Stream)
      → handle_decoded codec listening o s ≡ react codec listening o s
  unfolding handle_decoded react
  react-handle none s = refl
  react-handle (some e) s = refl

  process-deliver :
      (frame : List Text) (s : Stream)
      → process codec listening frame s ≡ deliver codec listening (joined frame) s
  unfolding process deliver joined
  process-deliver [] s = refl
  process-deliver (text ∷ texts) s =
      let whole = join (codes "\n") (text ∷ texts) in
      elim (Bool-cases (text_eq whole (codes "[DONE]"))) [
        | inl done ↦ rw done refl
        | inr more ↦ rw more (react-handle (codec.decode_event whole) s)
      ]

  unless_completed-stop :
      (b : Bool) (rest : Stream → Outcome) (s : Stream)
      → unless_completed codec listening b rest s ≡ stop_or codec listening rest b s
  unfolding unless_completed stop_or
  unless_completed-stop true rest s = refl
  unless_completed-stop false rest s = refl

  -- The end of a round of the loop.
  round-proceed :
      (o : Outcome) (rest : Stream → Outcome)
      → after (λ _ s. unless_completed codec listening s.completed rest s) o
        ≡ proceed codec listening rest o
  unfolding proceed
  round-proceed (err e, s) rest = refl
  round-proceed (ok done, s) rest = unless_completed-stop s.completed rest s

  finish-last :
      (context_error read_error : Option Text) (frame : List Text) (s : Stream)
      → finish codec listening context_error read_error frame s
        ≡ read_last codec listening context_error read_error (joined frame) s
  unfolding finish read_last
  finish-last (some e) read_error frame s = refl
  finish-last none (some e) frame s = refl
  finish-last none none frame s = rw (sym (process-deliver frame s)) (round-proceed _ (λ u. (_, u)))

  module _ (context_error read_error : Option Text) where
    -- What is read from a frame that has begun.
    abbrev read_begun : List (Option Text) × Option Text → Stream → Outcome
    read_begun (texts, last) = read_messages codec listening context_error read_error texts last

    read_lines-begun :
        (frame lines : List Text) (s : Stream)
        → read_lines codec listening context_error read_error frame lines s
          ≡ read_begun (begun frame (blocks lines)) s
    unfolding read_lines blocks read_messages payloads
    read_lines-begun frame [] s =
        finish-last context_error read_error frame s
        ∙ ap (λ t. read_last codec listening context_error read_error (joined t) s)
            (sym (append-nil frame))
    read_lines-begun frame ([] ∷ lines) s =
        ap (after _) (
          process-deliver frame s
          ∙ ap (λ t. deliver codec listening (joined t) s) (sym (append-nil frame)))
        ∙ (round-proceed _ _
            ∙ ap
                (λ (next : Stream → Outcome).
                  proceed codec listening next (deliver codec listening (joined (frame ++ [])) s))
                (fun_ext λ u.
                  read_lines-begun [] lines u
                  ∙ ap (λ m. read_begun m u) (begun-nil (blocks lines))))
    read_lines-begun frame ((c ∷ line) ∷ lines) s =
        read_lines-begun (add_line (c ∷ line) frame) lines s
        ∙ ap (λ m. read_begun m s) (sym (begun-line (c ∷ line) frame (blocks lines)))

    -- Reading a stream line by line gives the result, the state and the callback's calls that its blocks
    -- give. The lines are split at the empty ones; the message of a block is the data of its `data:`
    -- lines, joined by line ends, and a block without data, or with the end mark as its data, has none.
    -- Each message is decoded and handled in order, up to the first error or the message that completes the
    -- response, after which the reasoning is closed. The lines after the last empty line are a block
    -- too, unless the context or the reader has an error then; and without a complete response the
    -- stream was closed early.
    pub read_response_stream-frames :
        (lines : List Text)
        → read_response_stream codec listening context_error read_error lines
          ≡ read_messages codec listening context_error read_error
              (map message (blocks lines).0)
              (message (blocks lines).1)
              new_stream
    unfolding read_response_stream
    read_response_stream-frames lines =
        read_lines-begun [] lines new_stream
        ∙ ap (λ m. read_begun m new_stream) (begun-nil (blocks lines))
