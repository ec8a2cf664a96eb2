-- ===== src/Codex/Deltas.antt =====
-- provider/codex/response_stream.go: what the callback was given, against the result of the stream.
use dire_agent.Prelude.{
  ap, map, ◌&&◌, not, ◌≡◌, refl, ◌∙◌, sym, ◌⊎◌, inl, inr, Bool, true, false, Option, none, some,
  List, [], ◌∷◌, ◌++◌, if◌then◌else◌, Bool-cases,
}
use mathlib.Core.Bool.{true≢false}
use mathlib.Core.List.{append-nil}
use dire_agent.Prelude.Text.{is_blank, Text, is_empty}
use dire_agent.Prelude.Results.{ok, err}
use dire_agent.Agent.{reasoning_delta, reasoning_done}
use dire_agent.Codex.Event.{
  StreamEvent, Codec, Kind, output_text_delta, summary_delta, summary_done, output_item_done,
  completed_response, failed_response, incomplete_response, stream_failed, other_kind, kind_of,
}
use dire_agent.Codex.Stream.{
  Stream, new_stream, emit, clean_reasoning_summary, emit_summary, end_by_item, add_item, handle,
  close_stream, read_response_stream,
}
use dire_agent.Codex.Blocks.{
  blocks, message, Outcome, react, deliver, stop_or, proceed, read_last, read_messages,
}
use dire_agent.Codex.Frames.{read_response_stream-frames}
use dire_agent.Codex.Streamed.{
  Among, Completes, Finished-later, streamed_text, streamed_items, streamed_text-append,
  streamed_items-append, Open, Finished, Open-new, Other, Open-emit, Open-text, Open-item,
  Open-ended, Finished-complete,
}

module _ (codec : Codec) where
  Open-if : (b : Bool) (s u : Stream) → Open s → Open u → Open (if b then s else u)
  Open-if true s u os ou = os
  Open-if false s u os ou = ou

  Open-end_by_item : (raw : Text) (s : Stream) → Open s → Open (end_by_item codec true raw s)
  unfolding end_by_item Other
  Open-end_by_item raw s o = Open-if _ s _ o (
      Open-emit codec (reasoning_done _) (record s { reasoning_ended = true }) tt
        (Open-ended codec s o))

  Open-emit_summary : (text : Text) (s : Stream) → Open s → Open (emit_summary codec true text s)
  unfolding emit_summary Other
  Open-emit_summary text s o = Open-if _ s _ o (Open-emit codec (reasoning_done text) s tt o)

  -- The state that a call leaves: an error, a stream that is open, or one that is finished.
  abbrev After : List (Option Text) → Outcome → Type 0
  After messages (err e, s) = Unit
  After messages (ok done, s) = Open s ⊎ Finished codec messages s

  handle-After :
      (messages : List (Option Text)) (kind : Kind) (e : StreamEvent) (s : Stream)
      → (kind ≡ completed_response → Completes codec messages e.response)
      → Open s
      → After messages (handle codec true kind e s)
  unfolding handle add_item Other
  handle-After ms output_text_delta e s c o = inl (Open-text codec e.delta s o)
  handle-After ms summary_delta e s c o = inl (
      Open-emit codec (reasoning_delta e.delta) (record s { reasoning = s.reasoning ++ e.delta }) tt
        (record { text = o.text; items = o.items; running = o.running }))
  handle-After ms summary_done e s c o = inl (
      Open-emit_summary
        (clean_reasoning_summary codec true (if is_empty e.text then s.reasoning else e.text))
        (record s { reasoning_ended = true }) (Open-ended codec s o))
  handle-After ms output_item_done e s c o =
      inl (Open-if _ s _ o (Open-end_by_item e.item _ (Open-item codec e.item s o)))
  handle-After ms completed_response e s c o =
      inr (Finished-complete codec ms e.response s (c refl) o)
  handle-After ms failed_response e s c o = tt
  handle-After ms incomplete_response e s c o = tt
  handle-After ms stream_failed e s c o = tt
  handle-After ms other_kind e s c o = inl o

  react-After :
      (messages : List (Option Text)) (text : Text) (o : Option StreamEvent) (s : Stream)
      → Among (some text) messages
      → codec.decode_event text ≡ o
      → Open s
      → After messages (react codec true o s)
  unfolding react
  react-After ms text none s sent decoded h = tt
  react-After ms text (some e) s sent decoded h =
      handle-After ms (kind_of e.kind) e s
        (λ completing. record {
          text = text;
          event = e;
          sent = sent;
          decoded = decoded;
          completing = completing;
          response = refl;
        })
        h

  deliver-After :
      (messages : List (Option Text)) (m : Option Text) (s : Stream)
      → Among m messages
      → Open s
      → After messages (deliver codec true m s)
  unfolding deliver
  deliver-After ms none s sent o = inl o
  deliver-After ms (some text) s sent o =
      react-After ms text (codec.decode_event text) s sent refl o

  Finished-emit :
      (messages : List (Option Text)) (t : Text) (s : Stream)
      → Finished codec messages s
      → Finished codec messages (emit codec true (reasoning_done t) s)
  unfolding emit streamed_text streamed_items
  Finished-emit ms t s f =
      let same : streamed_items (s.events ++ reasoning_done t ∷ []) ≡ streamed_items s.events =
        streamed_items-append s.events _ ∙ append-nil _ in
      record {
        text = streamed_text-append s.events _ ∙ append-nil _ ∙ f.text;
        response = f.response;
        completes = f.completes;
        items = elim f.items [
          | inl e ↦ inl (same ∙ e)
          | inr (none_yet, output) ↦ inr (same ∙ none_yet, output)
        ];
        id = f.id;
        usage = f.usage;
        ended = f.ended;
      }

  Finished-close_stream :
      (messages : List (Option Text)) (s : Stream)
      → Finished codec messages s
      → Finished codec messages (close_stream codec true s)
  unfolding close_stream
  Finished-close_stream ms s f =
      elim (Bool-cases (not s.reasoning_ended && not (is_blank s.reasoning))) [
        | inl open_still ↦ rw open_still (Finished-emit ms _ s f)
        | inr ended ↦ rw ended f
      ]

  -- What is read without an error is finished.
  abbrev Ends : List (Option Text) → Outcome → Type 0
  Ends messages (err e, s) = Unit
  Ends messages (ok done, s) = Finished codec messages s

  Ends-later :
      (m : Option Text) (messages : List (Option Text)) (r : Outcome)
      → Ends messages r
      → Ends (m ∷ messages) r
  Ends-later m ms (err e, s) h = tt
  Ends-later m ms (ok done, s) h = Finished-later codec m ms s h

  stop_or-Ends :
      (messages : List (Option Text)) (next : Stream → Outcome) (b : Bool) (s : Stream)
      → s.completed ≡ b
      → Open s ⊎ Finished codec messages s
      → ((u : Stream) → Open u → Ends messages (next u))
      → Ends messages (stop_or codec true next b s)
  unfolding stop_or
  stop_or-Ends ms next true s e (inl o) more = absurd (true≢false (sym e ∙ o.running))
  stop_or-Ends ms next true s e (inr f) more = Finished-close_stream ms s f
  stop_or-Ends ms next false s e (inl o) more = more s o
  stop_or-Ends ms next false s e (inr f) more = absurd (true≢false (sym f.ended ∙ e))

  proceed-Ends :
      (messages : List (Option Text)) (next : Stream → Outcome) (r : Outcome)
      → After messages r
      → ((u : Stream) → Open u → Ends messages (next u))
      → Ends messages (proceed codec true next r)
  unfolding proceed
  proceed-Ends ms next (err e, s) h more = tt
  proceed-Ends ms next (ok done, s) h more = stop_or-Ends ms next s.completed s refl h more

  read_last-Ends :
      (last : Option Text) (s : Stream)
      → Open s
      → (context_error read_error : Option Text)
      → Ends (last ∷ []) (read_last codec true context_error read_error last s)
  unfolding read_last
  read_last-Ends last s o (some e) read_error = tt
  read_last-Ends last s o none (some e) = tt
  read_last-Ends last s o none none =
      proceed-Ends (last ∷ []) _ _ (deliver-After (last ∷ []) last s (inl refl) o) (λ u h. tt)

  module _ (context_error read_error : Option Text) where
    read_messages-Ends :
        (texts : List (Option Text)) (last : Option Text) (s : Stream)
        → Open s
        → Ends (texts ++ last ∷ []) (read_messages codec true context_error read_error texts last s)
    unfolding read_messages
    read_messages-Ends [] last s o = read_last-Ends last s o context_error read_error
    read_messages-Ends (m ∷ texts) last s o =
        proceed-Ends (m ∷ (texts ++ last ∷ [])) _ _
          (deliver-After (m ∷ (texts ++ last ∷ [])) m s (inl refl) o)
          (λ u h. Ends-later m (texts ++ last ∷ []) _ (read_messages-Ends texts last u h))

    Ends-ok :
        (messages : List (Option Text)) (r : Outcome)
        → Ends messages r
        → r.0 ≡ ok tt
        → Finished codec messages r.1
    Ends-ok ms (err e, s) h done = cc
    Ends-ok ms (ok tt, s) h done = h

    -- A stream that is read without an error, with a callback, was completed by one of its messages,
    -- those of the blocks between its empty lines and of the lines after the last one: the message is
    -- decoded to an event of the kind response.completed, and the identifier and the usage of the
    -- result are those of the response in that event. The text of the result is the text of the
    -- callback's calls, one after the other. The items of the result are those that the callback was
    -- given, in their order; or it was given none, and they are the output of that response.
    pub read_response_stream-Finished :
        (lines : List Text)
        → (read_response_stream codec true context_error read_error lines).0 ≡ ok tt
        → Finished codec
            (map message (blocks lines).0 ++ message (blocks lines).1 ∷ [])
            (read_response_stream codec true context_error read_error lines).1
    read_response_stream-Finished lines done =
        let same = read_response_stream-frames codec true context_error read_error lines in
        rw same (
          Ends-ok _ _
            (read_messages-Ends (map message (blocks lines).0) (message (blocks lines).1) new_stream
              Open-new)
            (sym (ap (λ (r : Outcome). r.0) same) ∙ done))
