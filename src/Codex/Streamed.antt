-- ===== src/Codex/Streamed.antt =====
-- provider/codex/response_stream.go: the events that the callback was given, and the streams that agree
-- with them.
use dire_agent.Prelude.{
  ◌≡◌, refl, ap, ◌∙◌, sym, ◌⊎◌, inl, inr, true, false, Option, some, List, [], ◌∷◌, ◌++◌,
}
use mathlib.Core.List.{append_assoc, append-nil}
use dire_agent.Prelude.Text.{Text}
use dire_agent.Agent.{ModelEvent, text_delta, reasoning_delta, reasoning_done, item_done}
use dire_agent.Codex.Usage.{agent_usage}
use dire_agent.Codex.Event.{Response, StreamEvent, Codec, kind_of, completed_response}
use dire_agent.Codex.Stream.{Stream, new_stream, window, emit, or_output, complete}

-- The text and the items that the callback was given.
unfoldable pub streamed_text : List ModelEvent → Text
streamed_text [] = []
streamed_text (text_delta d ∷ es) = d ++ streamed_text es
streamed_text (reasoning_delta d ∷ es) = streamed_text es
streamed_text (reasoning_done t ∷ es) = streamed_text es
streamed_text (item_done i ∷ es) = streamed_text es

unfoldable pub streamed_items : List ModelEvent → List Text
streamed_items [] = []
streamed_items (text_delta d ∷ es) = streamed_items es
streamed_items (reasoning_delta d ∷ es) = streamed_items es
streamed_items (reasoning_done t ∷ es) = streamed_items es
streamed_items (item_done i ∷ es) = i ∷ streamed_items es

pub streamed_text-append :
    (xs ys : List ModelEvent) → streamed_text (xs ++ ys) ≡ streamed_text xs ++ streamed_text ys
unfolding streamed_text
streamed_text-append [] ys = refl
streamed_text-append (text_delta d ∷ xs) ys = simp (streamed_text-append xs ys, append_assoc)
streamed_text-append (reasoning_delta d ∷ xs) ys = streamed_text-append xs ys
streamed_text-append (reasoning_done t ∷ xs) ys = streamed_text-append xs ys
streamed_text-append (item_done i ∷ xs) ys = streamed_text-append xs ys

pub streamed_items-append :
    (xs ys : List ModelEvent) → streamed_items (xs ++ ys) ≡ streamed_items xs ++ streamed_items ys
unfolding streamed_items
streamed_items-append [] ys = refl
streamed_items-append (text_delta d ∷ xs) ys = streamed_items-append xs ys
streamed_items-append (reasoning_delta d ∷ xs) ys = streamed_items-append xs ys
streamed_items-append (reasoning_done t ∷ xs) ys = streamed_items-append xs ys
streamed_items-append (item_done i ∷ xs) ys = ap (λ t. i ∷ t) (streamed_items-append xs ys)

-- Before the response is completed.
pub record Open (s : Stream) : Type 0 where
  pub text : streamed_text s.events ≡ s.deltas
  pub items : streamed_items s.events ≡ s.items
  pub running : s.completed ≡ false

abbrev pub Among : Option Text → List (Option Text) → Type 0
Among m [] = ⊥
Among m (x ∷ xs) = (m ≡ x) ⊎ Among m xs

-- A message of the stream is decoded to an event that completes the response.
pub record Completes (codec : Codec) (messages : List (Option Text)) (r : Response) : Type 0 where
  pub text : Text
  pub event : StreamEvent
  pub sent : Among (some text) messages
  pub decoded : codec.decode_event text ≡ some event
  pub completing : kind_of event.kind ≡ completed_response
  pub response : event.response ≡ r

-- Once it is, by one of these messages: the identifier and the usage are those of the response that the
-- message completes, and the items are those that were streamed, or the output of that response where
-- none was.
pub record Finished (codec : Codec) (messages : List (Option Text)) (s : Stream) : Type 0 where
  pub text : streamed_text s.events ≡ s.deltas
  pub response : Response
  pub completes : Completes codec messages response
  pub items :
      (streamed_items s.events ≡ s.items)
      ⊎ ((streamed_items s.events ≡ []) × (s.items ≡ response.output))
  pub id : s.response_id ≡ response.id
  pub usage : s.usage ≡ agent_usage response.usage (window codec.to_lower response)
  pub ended : s.completed ≡ true

pub Open-new : Open new_stream
unfolding streamed_text streamed_items
Open-new = record { text = refl; items = refl; running = refl }

pub or_output-cases :
    (items output : List Text)
    → (or_output items output ≡ items) ⊎ ((items ≡ []) × (or_output items output ≡ output))
unfolding or_output
or_output-cases [] output = inr (refl, refl)
or_output-cases (item ∷ items) output = inl refl

-- The other events do not count.
unfoldable pub Other : ModelEvent → Type 0
Other (text_delta d) = ⊥
Other (item_done i) = ⊥
Other (reasoning_delta d) = Unit
Other (reasoning_done t) = Unit

module _ (codec : Codec) where
  pub Open-emit :
      (event : ModelEvent) (s : Stream) → Other event → Open s → Open (emit codec true event s)
  unfolding emit streamed_text streamed_items Other
  Open-emit (text_delta d) s other o = absurd other
  Open-emit (item_done i) s other o = absurd other
  Open-emit (reasoning_delta d) s other o = record {
    text = streamed_text-append s.events _ ∙ append-nil _ ∙ o.text;
    items = streamed_items-append s.events _ ∙ append-nil _ ∙ o.items;
    running = o.running;
  }
  Open-emit (reasoning_done t) s other o = record {
    text = streamed_text-append s.events _ ∙ append-nil _ ∙ o.text;
    items = streamed_items-append s.events _ ∙ append-nil _ ∙ o.items;
    running = o.running;
  }

  pub Open-text :
      (d : Text) (s : Stream)
      → Open s
      → Open (emit codec true (text_delta d) (record s { deltas = s.deltas ++ d }))
  unfolding emit streamed_text streamed_items
  Open-text d s o = record {
    text =
        streamed_text-append s.events _
        ∙ (ap (λ x. x ++ (d ++ [])) o.text ∙ ap (λ x. s.deltas ++ x) (append-nil d));
    items = streamed_items-append s.events _ ∙ append-nil _ ∙ o.items;
    running = o.running;
  }

  pub Open-item :
      (raw : Text) (s : Stream)
      → Open s
      → Open (emit codec true (item_done raw) (record s { items = s.items ++ raw ∷ [] }))
  unfolding emit streamed_text streamed_items
  Open-item raw s o = record {
    text = streamed_text-append s.events _ ∙ append-nil _ ∙ o.text;
    items = streamed_items-append s.events _ ∙ ap (λ x. x ++ raw ∷ []) o.items;
    running = o.running;
  }

  pub Open-ended : (s : Stream) → Open s → Open (record s { reasoning_ended = true })
  Open-ended s o = record { text = o.text; items = o.items; running = o.running }

  pub Finished-complete :
      (messages : List (Option Text)) (r : Response) (s : Stream)
      → Completes codec messages r
      → Open s
      → Finished codec messages (complete codec true r s)
  unfolding complete
  Finished-complete messages r s c o = record {
    text = o.text;
    response = r;
    completes = c;
    items = elim (or_output-cases s.items r.output) [
      | inl same ↦ inl (o.items ∙ sym same)
      | inr (none_yet, output) ↦ inr (o.items ∙ none_yet, output)
    ];
    id = refl;
    usage = refl;
    ended = refl;
  }

  -- The messages after the first one.
  pub Finished-later :
      (m : Option Text) (messages : List (Option Text)) (s : Stream)
      → Finished codec messages s
      → Finished codec (m ∷ messages) s
  Finished-later m messages s f = record {
    text = f.text;
    response = f.response;
    completes = record {
      text = f.completes.text;
      event = f.completes.event;
      sent = inr f.completes.sent;
      decoded = f.completes.decoded;
      completing = f.completes.completing;
      response = f.completes.response;
    };
    items = f.items;
    id = f.id;
    usage = f.usage;
    ended = f.ended;
  }
