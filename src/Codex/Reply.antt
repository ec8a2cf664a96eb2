-- ===== src/Codex/Reply.antt =====
-- provider/codex/response_result.go: the tool calls and the text of a result.
use dire_agent.Prelude.{
  ◌≡◌, refl, sym, ap, ◌∙◌, true, false, ◌&&◌, not, Option, none, some, List, [], ◌∷◌, All, arith,
  if◌then◌else◌,
}
use dire_agent.Prelude.Text.{Text, codes, text_eq, is_empty, join}
use dire_agent.Prelude.Results.{ok}
use dire_agent.Agent.{ToolCall}
use dire_agent.Codex.Event.{Codec, CallItem, MessageItem}
use dire_agent.Codex.Stream.{read_response_stream}
use dire_agent.Codex.Answers.{
  call_of, add_call, tool_calls, output_text, Answers, add_answer, choose, answers, final_text,
}
use dire_agent.Codex.Streamed.{streamed_text}
use dire_agent.Codex.Deltas.{read_response_stream-Finished}

-- A call that the loop can look up and whose arguments a tool can decode.
abbrev pub IsUsable : Codec → ToolCall → Type 0
IsUsable codec call = (is_empty call.name ≡ false) × (codec.valid_json call.arguments ≡ true)

-- The texts of the assistant's messages of one phase.
text_in : Text → Option MessageItem → List Text → List Text
unfolding text_eq output_text
text_in phase none texts = texts
text_in phase (some item) texts =
    if text_eq item.kind (codes "message")
      && text_eq item.role (codes "assistant")
      && text_eq item.phase phase
      && not (is_empty (output_text item.content))
    then output_text item.content ∷ texts
    else texts

unfoldable pub texts_in : Codec → Text → List Text → List Text
unfolding text_in
texts_in codec phase [] = []
texts_in codec phase (raw ∷ items) =
    text_in phase (codec.decode_message raw) (texts_in codec phase items)

-- The first of three sources that has a text.
abbrev pub reply : List Text → List Text → Text → Text
reply [] [] streamed = streamed
reply [] (text ∷ texts) streamed = join (codes "\n") (text ∷ texts)
reply (text ∷ texts) others streamed = join (codes "\n") (text ∷ texts)

module _ (codec : Codec) (empty_object : codec.valid_json (codes "{}") ≡ true) where
  call_of-IsUsable :
      (o : Option CallItem) (calls : List ToolCall)
      → All (IsUsable codec) calls
      → All (IsUsable codec) (add_call codec (call_of codec o) calls)
  unfolding call_of add_call
  call_of-IsUsable none calls h = h
  call_of-IsUsable (some item) calls h = ground arith

  -- Every tool call that is read from the items of a response has a name, and JSON as its arguments,
  -- where {} is JSON.
  pub tool_calls-IsUsable : (items : List Text) → All (IsUsable codec) (tool_calls codec items)
  unfolding tool_calls
  tool_calls-IsUsable [] = tt
  tool_calls-IsUsable (raw ∷ items) =
      call_of-IsUsable (codec.decode_call raw) (tool_calls codec items) (tool_calls-IsUsable items)

empty-phase : (phase : Text) → text_eq phase [] ≡ is_empty phase
unfolding text_eq
empty-phase [] = refl
empty-phase (c ∷ phase) = refl

final-phase : (phase : Text) → is_empty phase ≡ true → text_eq phase (codes "final_answer") ≡ false
unfolding text_eq
final-phase [] h = refl
final-phase (c ∷ phase) h = cc

add_answer-texts :
    (o : Option MessageItem) (finals others : List Text)
    → add_answer o (finals, others) ≡ (text_in (codes "final_answer") o finals, text_in [] o others)
unfolding add_answer text_in
add_answer-texts none finals others = refl
add_answer-texts (some item) finals others =
    ground (arith, empty-phase item.phase, final-phase item.phase)

module _ (codec : Codec) where
  answers-texts :
      (items : List Text)
      → answers codec items ≡ (texts_in codec (codes "final_answer") items, texts_in codec [] items)
  unfolding answers texts_in
  answers-texts [] = refl
  answers-texts (raw ∷ items) =
      rw (answers-texts items) (add_answer-texts (codec.decode_message raw) _ _)

  choose-reply : (streamed : Text) (a : Answers) → choose streamed a ≡ reply a.0 a.1 streamed
  unfolding choose
  choose-reply streamed ([], []) = refl
  choose-reply streamed ([], text ∷ texts) = refl
  choose-reply streamed (text ∷ texts, others) = refl

  -- The text of a stream that was read without an error, with a callback: the assistant's messages of
  -- the phase final_answer that have a text, joined by line ends; where there is none, those without a
  -- phase; where there is none either, the text that the callback was given.
  pub final_text-reply :
      (context_error read_error : Option Text) (lines : List Text)
      → (read_response_stream codec true context_error read_error lines).0 ≡ ok tt
      → final_text codec (read_response_stream codec true context_error read_error lines).1
        ≡ reply
            (texts_in codec
              (codes "final_answer")
              (read_response_stream codec true context_error read_error lines).1.items)
            (texts_in codec []
              (read_response_stream codec true context_error read_error lines).1.items)
            (streamed_text
              (read_response_stream codec true context_error read_error lines).1.events)
  unfolding final_text
  final_text-reply context_error read_error lines h =
      let s = (read_response_stream codec true context_error read_error lines).1 in
      let done = read_response_stream-Finished codec context_error read_error lines h in
      choose-reply s.deltas (answers codec s.items)
      ∙ rw (answers-texts s.items) (
          ap (reply (texts_in codec (codes "final_answer") s.items) (texts_in codec [] s.items))
            (sym done.text))
