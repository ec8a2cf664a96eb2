-- ===== src/Codex/Answers.antt =====
-- provider/codex/response_result.go: what is read from the items of a response.
use dire_agent.Prelude.{◌&&◌, ◌||◌, not, Option, none, some, List, [], ◌∷◌, ◌++◌, if◌then◌else◌}
use dire_agent.Prelude.Text.{Text, codes, text_eq, is_empty, join}
use dire_agent.Agent.{ToolCall}
use dire_agent.Codex.Event.{Codec, CallItem, MessageItem}
use dire_agent.Codex.Stream.{Stream}

module _ (codec : Codec) where
  -- The call in an item, if it is one.
  unfoldable pub call_of : Option CallItem → Option ToolCall
  unfolding text_eq
  call_of none = none
  call_of (some item) =
      if not (text_eq item.kind (codes "function_call")) || is_empty item.name
      then none
      else some (record {
        id = item.call_id;
        name = item.name;
        arguments = (if codec.valid_json item.arguments then item.arguments else codes "{}");
      })

  unfoldable pub add_call : Option ToolCall → List ToolCall → List ToolCall
  add_call none calls = calls
  add_call (some call) calls = call ∷ calls

  unfoldable pub tool_calls : List Text → List ToolCall
  unfolding call_of add_call
  tool_calls [] = []
  tool_calls (raw ∷ items) = add_call (call_of (codec.decode_call raw)) (tool_calls items)

-- The text of a message's content.
unfoldable pub output_text : List (Text × Text) → Text
unfolding text_eq
output_text [] = []
output_text ((kind, text) ∷ content) =
    let rest = output_text content in
    if text_eq kind (codes "output_text") then text ++ rest else rest

-- The final answers and the texts without a phase.
abbrev pub Answers : Type 0
Answers = List Text × List Text

unfoldable pub add_answer : Option MessageItem → Answers → Answers
unfolding text_eq output_text
add_answer none answers = answers
add_answer (some item) answers =
    if not (text_eq item.kind (codes "message") && text_eq item.role (codes "assistant"))
      || is_empty (output_text item.content)
    then answers
    else if text_eq item.phase (codes "final_answer")
    then (output_text item.content ∷ answers.0, answers.1)
    else if is_empty item.phase
    then (answers.0, output_text item.content ∷ answers.1)
    else answers

-- The tests after the loop.
unfoldable pub choose : Text → Answers → Text
unfolding join
choose deltas ([], []) = deltas
choose deltas ([], text ∷ texts) = join (codes "\n") (text ∷ texts)
choose deltas (text ∷ texts, unclassified) = join (codes "\n") (text ∷ texts)

module _ (codec : Codec) where
  unfoldable pub answers : List Text → Answers
  unfolding add_answer
  answers [] = ([], [])
  answers (raw ∷ items) = add_answer (codec.decode_message raw) (answers items)

  unfoldable pub final_text : Stream → Text
  unfolding answers choose
  final_text s = choose s.deltas (answers s.items)

  add_history : Option Text → List Text → List Text
  add_history none items = items
  add_history (some item) items = item ∷ items

  unfoldable pub history_items : List Text → List Text
  unfolding add_history
  history_items [] = []
  history_items (raw ∷ items) = add_history (codec.without_id raw) (history_items items)
