-- ===== src/Codex/Event.antt =====
-- provider/codex/response_types.go: the decoded events of a response stream and the items in them. A JSON
-- value is its text.
use dire_agent.Prelude.{ℕ, Bool, Option, List, if◌then◌else◌}
use dire_agent.Prelude.Text.{Text, codes, text_eq}
use dire_agent.Codex.Usage.{ResponsesUsage}

pub record StreamFailure : Type 0 where
  pub code : Text
  pub message : Text
  pub kind : Text

pub record Response : Type 0 where
  pub id : Text
  pub model : Text
  pub context_window : ℕ
  pub output : List Text
  pub usage : ResponsesUsage
  pub failure : Option StreamFailure
  -- The reason in `incomplete_details`, where there are details.
  pub incomplete_reason : Option Text

pub record StreamEvent : Type 0 where
  pub kind : Text
  pub delta : Text
  pub text : Text
  -- Empty where it is missing.
  pub item : Text
  pub response : Response
  pub failure : Option StreamFailure

-- An item of a response, as three functions decode it.
pub record ReasoningItem : Type 0 where
  pub kind : Text
  pub summary : List Text

pub record CallItem : Type 0 where
  pub kind : Text
  pub call_id : Text
  pub name : Text
  pub arguments : Text

-- The content: types and texts.
pub record MessageItem : Type 0 where
  pub kind : Text
  pub role : Text
  pub phase : Text
  pub content : List (Text × Text)

-- What the code calls of encoding/json, strings and regexp: decoding events and items, whether a text is
-- JSON, strings.ToLower, and the removal of HTML comments.
pub record Codec : Type 0 where
  pub decode_event : Text → Option StreamEvent
  pub decode_reasoning : Text → Option ReasoningItem
  pub decode_call : Text → Option CallItem
  pub decode_message : Text → Option MessageItem
  pub valid_json : Text → Bool
  pub to_lower : Text → Text
  pub remove_comments : Text → Text
  -- `delete(item, "id")` on a decoded object, encoded again.
  pub without_id : Text → Option Text

-- The cases of the switch on the type of an event.
pub data Kind : Type 0 where
  output_text_delta : Kind
  summary_delta : Kind
  summary_done : Kind
  output_item_done : Kind
  completed_response : Kind
  failed_response : Kind
  incomplete_response : Kind
  stream_failed : Kind
  other_kind : Kind

unfoldable pub kind_of : Text → Kind
unfolding text_eq
kind_of t =
    if text_eq t (codes "response.output_text.delta")
    then output_text_delta
    else if text_eq t (codes "response.reasoning_summary_text.delta")
    then summary_delta
    else if text_eq t (codes "response.reasoning_summary_text.done")
    then summary_done
    else if text_eq t (codes "response.output_item.done")
    then output_item_done
    else if text_eq t (codes "response.completed")
    then completed_response
    else if text_eq t (codes "response.failed")
    then failed_response
    else if text_eq t (codes "response.incomplete")
    then incomplete_response
    else if text_eq t (codes "error")
    then stream_failed
    else other_kind
