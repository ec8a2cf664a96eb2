-- ===== src/Agent.antt =====
-- agent/agent.go: the provider-neutral values that pass between a session, the loop and the tools.
-- A token count is an int64, held as its bit pattern below 2 ^ 64. JSON values are their text.
use dire_agent.Prelude.{ℕ, Bool, List}
use dire_agent.Prelude.Text.{Text}

pub record ToolDefinition : Type 0 where
  pub name : Text
  pub description : Text
  pub parameters : Text

pub record ToolCall : Type 0 where
  pub id : Text
  pub name : Text
  pub arguments : Text

pub record ToolResult : Type 0 where
  pub call_id : Text
  pub output : Text
  pub is_error : Bool

pub record ImageInput : Type 0 where
  pub name : Text
  pub mime_type : Text
  pub bytes : List ℕ

-- `Type` of a ModelEvent is one of four words.
pub data ModelEvent : Type 0 where
  text_delta : Text → ModelEvent
  reasoning_delta : Text → ModelEvent
  reasoning_done : Text → ModelEvent
  item_done : Text → ModelEvent

pub record Usage : Type 0 where
  pub input_tokens : ℕ
  pub output_tokens : ℕ
  pub cache_read_tokens : ℕ
  pub cache_write_tokens : ℕ
  pub total_tokens : ℕ
  pub context_tokens : ℕ
  pub context_window : ℕ

-- `StepRequest`; its OnEvent callback is the list of events that a step returns.
pub record StepRequest : Type 0 where
  pub user_messages : List Text
  pub images : List ImageInput
  pub tool_results : List ToolResult
  pub tools : List ToolDefinition
  pub reasoning_effort : Text

pub record AgentResult : Type 0 where
  pub text : Text
  pub provider : Text
  pub session_id : Text
  pub turn_id : Text
  pub usage : Usage

pub record StepResult : Type 0 where
  pub result : AgentResult
  pub open result use *
  pub tool_calls : List ToolCall
