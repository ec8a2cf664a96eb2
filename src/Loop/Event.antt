-- ===== src/Loop/Event.antt =====
-- agentloop/loop.go: the lifecycle events, one constructor for each word of `Event.Type` with the
-- fields that are set there.
use dire_agent.Prelude.{ℕ, Bool}
use dire_agent.Prelude.Text.{Text}
use dire_agent.Agent.{Usage}

pub data Event : Type 0 where
  agent_start : Event
  turn_start : (step : ℕ) → Event
  message_start : (step : ℕ) (message_id : Text) → Event
  message_update : (step : ℕ) (message_id delta : Text) → Event
  reasoning_start : (step : ℕ) (message_id : Text) → Event
  reasoning_update : (step : ℕ) (message_id delta : Text) → Event
  reasoning_end : (step : ℕ) (message_id text : Text) → Event
  message_end : (step : ℕ) (message_id text : Text) (usage : Usage) → Event
  tool_execution_start : (step : ℕ) (call_id name arguments : Text) → Event
  tool_execution_end : (step : ℕ) (call_id name arguments output : Text) (is_error : Bool) → Event
  turn_end : (step : ℕ) → Event
  agent_end : (step : ℕ) (text : Text) → Event
