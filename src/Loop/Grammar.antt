-- ===== src/Loop/Grammar.antt =====
-- agentloop/loop.go: the order of the events of a run, the phases of a run and the events that may follow in each.
pub mod Turn
pub mod Run
use dire_agent.Prelude.{
  ℕ, suc, ◌≡◌, refl, ◌≢◌, Option, none, some, List, [], ◌∷◌, ◌++◌, arith, ◌==◌, if◌then◌else◌,
}
use dire_agent.Prelude.Results.{Result, ok, err}
use dire_agent.Loop.Event.{
  Event, agent_start, turn_start, message_start, message_update, reasoning_start, reasoning_update,
  reasoning_end, message_end, tool_execution_start, tool_execution_end, turn_end, agent_end,
}
use dire_agent.Loop.Outcome.{Outcome}
use dire_agent.Loop.Trace

-- Where a run stands; the number is the step of the current or the last turn.
pub data Phase : Type 0 where
  silent : Phase
  started : Phase
  opened : ℕ → Phase
  message : ℕ → Phase
  thinking : ℕ → Phase
  working : ℕ → Phase
  executing : ℕ → Phase
  closed : ℕ → Phase
  finished : ℕ → Phase

-- An event of step n belongs to the turn n.
abbrev at_step : ℕ → ℕ → Phase → Option Phase
at_step n k p = if n == k then some p else none

-- The events that may follow, and where they lead.
abbrev pub next : Phase → Event → Option Phase
next silent agent_start = some started
next started (turn_start n) = at_step n 1 (opened n)
next (opened k) (message_start n id) = at_step n k (message n)
next (message k) (message_update n id d) = at_step n k (message n)
next (message k) (reasoning_start n id) = at_step n k (thinking n)
next (message k) (message_end n id t u) = at_step n k (working n)
next (thinking k) (message_update n id d) = at_step n k (thinking n)
next (thinking k) (reasoning_update n id d) = at_step n k (thinking n)
next (thinking k) (reasoning_end n id t) = at_step n k (thinking n)
next (thinking k) (message_end n id t u) = at_step n k (working n)
next (working k) (tool_execution_start n c t a) = at_step n k (executing n)
next (executing k) (tool_execution_end n c t a o e) = at_step n k (working n)
next (working k) (turn_end n) = at_step n k (closed n)
next (closed k) (turn_start n) = at_step n (suc k) (opened n)
next (closed k) (agent_end n t) = at_step n k (finished n)
next _ _ = none

abbrev pub accepts : Phase → List Event → Option Phase
accepts = Trace.accepts next

-- The events are in order, and a part that succeeds leaves its value and phase as `Q` says.
abbrev pub Follows : {W A : Type 0} → Phase → (A → Phase → Type 0) → Outcome W A → Type 0
Follows = Trace.Follows next
