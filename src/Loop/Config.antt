-- ===== src/Loop/Config.antt =====
-- agentloop/loop.go: `Tool`, `Hooks`, `Config` and `New`. A session, a tool and a hook are code that
-- the loop is given; each is a function of the world `W` in which it acts.
use dire_agent.Prelude.{ℕ, Option, none, some, List, [], if◌then◌else◌}
use dire_agent.Prelude.Text.{Text, codes}
use dire_agent.Prelude.Int.{ℤ, is_not_positive, pos_part}
use dire_agent.Prelude.Results.{Result, ok, err}
use dire_agent.Agent.{ToolDefinition, ToolCall, ToolResult, StepRequest, StepResult, ModelEvent}

-- The error of an execution comes beside its output.
pub record Tool (W : Type 0) : Type 0 where
  pub definition : ToolDefinition
  pub execute : W → Text → W × Text × Option Text

-- `Step` hands its model events to the OnEvent callback, in the order of the list.
pub record Session (W : Type 0) : Type 0 where
  pub id : Text
  pub step : W → StepRequest → W × List ModelEvent × Result Text StepResult

-- A hook may change the value that it is given a pointer to, also where it returns an error.
pub record Hooks (W : Type 0) : Type 0 where
  pub before_prompt : List (W → Text → W × Result Text Text)
  pub after_model : List (W → StepResult → W × StepResult × Option Text)
  pub before_tool : List (W → ToolCall → W × ToolCall × Option Text)
  pub after_tool : List (W → ToolCall → ToolResult → W × ToolResult × Option Text)

pub record Config (W : Type 0) : Type 0 where
  pub session : Option (Session W)
  pub tools : Option (List (Text × Tool W))
  pub reasoning_effort : Text
  pub max_steps : ℤ
  pub take_steering : Option (W → W × List Text)
  pub hooks : Hooks W
  -- `ctx.Err()`.
  pub context_error : W → Option Text

-- A loop that `New` has checked, with its defaults filled in.
pub record Loop (W : Type 0) : Type 0 where
  pub session : Session W
  pub tools : List (Text × Tool W)
  pub reasoning_effort : Text
  pub max_steps : ℕ
  pub take_steering : Option (W → W × List Text)
  pub hooks : Hooks W
  pub context_error : W → Option Text

abbrev default_max_steps : ℕ
default_max_steps = 32

abbrev or_empty : {W : Type 0} → Option (List (Text × Tool W)) → List (Text × Tool W)
or_empty none = []
or_empty (some tools) = tools

unfoldable pub new_loop : {W : Type 0} → Config W → Result Text (Loop W)
new_loop c = elim c.session [
  | none ↦ err (codes "agentloop: session is nil")
  | some s ↦ ok (record {
    session = s;
    tools = or_empty c.tools;
    reasoning_effort = c.reasoning_effort;
    max_steps = (if is_not_positive c.max_steps then default_max_steps else pos_part c.max_steps);
    take_steering = c.take_steering;
    hooks = c.hooks;
    context_error = c.context_error;
  })
]
