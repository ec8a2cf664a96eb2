-- ===== src/Tests/Loop.antt =====
-- A model that asks for a tool in its first step and answers in its second.
use dire_agent.Prelude.{ℕ, zero, suc, ◌≡◌, refl, Option, none, some, List, [], ◌∷◌, map, arith}
use mathlib.Core.List.{Perm}
use dire_agent.Prelude.Text.{Text, codes, text_eq}
use dire_agent.Prelude.Assoc.{contains, keys, Unique}
use dire_agent.Prelude.Sort.{IsSorted}
use dire_agent.Prelude.Results.{Result, ok}
use dire_agent.Agent.{
  ToolCall, ToolResult, Usage, StepRequest, StepResult, ModelEvent, text_delta, reasoning_delta,
}
use dire_agent.Usage.{no_usage, aggregate_all, Fits, Totals, aggregate_all-Totals}
use dire_agent.Loop.Config.{Tool, Hooks, Loop}
use dire_agent.Loop.Tools.{run_hooked, run_calls, before_tool, tool_definitions}
use dire_agent.Loop.Run.{run_with_images}
use dire_agent.Loop.Grammar.{silent, Follows}
use dire_agent.Loop.Grammar.Run.{Answered, run_with_images-Follows}
use dire_agent.Loop.Answer.{Agrees, Metered, unused, run_with_images-Metered}
use dire_agent.Loop.Calls.{run_calls-answers_each, run_hooked-veto, tool_definitions-perm}

abbrev some_usage : Usage
some_usage = record no_usage { input_tokens = 7; output_tokens = 5 }

abbrev read_call : ToolCall
read_call = record { id = codes "c1"; name = codes "read"; arguments = codes "{}" }

abbrev wrong_call : ToolCall
wrong_call = record { id = codes "c2"; name = codes "rm"; arguments = codes "{}" }

abbrev answer : List ToolCall → StepResult
answer calls = record {
  result = record {
    text = codes "hi";
    provider = codes "p";
    session_id = codes "s";
    turn_id = codes "t";
    usage = some_usage;
  };
  tool_calls = calls;
}

-- The world counts the steps that were taken.
scripted_step : ℕ → StepRequest → ℕ × List ModelEvent × Result Text StepResult
scripted_step zero request =
    (1, reasoning_delta (codes "hm") ∷ text_delta (codes "h") ∷ [], ok (answer (read_call ∷ [])))
scripted_step (suc n) request = (2, text_delta (codes "hi") ∷ [], ok (answer []))

abbrev tool_named : Text → Text × Tool ℕ
tool_named name = (
  name,
  record {
    definition = record { name = name; description = codes "d"; parameters = codes "{}" };
    execute = λ w a. (w, codes "done", none);
  },
)

abbrev forbid_rm : ℕ → ToolCall → ℕ × ToolCall × Option Text
forbid_rm w call = (w, call, some (codes "no"))

abbrev hooks_with : List (ℕ → ToolCall → ℕ × ToolCall × Option Text) → Hooks ℕ
hooks_with before = record {
  before_prompt = [];
  after_model = [];
  before_tool = before;
  after_tool = (λ w c r. (w, r, some (codes "late"))) ∷ [];
}

abbrev loop_with : List (ℕ → ToolCall → ℕ × ToolCall × Option Text) → Loop ℕ
loop_with before = record {
  session = record { id = codes "s"; step = scripted_step };
  tools = tool_named (codes "write") ∷ tool_named (codes "read") ∷ [];
  reasoning_effort = codes "low";
  max_steps = 4;
  take_steering = none;
  hooks = hooks_with before;
  context_error = λ w. none;
}

run_with_images-Follows_example :
    Follows silent (Answered 4) (run_with_images (loop_with []) 9 (codes "go") [] 0)
run_with_images-Follows_example = run_with_images-Follows (loop_with []) 9 (codes "go") [] 0

run_with_images-Metered_example :
    Metered unused Agrees (run_with_images (loop_with []) 9 (codes "go") [] 0)
run_with_images-Metered_example = run_with_images-Metered (loop_with []) 9 (codes "go") [] 0

run_calls-answers_each_example :
    (rs : List ToolResult) × ((run_calls (loop_with []) 1 (read_call ∷ wrong_call ∷ []) 0).value
      ≡ ok rs)
    × (map (λ r. r.call_id) rs ≡ codes "c1" ∷ codes "c2" ∷ [])
run_calls-answers_each_example =
    run_calls-answers_each (loop_with []) 1 (read_call ∷ wrong_call ∷ []) 0 ((λ w c r. refl), tt)

run_hooked-veto_example :
    run_hooked (record (loop_with (forbid_rm ∷ [])) { tools = [] }) read_call 0
    ≡ run_hooked (loop_with (forbid_rm ∷ [])) read_call 0
run_hooked-veto_example =
    run_hooked-veto (loop_with (forbid_rm ∷ [])) [] read_call 0 (codes "no")
      (unfold before_tool in refl)

two_tools-Unique : Unique (tool_named (codes "write") ∷ tool_named (codes "read") ∷ [])
unfolding contains keys text_eq
two_tools-Unique = (refl, (refl, tt))

tool_definitions-perm_example :
    (es : List (Text × Tool ℕ)) × (tool_definitions (loop_with []) ≡ map (λ e. e.1.definition) es)
    × Perm es (tool_named (codes "write") ∷ tool_named (codes "read") ∷ [])
    × IsSorted (keys es)
tool_definitions-perm_example = tool_definitions-perm (loop_with []) two_tools-Unique

abbrev reports : List Usage
reports = some_usage ∷ record some_usage { total_tokens = 20; context_window = 100 } ∷ []

reports-Fits : Fits reports
reports-Fits = record {
  input = omega arith;
  output = omega arith;
  cache_read = omega arith;
  cache_write = omega arith;
  total = omega arith;
}

aggregate_all-Totals_example : Totals reports (aggregate_all no_usage reports)
aggregate_all-Totals_example = aggregate_all-Totals reports reports-Fits
