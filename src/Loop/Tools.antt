-- ===== src/Loop/Tools.antt =====
-- agentloop/loop.go: the execution of one tool call and of the calls of a step, and the definitions
-- that a step is offered.
use dire_agent.Prelude.{ℕ, true, false, Option, none, some, List, [], ◌∷◌, ◌++◌, if◌then◌else◌}
use mathlib.Core.Option
use mathlib.Core.List.{filter_map}
use dire_agent.Prelude.Text.{Text, codes, is_empty}
use dire_agent.Prelude.Assoc.{lookup, keys}
use dire_agent.Prelude.Sort.{sort_strings}
use dire_agent.Agent.{ToolDefinition, ToolCall, ToolResult}
use dire_agent.Loop.Event.{tool_execution_start, tool_execution_end}
use dire_agent.Loop.Outcome.{M, pure, emit, ◌>>=◌, ◌>>◌}
use dire_agent.Loop.Config.{Loop}

-- An error behind the output that there already is.
unfoldable pub append_error : ToolResult → Text → ToolResult
append_error r e = record r {
  is_error = true;
  output = (if is_empty r.output then r.output else r.output ++ codes "\n") ++ e;
}

abbrev pub with_error : ToolResult → Option Text → ToolResult
unfolding append_error
with_error r none = r
with_error r (some e) = append_error r e

-- The result before the hooks and the tool have set it.
abbrev pub fresh_result : ToolCall → ToolResult
fresh_result call = record { call_id = call.id; output = []; is_error = false }

module _ {W : Type 0} where
  -- The first hook that returns an error vetoes the call and ends the loop over the hooks.
  unfoldable pub before_tool :
      List (W → ToolCall → W × ToolCall × Option Text) → W → ToolCall → W × ToolCall × Option Text
  before_tool [] w call = (w, call, none)
  before_tool (hook ∷ hooks) w call =
      let (w', call', e) = hook w call in
      elim e [ some m ↦ (w', call', some m) | none ↦ before_tool hooks w' call' ]

  -- Every hook runs; an error is added to the output.
  unfoldable pub after_tool :
      List (W → ToolCall → ToolResult → W × ToolResult × Option Text)
      → W
      → ToolCall
      → ToolResult
      → W × ToolResult
  unfolding with_error
  after_tool [] w call result = (w, result)
  after_tool (hook ∷ hooks) w call result =
      let (w', result', e) = hook w call result in after_tool hooks w' call (with_error result' e)

  unfoldable pub dispatch : Loop W → W → ToolCall → ToolResult → Option Text → W × ToolResult
  unfolding with_error
  dispatch l w call result (some veto) = (w, record result { is_error = true; output = veto })
  dispatch l w call result none = elim (lookup call.name l.tools) [
    | none ↦ (
      w,
      record result { is_error = true; output = codes "unknown or disabled tool: " ++ call.name },
    )
    | some tool ↦
        let (w', output, e) = tool.execute w call.arguments in
        (w', with_error (record result { output = output }) e)
  ]

  unfoldable pub run_hooked : Loop W → ToolCall → W → W × (ToolCall × ToolResult)
  unfolding before_tool dispatch after_tool
  run_hooked l call w =
      let (w₁, call', veto) = before_tool l.hooks.before_tool w call in
      let (w₂, result) = dispatch l w₁ call' (fresh_result call) veto in
      let (w₃, final) = after_tool l.hooks.after_tool w₂ call' result in (w₃, (call', final))

  abbrev lift : {A : Type 0} → (W → W × A) → M W A
  lift f w = let (w', a) = f w in pure a w'

  unfoldable pub run_call : Loop W → ℕ → ToolCall → M W ToolResult
  unfolding run_hooked
  run_call l n call = do
    emit (tool_execution_start n call.id call.name call.arguments)
    done ← lift (run_hooked l call)
    let call' = done.0
    let r = done.1
    emit (tool_execution_end n call'.id call'.name call'.arguments r.output r.is_error)
    pure r

  unfoldable pub run_calls : Loop W → ℕ → List ToolCall → M W (List ToolResult)
  unfolding run_call
  run_calls l n [] = pure []
  run_calls l n (call ∷ calls) = do r ← run_call l n call; rs ← run_calls l n calls; pure (r ∷ rs)

  -- The definitions, by the names of the tools in ascending order.
  unfoldable pub tool_definitions : Loop W → List ToolDefinition
  tool_definitions l =
      filter_map (λ name. Option.map (λ tool. tool.definition) (lookup name l.tools))
        (sort_strings (keys l.tools))
