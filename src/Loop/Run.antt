-- ===== src/Loop/Run.antt =====
-- agentloop/loop.go: `RunWithImages`, its turns bounded by MaxSteps, and `beforePrompt`.
use dire_agent.Prelude.{
  ℕ, zero, suc, Bool, true, false, ◌&&◌, Option, none, some, List, [], ◌∷◌, ◌++◌, if◌then◌else◌,
}
use dire_agent.Prelude.Text.{Text, codes, is_blank}
use dire_agent.Prelude.Decimal.{decimal}
use dire_agent.Prelude.Results.{Result, ok, err}
use dire_agent.Agent.{ToolResult, ImageInput, Usage, StepRequest, AgentResult, StepResult}
use dire_agent.Usage.{aggregate_usage, no_usage}
use dire_agent.Loop.Event.{
  Event, agent_start, turn_start, message_start, message_end, turn_end, agent_end,
}
use dire_agent.Loop.Outcome.{
  empty_prompt, context_failed, step_failed, before_prompt_hook, after_model_hook, exceeded_steps,
  M, pure, throw, emit, emit_all, ◌>>=◌, ◌>>◌,
}
use dire_agent.Loop.Config.{Loop}
use dire_agent.Loop.Reasoning.{no_reasoning, relay, close_reasoning}
use dire_agent.Loop.Tools.{run_calls, tool_definitions}

-- No list entry.
abbrev pub is_nil : {A : Type 0} → List A → Bool
is_nil [] = true
is_nil (_ ∷ _) = false

-- What one turn hands to the next.
pub record TurnInput : Type 0 where
  pub user_messages : List Text
  pub images : List ImageInput
  pub tool_results : List ToolResult
  pub usage : Usage

-- The first round is given the prompt and the images.
abbrev pub first_input : Text → List ImageInput → TurnInput
first_input prompt images = record {
  user_messages = (if is_blank prompt then [] else prompt ∷ []);
  images = images;
  tool_results = [];
  usage = no_usage;
}

module _ {W : Type 0} where
  unfoldable pub before_prompt : List (W → Text → W × Result Text Text) → Text → M W Text
  before_prompt [] prompt w = pure prompt w
  before_prompt (hook ∷ hooks) prompt w =
      let (w', r) = hook w prompt in
      elim r [
        | ok prompt' ↦ before_prompt hooks prompt' w'
        | err e ↦ throw (before_prompt_hook e) w'
      ]

  unfoldable pub before_prompts :
      List (W → Text → W × Result Text Text) → List Text → M W (List Text)
  unfolding before_prompt
  before_prompts hooks [] = pure []
  before_prompts hooks (p ∷ ps) = do
    p' ← before_prompt hooks p
    ps' ← before_prompts hooks ps
    pure (p' ∷ ps')

  unfoldable pub after_model :
      List (W → StepResult → W × StepResult × Option Text) → StepResult → M W StepResult
  after_model [] step w = pure step w
  after_model (hook ∷ hooks) step w =
      let (w', step', e) = hook w step in
      elim e [ none ↦ after_model hooks step' w' | some m ↦ throw (after_model_hook m) w' ]

  unfoldable pub check_context : Loop W → M W (Unit {0})
  check_context l w = elim (l.context_error w) [
    | none ↦ pure tt w
    | some e ↦ throw (context_failed e) w
  ]

  unfoldable pub take_steering : Loop W → M W (List Text)
  unfolding before_prompts
  take_steering l w = elim l.take_steering [
    | none ↦ pure [] w
    | some take ↦ let (w', messages) = take w in before_prompts l.hooks.before_prompt messages w'
  ]

  -- What follows the events of the callback: the end of an open summary, or the error.
  unfoldable pub after_step : List Event → List Event → Result Text StepResult → M W StepResult
  after_step relayed closing (ok step) = do emit_all (relayed ++ closing); pure step
  after_step relayed closing (err e) = do emit_all relayed; throw (step_failed e)

  -- `Session.Step` with its callback.
  unfoldable pub model_step : Loop W → ℕ → Text → StepRequest → M W StepResult
  unfolding relay close_reasoning after_step
  model_step l n message_id request w =
      let reasoning_id = message_id ++ codes ":reasoning" in
      let (w', events, r) = l.session.step w request in
      let relayed = relay n message_id reasoning_id no_reasoning events in
      after_step relayed.0 (close_reasoning n reasoning_id relayed.1) r w'

  -- The end of a round: the answer, or what the next round is given.
  unfoldable pub finish_turn :
      ℕ → Usage → StepResult → List ToolResult → List Text → M W (Result TurnInput AgentResult)
  finish_turn n usage step results messages = do
    emit (turn_end n)
    if is_nil step.tool_calls && is_nil messages
        then (do emit (agent_end n step.text); pure (ok (record (step.result) { usage = usage })))
        else pure (
            err (record {
              user_messages = messages;
              images = [];
              tool_results = results;
              usage = usage;
            }))

  unfoldable pub steer_turn :
      Loop W → ℕ → Usage → StepResult → List ToolResult → M W (Result TurnInput AgentResult)
  unfolding take_steering finish_turn
  steer_turn l n usage step results = do
    messages ← take_steering l
    finish_turn n usage step results messages

  unfoldable pub work_turn :
      Loop W → ℕ → Text → TurnInput → StepResult → M W (Result TurnInput AgentResult)
  unfolding run_calls steer_turn
  work_turn l n message_id input step = do
    emit (message_end n message_id step.text step.usage)
    results ← run_calls l n step.tool_calls
    steer_turn l n (aggregate_usage input.usage step.usage) step results

  unfoldable pub answer_turn :
      Loop W → ℕ → Text → TurnInput → StepResult → M W (Result TurnInput AgentResult)
  unfolding after_model work_turn
  answer_turn l n message_id input answer = do
    step ← after_model l.hooks.after_model answer
    work_turn l n message_id input step

  abbrev pub request_of : Loop W → TurnInput → StepRequest
  request_of l input = record {
    user_messages = input.user_messages;
    images = input.images;
    tool_results = input.tool_results;
    tools = tool_definitions l;
    reasoning_effort = l.reasoning_effort;
  }

  unfoldable pub open_turn : Loop W → ℕ → Text → TurnInput → M W (Result TurnInput AgentResult)
  unfolding model_step answer_turn
  open_turn l n message_id input = do
    emit (turn_start n)
    emit (message_start n message_id)
    answer ← model_step l n message_id (request_of l input)
    answer_turn l n message_id input answer

  -- One round of the loop.
  unfoldable pub turn : Loop W → Text → ℕ → TurnInput → M W (Result TurnInput AgentResult)
  unfolding check_context open_turn
  turn l run_id n input = do
    check_context l
    open_turn l n (run_id ++ codes ":step-" ++ decimal n) input

  -- The first number is the rounds that are left, the second the current step.
  unfoldable pub turns : Loop W → Text → ℕ → ℕ → TurnInput → M W AgentResult
  turns l run_id zero n input = throw exceeded_steps
  turns l run_id (suc left) n input =
      turn l run_id n input
      >>= elim [ ok a ↦ pure a | err following ↦ turns l run_id left (suc n) following ]

  -- A blank prompt, with images, does not go through the hooks.
  unfoldable pub prepare_prompt : Loop W → Text → M W Text
  unfolding before_prompt
  prepare_prompt l prompt =
      if is_blank prompt then pure prompt else before_prompt l.hooks.before_prompt prompt

  -- `sequence` is the value that the run draws from the package's counter.
  unfoldable pub run_prepared : Loop W → ℕ → List ImageInput → Text → M W AgentResult
  unfolding turns
  run_prepared l sequence images prompt =
      turns l (l.session.id ++ codes ":run-" ++ decimal sequence) l.max_steps 1
        (first_input prompt images)

  unfoldable pub start_run : Loop W → ℕ → Text → List ImageInput → M W AgentResult
  unfolding prepare_prompt run_prepared
  start_run l sequence prompt images = do
    emit agent_start
    prompt' ← prepare_prompt l prompt
    run_prepared l sequence images prompt'

  unfoldable pub run_with_images : Loop W → ℕ → Text → List ImageInput → M W AgentResult
  unfolding start_run
  run_with_images l sequence prompt images =
      if is_blank prompt && is_nil images
      then throw empty_prompt
      else start_run l sequence prompt images
