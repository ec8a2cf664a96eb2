-- ===== src/Loop/Answer.antt =====
-- agentloop/loop.go: what a run answers, read off its events: a meter for the usage, the last message and the tool
-- executions that it asked for.
use dire_agent.Prelude.{
  ℕ, zero, suc, ◌+◌, ◌≡◌, refl, ap, sym, ◌∙◌, Bool, true, Bool-cases, ◌&&◌, inl, inr, Option, some,
  List, [], ◌∷◌, ◌++◌, arith, length,
}
use mathlib.Core.List.{append-nil}
use dire_agent.Prelude.Text.{Text, codes, is_blank}
use dire_agent.Prelude.Decimal.{decimal}
use dire_agent.Prelude.Results.{Result, ok, err}
use dire_agent.Agent.{
  Usage, ToolCall, ToolResult, ImageInput, ModelEvent, StepRequest, StepResult, AgentResult,
  text_delta, reasoning_delta, reasoning_done, item_done,
}
use dire_agent.Usage.{aggregate_usage, no_usage}
use dire_agent.Loop.Event.{
  Event, agent_start, turn_start, message_start, message_end, tool_execution_start,
}
use dire_agent.Loop.Outcome.{Outcome, pure, ◌>>=◌}
use dire_agent.Loop.Config.{Loop}
use dire_agent.Loop.Reasoning.{Reasoning, no_reasoning, on_event, relay, close_reasoning}
use dire_agent.Loop.Tools.{run_call, run_calls}
use dire_agent.Loop.Run.{
  TurnInput, is_nil, request_of, first_input, after_model, check_context, take_steering, after_step,
  model_step, finish_turn, steer_turn, work_turn, answer_turn, open_turn, turn, turns,
  prepare_prompt, run_prepared, start_run, run_with_images,
}
use dire_agent.Loop.Trace
use dire_agent.Loop.Silence.{
  after_model-Stays, check_context-Stays, take_steering-Stays, prepare_prompt-Stays,
}

pub record Meter : Type 0 where
  pub usage : Usage
  pub text : Text
  -- The executions since the last message.
  pub executions : ℕ

abbrev pub count : Meter → Event → Option Meter
count m (message_end n id t u) =
    some (record { usage = aggregate_usage m.usage u; text = t; executions = 0 })
count m (tool_execution_start n c t a) = some (record m { executions = suc m.executions })
count m _ = some m

abbrev pub measure : Meter → List Event → Option Meter
measure = Trace.accepts count

abbrev pub Metered : {W A : Type 0} → Meter → (A → Meter → Type 0) → Outcome W A → Type 0
Metered = Trace.Follows count

abbrev pub unused : Meter
unused = record { usage = no_usage; text = []; executions = 0 }

-- An answer repeats the last message, which asked for no tool, with the usage of all messages.
abbrev pub Agrees : AgentResult → Meter → Type 0
Agrees a m = (a.text ≡ m.text) × (a.usage ≡ m.usage) × (m.executions ≡ 0)

-- What a turn hands on: one result for each execution, and the usage so far.
abbrev pub HandsOn : Result TurnInput AgentResult → Meter → Type 0
HandsOn (ok a) m = Agrees a m
HandsOn (err t) m = (length t.tool_results ≡ m.executions) × (t.usage ≡ m.usage)

on_event-measure :
    (m : Meter) (n : ℕ) (id rid : Text) (r : Reasoning) (e : ModelEvent)
    → measure m (on_event n id rid r e).0 ≡ some m
unfolding on_event
on_event-measure m n id rid r (text_delta d) = refl
on_event-measure m n id rid r (reasoning_delta d) = ground arith
on_event-measure m n id rid r (reasoning_done t) = ground arith
on_event-measure m n id rid r (item_done i) = refl

relay-measure :
    (m : Meter) (n : ℕ) (id rid : Text) (r : Reasoning) (es : List ModelEvent)
    → measure m (relay n id rid r es).0 ≡ some m
unfolding relay
relay-measure m n id rid r [] = refl
relay-measure m n id rid r (e ∷ es) =
    let r' = (on_event n id rid r e).1 in
    Trace.accepts-append count m m (on_event n id rid r e).0 (relay n id rid r' es).0
      (on_event-measure m n id rid r e)
    ∙ relay-measure m n id rid r' es

close-measure :
    (m : Meter) (n : ℕ) (rid : Text) (r : Reasoning) → measure m (close_reasoning n rid r) ≡ some m
unfolding close_reasoning
close-measure m n rid r = ground arith

-- One result for each call, counted by the executions.
abbrev Ran : ℕ → Meter → List ToolResult → Meter → Type 0
Ran c m rs q =
    (length rs ≡ c) × (q.usage ≡ m.usage) × (q.text ≡ m.text) × (q.executions ≡ m.executions + c)

length-nil : (xs : List ToolCall) → is_nil xs ≡ true → length xs ≡ 0
length-nil [] h = refl
length-nil (x ∷ xs) h = cc

and_left : (a b : Bool) → (a && b) ≡ true → a ≡ true
and_left a b h = ground arith

module _ {W : Type 0} where
  after_step-Metered :
      (m : Meter) (relayed closing : List Event) (v : Result Text StepResult) (w : W)
      → measure m relayed ≡ some m
      → measure m closing ≡ some m
      → Metered m (λ s q. q ≡ m) (after_step relayed closing v w)
  unfolding after_step
  after_step-Metered m relayed closing (ok step) w h k = record {
    reached = m;
    in_order =
        ap (measure m) (append-nil (relayed ++ closing))
        ∙ Trace.accepts-append count m m relayed closing h
        ∙ k;
    post = refl;
  }
  after_step-Metered m relayed closing (err e) w h k = record {
    reached = m;
    in_order = ap (measure m) (append-nil relayed) ∙ h;
    post = tt;
  }

  model_step-Metered :
      (l : Loop W) (m : Meter) (n : ℕ) (id : Text) (q : StepRequest) (w : W)
      → Metered {A = StepResult} m (λ s r. r ≡ m) (model_step l n id q w)
  unfolding model_step
  model_step-Metered l m n id q w =
      let (w', events, v) = l.session.step w q in
      let rid = id ++ codes ":reasoning" in
      let relayed = relay n id rid no_reasoning events in
      after_step-Metered m relayed.0 (close_reasoning n rid relayed.1) v w'
        (relay-measure m n id rid no_reasoning events) (close-measure m n rid relayed.1)

  run_calls-Metered :
      (l : Loop W) (n : ℕ) (calls : List ToolCall) (m : Meter) (w : W)
      → Metered m (Ran (length calls) m) (run_calls l n calls w)
  unfolding run_calls run_call
  run_calls-Metered l n [] m w = record {
    reached = m;
    in_order = refl;
    post = (refl, refl, refl, omega arith);
  }
  run_calls-Metered l n (call ∷ calls) m w =
      let m' : Meter = record m { executions = suc m.executions } in
      Trace.Follows-bind count {Q = λ r q. q ≡ m'} (run_call l n call w)
        (λ r. run_calls l n calls >>= λ rs. pure (r ∷ rs))
        (record { reached = m'; in_order = refl; post = refl })
        λ r w' q e.
          let rest : Metered q (Ran (length calls) m') (run_calls l n calls w') =
            rw e (run_calls-Metered l n calls m' w') in
          Trace.Follows-bind count (run_calls l n calls w') (λ rs. pure (r ∷ rs)) rest
            λ rs w'' q' (p₁, p₂, p₃, p₄). record {
              reached = q';
              in_order = refl;
              post = (omega arith, p₂, p₃, omega arith);
            }

  finish_turn-Metered :
      (n : ℕ) (u : Usage) (s : StepResult) (rs : List ToolResult) (ms : List Text) (m : Meter)
      (w : W)
      → m.usage ≡ u
      → m.text ≡ s.text
      → m.executions ≡ length s.tool_calls
      → length rs ≡ length s.tool_calls
      → Metered m HandsOn (finish_turn n u s rs ms w)
  unfolding finish_turn
  finish_turn-Metered n u s rs ms m w hu ht he hr =
      elim (Bool-cases (is_nil s.tool_calls && is_nil ms)) [
        | inl e ↦ rw e (record {
          reached = m;
          in_order = refl;
          post = (sym ht, sym hu, he ∙ length-nil s.tool_calls (and_left _ _ e));
        })
        | inr e ↦ rw e (record { reached = m; in_order = refl; post = (hr ∙ sym he, sym hu) })
      ]

  steer_turn-Metered :
      (l : Loop W) (n : ℕ) (u : Usage) (s : StepResult) (rs : List ToolResult) (m : Meter) (w : W)
      → m.usage ≡ u
      → m.text ≡ s.text
      → m.executions ≡ length s.tool_calls
      → length rs ≡ length s.tool_calls
      → Metered m HandsOn (steer_turn l n u s rs w)
  unfolding steer_turn
  steer_turn-Metered l n u s rs m w hu ht he hr =
      Trace.Follows-bind count (take_steering l w) (finish_turn n u s rs)
        (Trace.Stays-Follows count m (take_steering l w) (take_steering-Stays l w))
        λ ms w' q e. rw e (finish_turn-Metered n u s rs ms m w' hu ht he hr)

  work_turn-Metered :
      (l : Loop W) (n : ℕ) (id : Text) (i : TurnInput) (s : StepResult) (m : Meter) (w : W)
      → i.usage ≡ m.usage
      → Metered m HandsOn (work_turn l n id i s w)
  unfolding work_turn
  work_turn-Metered l n id i s m w h =
      let u = aggregate_usage i.usage s.usage in
      let m' : Meter = record { usage = u; text = s.text; executions = 0 } in
      Trace.Follows-resume count m' (message_end n id s.text s.usage ∷ []) (rw h) (
        Trace.Follows-bind count (run_calls l n s.tool_calls w) (steer_turn l n u s)
          (run_calls-Metered l n s.tool_calls m' w)
          λ rs w' q (p₁, p₂, p₃, p₄). steer_turn-Metered l n u s rs q w' p₂ p₃ (omega arith) p₁)

  turn-Metered :
      (l : Loop W) (run_id : Text) (n : ℕ) (i : TurnInput) (m : Meter) (w : W)
      → i.usage ≡ m.usage
      → Metered m HandsOn (turn l run_id n i w)
  unfolding turn open_turn answer_turn
  turn-Metered l run_id n i m w h =
      let id = run_id ++ codes ":step-" ++ decimal n in
      let hooks = l.hooks.after_model in
      Trace.Follows-bind count (check_context l w) (λ _. open_turn l n id i)
        (Trace.Stays-Follows count m (check_context l w) (check_context-Stays l w))
        λ _ w₁ q₁ e₁. rw e₁ (
          Trace.Follows-resume count m (turn_start n ∷ []) refl (
            Trace.Follows-resume count m (message_start n id ∷ []) refl (
              Trace.Follows-bind count (model_step l n id (request_of l i) w₁)
                (answer_turn l n id i) (model_step-Metered l m n id (request_of l i) w₁)
                λ s w₂ q₂ e₂. rw e₂ (
                  Trace.Follows-bind count (after_model hooks s w₂) (work_turn l n id i)
                    (Trace.Stays-Follows count m (after_model hooks s w₂)
                      (after_model-Stays hooks s w₂))
                    λ s' w₃ q₃ e₃. rw e₃ (work_turn-Metered l n id i s' m w₃ h)))))

  turns-Metered :
      (l : Loop W) (run_id : Text) (left n : ℕ) (i : TurnInput) (m : Meter) (w : W)
      → i.usage ≡ m.usage
      → Metered m Agrees (turns l run_id left n i w)
  unfolding turns
  turns-Metered l run_id zero n i m w h = record { reached = m; in_order = refl; post = tt }
  turns-Metered l run_id (suc left) n i m w h =
      Trace.Follows-bind count (turn l run_id n i w) _ (turn-Metered l run_id n i m w h) (elim [
        | ok a ↦ λ w' q e. record { reached = q; in_order = refl; post = e }
        | err t ↦ λ w' q e. turns-Metered l run_id left (suc n) t q w' e.1
      ])

  -- An answer repeats the text of the run's last message, no tool was executed after that message, and
  -- the answer's usage is the aggregate of the usages of all messages in their order.
  pub run_with_images-Metered :
      (l : Loop W) (sequence : ℕ) (prompt : Text) (images : List ImageInput) (w : W)
      → Metered unused Agrees (run_with_images l sequence prompt images w)
  unfolding run_with_images start_run run_prepared
  run_with_images-Metered l sequence prompt images w =
      elim (Bool-cases (is_blank prompt && is_nil images)) [
        | inl e ↦ rw e (record { reached = unused; in_order = refl; post = tt })
        | inr e ↦ rw e (
            Trace.Follows-resume count unused (agent_start ∷ []) refl (
              Trace.Follows-bind count (prepare_prompt l prompt w) (run_prepared l sequence images)
                (Trace.Stays-Follows count unused (prepare_prompt l prompt w)
                  (prepare_prompt-Stays l prompt w))
                λ t w' q e'.
                  rw e' (turns-Metered l _ l.max_steps 1 (first_input t images) unused w' refl)))
      ]
