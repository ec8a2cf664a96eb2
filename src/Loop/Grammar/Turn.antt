-- ===== src/Loop/Grammar/Turn.antt =====
-- agentloop/loop.go: the events of each part of a turn.
use dire_agent.Prelude.{
  ℕ, ◌≡◌, refl, ap, ◌∙◌, true, ◌&&◌, Bool-cases, some, List, [], ◌∷◌, ◌++◌, arith, ◌==◌,
  if◌then◌else◌, inl, inr, ◌⊎◌,
}
use dire_agent.Prelude.Text.{Text, codes}
use dire_agent.Prelude.Results.{Result, ok, err}
use dire_agent.Agent.{
  AgentResult, Usage, ToolCall, ToolResult, ModelEvent, StepRequest, StepResult, text_delta,
  reasoning_delta, reasoning_done, item_done,
}
use dire_agent.Loop.Event.{Event, turn_start, message_start, message_end}
use dire_agent.Usage.{aggregate_usage}
use dire_agent.Prelude.Decimal.{decimal}
use dire_agent.Loop.Outcome.{pure, ◌>>=◌}
use mathlib.Core.List.{append-nil}
use dire_agent.Loop.Config.{Loop}
use dire_agent.Loop.Reasoning.{Reasoning, no_reasoning, on_event, relay, close_reasoning}
use dire_agent.Loop.Tools.{run_call, run_calls}
use dire_agent.Loop.Run.{
  after_step, TurnInput, after_model, check_context, take_steering, model_step, finish_turn,
  steer_turn, work_turn, answer_turn, open_turn, turn, is_nil, request_of,
}
use dire_agent.Loop.Grammar.{
  Phase, message, thinking, working, finished, closed, opened, accepts, Follows,
}
use dire_agent.Loop.Trace
use dire_agent.Loop.Grammar.{next}
use dire_agent.Loop.Silence.{after_model-Stays, check_context-Stays, take_steering-Stays}

-- A summary is started at most once in a step, and its updates and ends follow the start.
abbrev in_message : ℕ → Reasoning → Phase
in_message n r = if r.started then thinking n else message n

same_step : (n : ℕ) → (n == n) ≡ true
same_step n = ground arith

on_event-order :
    (n : ℕ) (id rid : Text) (r : Reasoning) (e : ModelEvent)
    → accepts (in_message n r) (on_event n id rid r e).0
      ≡ some (in_message n (on_event n id rid r e).1)
unfolding on_event
on_event-order n id rid r (text_delta d) = ground arith
on_event-order n id rid r (reasoning_delta d) = ground arith
on_event-order n id rid r (reasoning_done t) = ground arith
on_event-order n id rid r (item_done i) = ground arith

relay-order :
    (n : ℕ) (id rid : Text) (r : Reasoning) (es : List ModelEvent)
    → accepts (in_message n r) (relay n id rid r es).0 ≡ some (in_message n (relay n id rid r es).1)
unfolding relay
relay-order n id rid r [] = refl
relay-order n id rid r (e ∷ es) =
    let r' = (on_event n id rid r e).1 in
    rw
      (Trace.accepts-append next (in_message n r) (in_message n r') (on_event n id rid r e).0
        (relay n id rid r' es).0 (on_event-order n id rid r e))
      (relay-order n id rid r' es)

close-order :
    (n : ℕ) (rid : Text) (r : Reasoning)
    → accepts (in_message n r) (close_reasoning n rid r) ≡ some (in_message n r)
unfolding close_reasoning
close-order n rid r = ground arith

-- In the message of step n, with or without a summary.
abbrev pub Spoken : {A : Type 0} → ℕ → A → Phase → Type 0
Spoken n a q = (q ≡ message n) ⊎ (q ≡ thinking n)

in_message-Spoken :
    (n : ℕ) (r : Reasoning) → (in_message n r ≡ message n) ⊎ (in_message n r ≡ thinking n)
in_message-Spoken n r = ground arith

-- After a turn: the run is over, or the next turn may start.
abbrev pub Ends : ℕ → Result TurnInput AgentResult → Phase → Type 0
Ends n (ok a) q = q ≡ finished n
Ends n (err t) q = q ≡ closed n

-- The phase in which a model's answer is read becomes the phase in which its calls run.
message_end-order :
    {A : Type 0} (n : ℕ) (id t : Text) (u : Usage) (a : A) (q : Phase)
    → Spoken n a q
    → accepts q (message_end n id t u ∷ []) ≡ some (working n)
message_end-order n id t u a q (inl e) = rw e (ground arith)
message_end-order n id t u a q (inr e) = rw e (ground arith)

module _ {W : Type 0} where
  after_step-Follows :
      (p q r : Phase) (relayed closing : List Event) (v : Result Text StepResult) (w : W)
      {Q : StepResult → Phase → Type 0}
      → accepts p relayed ≡ some q
      → accepts q closing ≡ some r
      → ((s : StepResult) → Q s r)
      → Follows p Q (after_step relayed closing v w)
  unfolding after_step
  after_step-Follows p q r relayed closing (ok step) w h k post = record {
    reached = r;
    in_order =
        ap (accepts p) (append-nil (relayed ++ closing))
        ∙ Trace.accepts-append next p q relayed closing h
        ∙ k;
    post = post step;
  }
  after_step-Follows p q r relayed closing (err e) w h k post = record {
    reached = q;
    in_order = ap (accepts p) (append-nil relayed) ∙ h;
    post = tt;
  }

  pub model_step-Follows :
      (l : Loop W) (n : ℕ) (id : Text) (q : StepRequest) (w : W)
      → Follows {A = StepResult} (message n) (Spoken n) (model_step l n id q w)
  unfolding model_step
  model_step-Follows l n id q w =
      let (w', events, v) = l.session.step w q in
      let r = (relay n id (id ++ codes ":reasoning") no_reasoning events).1 in
      after_step-Follows (message n) (in_message n r) (in_message n r) _ _ v w'
        (relay-order n id _ no_reasoning events) (close-order n _ r) (λ s. in_message-Spoken n r)

  run_call-Follows :
      (l : Loop W) (n : ℕ) (call : ToolCall) (w : W)
      → Follows {A = ToolResult} (working n) (λ a q. q ≡ working n) (run_call l n call w)
  unfolding run_call
  run_call-Follows l n call w = record { reached = working n; in_order = ground arith; post = refl }

  run_calls-Follows :
      (l : Loop W) (n : ℕ) (calls : List ToolCall) (w : W)
      → Follows {A = List ToolResult} (working n) (λ a q. q ≡ working n) (run_calls l n calls w)
  unfolding run_calls
  run_calls-Follows l n [] w = record { reached = working n; in_order = refl; post = refl }
  run_calls-Follows l n (call ∷ calls) w =
      Trace.Follows-bind next (run_call l n call w)
        (λ r. run_calls l n calls >>= λ rs. pure (r ∷ rs)) (run_call-Follows l n call w)
        λ r w' q e.
          Trace.Follows-bind next (run_calls l n calls w') (λ rs. pure (r ∷ rs))
            (rw e (run_calls-Follows l n calls w'))
            λ rs w'' q' e'. record { reached = q'; in_order = refl; post = e' }

  finish_turn-Follows :
      (n : ℕ) (u : Usage) (s : StepResult) (rs : List ToolResult) (ms : List Text) (w : W)
      → Follows (working n) (Ends n) (finish_turn n u s rs ms w)
  unfolding finish_turn
  finish_turn-Follows n u s rs ms w = elim (Bool-cases (is_nil s.tool_calls && is_nil ms)) [
    | inl e ↦ rw e (record { reached = finished n; in_order = ground arith; post = refl })
    | inr e ↦ rw e (record { reached = closed n; in_order = ground arith; post = refl })
  ]

  steer_turn-Follows :
      (l : Loop W) (n : ℕ) (u : Usage) (s : StepResult) (rs : List ToolResult) (w : W)
      → Follows (working n) (Ends n) (steer_turn l n u s rs w)
  unfolding steer_turn
  steer_turn-Follows l n u s rs w =
      Trace.Follows-bind next (take_steering l w) (finish_turn n u s rs)
        (Trace.Stays-Follows next (working n) _ (take_steering-Stays l w))
        λ ms w' q e. rw e (finish_turn-Follows n u s rs ms w')

  work_turn-Follows :
      (l : Loop W) (n : ℕ) (id : Text) (i : TurnInput) (s : StepResult) (q : Phase) (w : W)
      → Spoken n s q
      → Follows q (Ends n) (work_turn l n id i s w)
  unfolding work_turn
  work_turn-Follows l n id i s q w h =
      let u = aggregate_usage i.usage s.usage in
      Trace.Follows-resume next (working n) (message_end n id s.text s.usage ∷ [])
        (message_end-order n id s.text s.usage s q h)
        (Trace.Follows-bind next (run_calls l n s.tool_calls w) (steer_turn l n u s)
          (run_calls-Follows l n s.tool_calls w)
          λ rs w' q' e. rw e (steer_turn-Follows l n u s rs w'))

  answer_turn-Follows :
      (l : Loop W) (n : ℕ) (id : Text) (i : TurnInput) (s : StepResult) (q : Phase) (w : W)
      → Spoken n s q
      → Follows q (Ends n) (answer_turn l n id i s w)
  unfolding answer_turn
  answer_turn-Follows l n id i s q w h =
      let hooks = l.hooks.after_model in
      Trace.Follows-bind next (after_model hooks s w) (work_turn l n id i)
        (Trace.Stays-Follows next q _ (after_model-Stays hooks s w))
        λ s' w' q' e. rw e (work_turn-Follows l n id i s' q w' h)

  open_turn-Follows :
      (l : Loop W) (p : Phase) (n : ℕ) (id : Text) (i : TurnInput) (w : W)
      → accepts p (turn_start n ∷ []) ≡ some (opened n)
      → Follows p (Ends n) (open_turn l n id i w)
  unfolding open_turn
  open_turn-Follows l p n id i w h = Trace.Follows-resume next (opened n) (turn_start n ∷ []) h (
      Trace.Follows-resume next (message n) (message_start n id ∷ []) (ground arith) (
        Trace.Follows-bind next (model_step l n id (request_of l i) w) (answer_turn l n id i)
          (model_step-Follows l n id (request_of l i) w)
          λ s w' q e. answer_turn-Follows l n id i s q w' e))

  pub turn-Follows :
      (l : Loop W) (run_id : Text) (p : Phase) (n : ℕ) (i : TurnInput) (w : W)
      → accepts p (turn_start n ∷ []) ≡ some (opened n)
      → Follows p (Ends n) (turn l run_id n i w)
  unfolding turn
  turn-Follows l run_id p n i w h =
      let id = run_id ++ codes ":step-" ++ decimal n in
      Trace.Follows-bind next (check_context l w) (λ _. open_turn l n id i)
        (Trace.Stays-Follows next p _ (check_context-Stays l w))
        λ _ w' q e. rw e (open_turn-Follows l p n id i w' h)
