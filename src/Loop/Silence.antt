-- ===== src/Loop/Silence.antt =====
-- agentloop/loop.go: the parts of a run that emit no events of their own.
use dire_agent.Prelude.{◌≡◌, refl, Bool-cases, Option, List, [], ◌∷◌, inl, inr, arith}
use dire_agent.Prelude.Text.{Text, is_blank}
use dire_agent.Prelude.Results.{Result, ok, err}
use dire_agent.Agent.{StepResult}
use dire_agent.Loop.Event.{Event}
use dire_agent.Loop.Outcome.{Failure, M, continue}
use dire_agent.Loop.Config.{Loop}
use dire_agent.Loop.Run.{
  before_prompt, before_prompts, after_model, check_context, take_steering, prepare_prompt,
}
use dire_agent.Loop.Trace.{Stays}

module _ {W : Type 0} where
  Stays-continue :
      {A B : Type 0} (w : W) (log : List Event) (v : Result Failure A) (f : A → M W B)
      → log ≡ []
      → ((a : A) (w' : W) → Stays (f a w'))
      → Stays (continue w log v f)
  Stays-continue w log (ok a) f h rest = rw (h, rest a w)
  Stays-continue w log (err e) f h rest = h

  pub before_prompt-Stays :
      (hooks : List (W → Text → W × Result Text Text)) (t : Text) (w : W)
      → Stays (before_prompt hooks t w)
  unfolding before_prompt
  before_prompt-Stays [] t w = refl
  before_prompt-Stays (hook ∷ hooks) t w = grind (arith, before_prompt-Stays hooks)

  pub before_prompts-Stays :
      (hooks : List (W → Text → W × Result Text Text)) (ts : List Text) (w : W)
      → Stays (before_prompts hooks ts w)
  unfolding before_prompts
  before_prompts-Stays hooks [] w = refl
  before_prompts-Stays hooks (t ∷ ts) w =
      Stays-continue _ _ _ _ (before_prompt-Stays hooks t w)
        λ t' w'. Stays-continue _ _ _ _ (before_prompts-Stays hooks ts w') λ ts' w''. refl

  pub after_model-Stays :
      (hooks : List (W → StepResult → W × StepResult × Option Text)) (s : StepResult) (w : W)
      → Stays (after_model hooks s w)
  unfolding after_model
  after_model-Stays [] s w = refl
  after_model-Stays (hook ∷ hooks) s w = grind (arith, after_model-Stays hooks)

  pub check_context-Stays : (l : Loop W) (w : W) → Stays (check_context l w)
  unfolding check_context
  check_context-Stays l w = ground arith

  pub take_steering-Stays : (l : Loop W) (w : W) → Stays (take_steering l w)
  unfolding take_steering
  take_steering-Stays l w = grind (arith, before_prompts-Stays l.hooks.before_prompt)

  pub prepare_prompt-Stays : (l : Loop W) (t : Text) (w : W) → Stays (prepare_prompt l t w)
  unfolding prepare_prompt
  prepare_prompt-Stays l t w = elim (Bool-cases (is_blank t)) [
    | inl e ↦ rw e
    | inr e ↦ rw e (before_prompt-Stays l.hooks.before_prompt t w)
  ]
