-- ===== src/Loop/Outcome.antt =====
-- agentloop/loop.go: what a part of a run leaves behind, the world after it, the events that it emitted, oldest first,
-- and its value or the error that stopped it.
use dire_agent.Prelude.{List, [], ◌∷◌, ◌++◌}
use dire_agent.Prelude.Text.{Text}
use dire_agent.Prelude.Results.{Result, ok, err}
use dire_agent.Loop.Event.{Event}

-- The errors of a run, by their origin; the text is the wrapped error's.
pub data Failure : Type 0 where
  empty_prompt : Failure
  context_failed : Text → Failure
  step_failed : Text → Failure
  before_prompt_hook : Text → Failure
  after_model_hook : Text → Failure
  exceeded_steps : Failure

pub record Outcome (W A : Type 0) : Type 0 where
  pub world : W
  pub log : List Event
  pub value : Result Failure A

-- An operation of the loop reads and changes the world.
abbrev pub M : Type 0 → Type 0 → Type 0
M W A = W → Outcome W A

module _ {W : Type 0} where
  abbrev pub pure : {A : Type 0} → A → M W A
  pure a w = record { world = w; log = []; value = ok a }

  -- `return agent.Result{}, err`.
  abbrev pub throw : {A : Type 0} → Failure → M W A
  throw e w = record { world = w; log = []; value = err e }

  abbrev pub emit : Event → M W (Unit {0})
  emit e w = record { world = w; log = e ∷ []; value = ok tt }

  abbrev pub emit_all : List Event → M W (Unit {0})
  emit_all es w = record { world = w; log = es; value = ok tt }

  -- The rest of a run behind a part that emitted `log`.
  abbrev pub resume : {B : Type 0} → List Event → Outcome W B → Outcome W B
  resume log o = record o { log = log ++ o.log }

  abbrev pub continue :
      {A B : Type 0} → W → List Event → Result Failure A → (A → M W B) → Outcome W B
  continue w log (ok a) f = resume log (f a w)
  continue w log (err e) f = record { world = w; log = log; value = err e }

  infixl 5 ◌>>=◌ ◌>>◌
  abbrev pub ◌>>=◌ : {A B : Type 0} → M W A → (A → M W B) → M W B
  ◌>>=◌ m f w = continue (m w).world (m w).log (m w).value f

  abbrev pub ◌>>◌ : {B : Type 0} → M W (Unit {0}) → M W B → M W B
  m >> k = m >>= λ _. k
