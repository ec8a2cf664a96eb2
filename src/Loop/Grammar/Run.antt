-- ===== src/Loop/Grammar/Run.antt =====
-- agentloop/loop.go: the events of a whole run, from `RunWithImages` on.
use dire_agent.Prelude.{
  ℕ, zero, suc, ◌+◌, ◌≤◌, ◌≡◌, refl, List, [], ◌∷◌, some, Bool-cases, inl, inr, arith, ◌&&◌,
}
use dire_agent.Prelude.Text.{Text, is_blank}
use dire_agent.Prelude.Results.{ok, err}
use dire_agent.Agent.{ImageInput, AgentResult}
use dire_agent.Loop.Event.{agent_start, turn_start}
use dire_agent.Loop.Config.{Loop}
use dire_agent.Loop.Run.{
  TurnInput, turn, prepare_prompt, run_prepared, start_run, turns, run_with_images, is_nil,
}
use dire_agent.Loop.Grammar.{Phase, next, silent, started, opened, finished, accepts, Follows}
use dire_agent.Loop.Grammar.Turn.{turn-Follows}
use dire_agent.Loop.Trace
use dire_agent.Loop.Silence.{prepare_prompt-Stays}

-- A run that answers ends in a finished turn, one of the first `max` turns.
abbrev pub Answered : ℕ → AgentResult → Phase → Type 0
Answered max a q = (n : ℕ) × (q ≡ finished n) × (n ≤ max)

module _ {W : Type 0} where
  turns-Follows :
      (l : Loop W) (run_id : Text) (p : Phase) (left n : ℕ) (i : TurnInput) (w : W)
      → accepts p (turn_start n ∷ []) ≡ some (opened n)
      → (max : ℕ) → left + n ≤ max + 1
      → Follows p (Answered max) (turns l run_id left n i w)
  unfolding turns
  turns-Follows l run_id p zero n i w h max b = record { reached = p; in_order = refl; post = tt }
  turns-Follows l run_id p (suc left) n i w h max b =
      Trace.Follows-bind next (turn l run_id n i w) _ (turn-Follows l run_id p n i w h) (elim [
        | ok a ↦ λ w' q e. record { reached = q; in_order = refl; post = (n, e, omega arith) }
        | err t ↦ λ w' q e.
            turns-Follows l run_id q left (suc n) t w' (rw e (ground arith)) max (omega arith)
      ])

  start_run-Follows :
      (l : Loop W) (sequence : ℕ) (prompt : Text) (images : List ImageInput) (w : W)
      → Follows silent (Answered l.max_steps) (start_run l sequence prompt images w)
  unfolding start_run run_prepared
  start_run-Follows l sequence prompt images w =
      Trace.Follows-resume next started (agent_start ∷ []) refl (
        Trace.Follows-bind next (prepare_prompt l prompt w) (run_prepared l sequence images)
          (Trace.Stays-Follows next started _ (prepare_prompt-Stays l prompt w))
          λ t w' q e. turns-Follows l _ q l.max_steps 1 _ w' (rw e refl) l.max_steps (omega arith))

  -- The events of every run are in order, whether it answers or fails: at most one agent_start, before
  -- all others, then the turns 1, 2, … with their messages and tool executions. A run that answers has
  -- closed its last turn with agent_end, and took at most MaxSteps turns.
  pub run_with_images-Follows :
      (l : Loop W) (sequence : ℕ) (prompt : Text) (images : List ImageInput) (w : W)
      → Follows silent (Answered l.max_steps) (run_with_images l sequence prompt images w)
  unfolding run_with_images
  run_with_images-Follows l sequence prompt images w =
      elim (Bool-cases (is_blank prompt && is_nil images)) [
        | inl e ↦ rw e (record { reached = silent; in_order = refl; post = tt })
        | inr e ↦ rw e (start_run-Follows l sequence prompt images w)
      ]
