-- ===== src/Runs/Steps.antt =====
-- The runs of one conversation and the requests of its clients, interleaved: each action is one
-- section under the conversation's mutex, in the goroutine of a request or of a run.
use dire_agent.Prelude.{Bool, ℕ, suc, Option, none, some, List, [], ◌∷◌, ◌==◌, if◌then◌else◌}
use dire_agent.Prelude.Text.{Text, is_empty}
use dire_agent.Runs.State.{
  Runtime, Prompt, Reply, started, queued, refused, Ending, finished, errored, cancelled,
  prompt_with_attachments, take_steering, take_follow_up_or_settle, clear_queues, finish, release,
}

-- Where `run` is: in its loop, behind it, or behind the section that sets `finishing`.
pub data Stage : Type 0 where
  looping : Stage
  leaving : Ending → Stage
  releasing : Stage

-- The runs that have not returned, and the name of the next one.
pub record System : Type 0 where
  pub runtime : Runtime
  pub live : List (ℕ × Stage)
  pub fresh : ℕ

pub data Action : Type 0 where
  prompts : Prompt → Action
  steers continues : ℕ → Action
  fails : ℕ → Ending → Action
  loses_state releases : ℕ → Action
  -- Whether the context was cancelled by then.
  finishes : ℕ → Bool → Action

unfoldable pub stage_of : ℕ → List (ℕ × Stage) → Option Stage
stage_of id [] = none
stage_of id ((j, s) ∷ live) = if j == id then some s else stage_of id live

unfoldable pub set_stage : ℕ → Stage → List (ℕ × Stage) → List (ℕ × Stage)
set_stage id s [] = []
set_stage id s ((j, t) ∷ live) = if j == id then (j, s) ∷ live else (j, t) ∷ set_stage id s live

unfoldable pub drop_run : ℕ → List (ℕ × Stage) → List (ℕ × Stage)
drop_run id [] = []
drop_run id ((j, t) ∷ live) = if j == id then live else (j, t) ∷ drop_run id live

unfoldable pub start_run : System → Runtime × Reply → System
start_run s (r, started) = record s {
  runtime = r;
  live = (s.fresh, looping) ∷ s.live;
  fresh = suc s.fresh;
}
start_run s (r, queued a b) = record s { runtime = r }
start_run s (r, refused e) = record s { runtime = r }

unfoldable pub continue_run : System → ℕ → Runtime × Text → System
unfolding set_stage
continue_run s id (r, text) = record s {
  runtime = r;
  live = set_stage id (if is_empty text then leaving finished else looping) s.live;
}

-- An action of a run that is not at its place does nothing.
unfoldable pub steer_run : System → Option Stage → System
steer_run s (some looping) = record s { runtime = (take_steering s.runtime).0 }
steer_run s _ = s

unfoldable pub next_round : System → ℕ → Option Stage → System
next_round s id (some looping) = continue_run s id (take_follow_up_or_settle s.runtime)
next_round s id _ = s

unfoldable pub fail_run : System → ℕ → Ending → Option Stage → System
fail_run s id e (some looping) = record s {
  runtime = clear_queues s.runtime;
  live = set_stage id (leaving e) s.live;
}
fail_run s id e _ = s

-- `saveState` failed: the loop is left, and the queues keep their texts.
unfoldable pub save_run : System → ℕ → Option Stage → System
save_run s id (some looping) = record s { live = set_stage id (leaving errored) s.live }
save_run s id _ = s

-- `errors.Is(ctx.Err(), context.Canceled)` counts before the error.
abbrev end_of : Bool → Ending → Ending
end_of aborted e = if aborted then cancelled else e

unfoldable pub finish_run : System → ℕ → Bool → Option Stage → System
finish_run s id aborted (some (leaving e)) = record s {
  runtime = finish s.runtime (end_of aborted e);
  live = set_stage id releasing s.live;
}
finish_run s id aborted _ = s

unfoldable pub release_run : System → ℕ → Option Stage → System
unfolding drop_run
release_run s id (some releasing) = record s {
  runtime = release s.runtime;
  live = drop_run id s.live;
}
release_run s id _ = s

unfoldable pub perform : System → Action → System
unfolding start_run continue_run steer_run next_round fail_run save_run finish_run release_run
    stage_of
perform s (prompts p) = start_run s (prompt_with_attachments s.runtime p s.fresh)
perform s (steers id) = steer_run s (stage_of id s.live)
perform s (continues id) = next_round s id (stage_of id s.live)
perform s (fails id e) = fail_run s id e (stage_of id s.live)
perform s (loses_state id) = save_run s id (stage_of id s.live)
perform s (finishes id aborted) = finish_run s id aborted (stage_of id s.live)
perform s (releases id) = release_run s id (stage_of id s.live)

unfoldable pub perform_all : System → List Action → System
unfolding perform
perform_all s [] = s
perform_all s (a ∷ rest) = perform_all (perform s a) rest
