-- ===== src/Runs/Sound.antt =====
-- daemon/manager_runs.go: what each action does to the queues and the cancel function.
use dire_agent.Prelude.{Bool, ℕ, Option, none, some, arith}
use dire_agent.Runs.State.{Runtime, Reply, started, queued, refused}
use dire_agent.Runs.Queue.{
  IsSound, prompt_with_attachments-IsSound, take_steering-IsSound, take_follow_up_or_settle-IsSound,
  clear_queues-IsSound, finish-IsSound, release-IsSound,
}
use dire_agent.Runs.Steps.{
  Stage, looping, leaving, releasing, System, Action, prompts, steers, continues, fails,
  loses_state, finishes, releases, stage_of, perform, start_run, finish_run,
}

start_run-IsSound :
    (s : System) (r : Runtime) (a : Reply) → IsSound r → IsSound (start_run s (r, a)).runtime
unfolding start_run
start_run-IsSound s r started h = h
start_run-IsSound s r (queued a b) h = h
start_run-IsSound s r (refused e) h = h

finish_run-IsSound :
    (s : System) (id : ℕ) (aborted : Bool) (o : Option Stage)
    → IsSound s.runtime
    → IsSound (finish_run s id aborted o).runtime
unfolding finish_run
finish_run-IsSound s id aborted none h = h
finish_run-IsSound s id aborted (some looping) h = h
finish_run-IsSound s id aborted (some (leaving e)) h = finish-IsSound s.runtime _ h
finish_run-IsSound s id aborted (some releasing) h = h

-- Every action keeps a conversation sound: only texts that are not blank are queued, and there is a
-- run to cancel exactly while it is busy.
pub perform-IsSound : (s : System) (a : Action) → IsSound s.runtime → IsSound (perform s a).runtime
unfolding perform
perform-IsSound s (prompts p) h =
    start_run-IsSound s _ _ (prompt_with_attachments-IsSound s.runtime p s.fresh h)
perform-IsSound s (steers id) h = ground (arith, take_steering-IsSound s.runtime h)
perform-IsSound s (continues id) h = ground (arith, take_follow_up_or_settle-IsSound s.runtime h)
perform-IsSound s (fails id e) h = ground (arith, clear_queues-IsSound s.runtime h)
perform-IsSound s (loses_state id) h = ground arith
perform-IsSound s (finishes id aborted) h = finish_run-IsSound s id aborted (stage_of id s.live) h
perform-IsSound s (releases id) h = ground (arith, release-IsSound s.runtime h)
