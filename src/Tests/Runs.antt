-- ===== src/Tests/Runs.antt =====
-- A conversation with one run, and the messages of two clients.
use dire_agent.Prelude.{◌≡◌, refl, true, false, none, some, List, [], ◌∷◌, ◌++◌, arith}
use dire_agent.Prelude.Text.{Text, codes, is_blank, text_eq}
use dire_agent.Team.Types.{running}
use dire_agent.Runs.State.{
  Runtime, Prompt, prompt_with_attachments, take_queue, take_follow_up_or_settle, abort,
}
use dire_agent.Runs.Queue.{IsSound, Settles, take_queue-append, take_follow_up_or_settle-Settles}
use dire_agent.Runs.Steps.{
  looping, System, Action, prompts, continues, finishes, releases, stage_of, perform, perform_all,
}
use dire_agent.Runs.Sound.{perform-IsSound}
use dire_agent.Runs.Alone.{Alone, Calm, perform_all-Alone}
use dire_agent.Runs.Race.{Startable, settle_race-uncancellable}

abbrev busy_runtime : List Text → Runtime
busy_runtime queue = record {
  busy = true;
  finishing = false;
  cancel = some 0;
  steering = [];
  follow_ups = queue;
  status = running;
  steering_mode = codes "one-at-a-time";
  follow_up_mode = codes "all";
  subagent = false;
}

abbrev with_run : List Text → System
with_run queue = record { runtime = busy_runtime queue; live = (0, looping) ∷ []; fresh = 1 }

abbrev ask : Prompt
ask = record {
  message = codes "next";
  behavior = codes "followUp";
  attachments = 0;
  decode_error = none;
  runtime_error = none;
  persist_error = none;
}

busy_runtime-IsSound : IsSound (busy_runtime (codes "one" ∷ codes "two" ∷ []))
unfolding is_blank
busy_runtime-IsSound = record {
  steering_text = tt;
  follow_text = (refl, (refl, tt));
  cancellable = ((λ e. absurd (cc)), (λ e. absurd (cc)));
}

take_queue-append_example :
    (take_queue (codes "one" ∷ codes "two" ∷ []) (codes "one-at-a-time")).0
      ++ (take_queue (codes "one" ∷ codes "two" ∷ []) (codes "one-at-a-time")).1
    ≡ codes "one" ∷ codes "two" ∷ []
take_queue-append_example =
    take_queue-append (codes "one" ∷ codes "two" ∷ []) (codes "one-at-a-time")

take_follow_up_or_settle-Settles_example :
    Settles
      (codes "one" ∷ codes "two" ∷ [])
      (busy_runtime (codes "one" ∷ codes "two" ∷ []))
      (take_follow_up_or_settle (busy_runtime (codes "one" ∷ codes "two" ∷ [])))
take_follow_up_or_settle-Settles_example =
    take_follow_up_or_settle-Settles (busy_runtime (codes "one" ∷ codes "two" ∷ []))
      busy_runtime-IsSound

perform-IsSound_example :
    IsSound (perform (with_run (codes "one" ∷ codes "two" ∷ [])) (prompts ask)).runtime
perform-IsSound_example =
    perform-IsSound (with_run (codes "one" ∷ codes "two" ∷ [])) (prompts ask) busy_runtime-IsSound

-- A follow-up, its round, the end of the run and a new run.
abbrev day : List Action
day = prompts ask ∷ continues 0 ∷ continues 0 ∷ finishes 0 false ∷ releases 0 ∷ prompts ask ∷ []

day-Calm : Calm (with_run []) day
unfolding perform prompt_with_attachments is_blank text_eq take_follow_up_or_settle
day-Calm = (tt, (tt, (tt, (tt, (tt, (tt, tt))))))

perform_all-Alone_example :
    Alone (perform_all (with_run []) day).runtime (perform_all (with_run []) day).live
perform_all-Alone_example = perform_all-Alone (with_run []) day day-Calm (refl, refl, refl)

ask-Startable : Startable ask
unfolding is_blank
ask-Startable = record { text = refl; decoded = refl; opened = refl; persisted = refl }

settle_race-uncancellable_example :
    let t = perform_all (with_run []) (continues 0 ∷ prompts ask ∷ finishes 0 false ∷ []) in
    (stage_of 1 t.live ≡ some looping) × (t.runtime.busy ≡ false) × (abort t.runtime ≡ none)
settle_race-uncancellable_example =
    settle_race-uncancellable (with_run []) 0 ask false
      (record { alone = refl; open_to_prompts = refl; drained = refl; older = (omega arith) })
      ask-Startable
