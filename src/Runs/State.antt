-- ===== src/Runs/State.antt =====
-- daemon/manager_runs.go: the part of `threadRuntime` that its mutex guards, and each of the
-- sections that hold the mutex.
use dire_agent.Prelude.{
  ℕ, Bool, true, false, ◌&&◌, ◌||◌, not, Option, none, some, List, [], ◌∷◌, ◌++◌, ◌==◌, length,
  if◌then◌else◌,
}
use dire_agent.Prelude.Text.{Text, codes, text_eq, is_blank, join}
use dire_agent.Team.Types.{Status, idle, running, interrupted, failed, completed}

-- `cancel` is the run whose context it cancels.
pub record Runtime : Type 0 where
  pub busy : Bool
  pub finishing : Bool
  pub cancel : Option ℕ
  pub steering : List Text
  pub follow_ups : List Text
  pub status : Status
  pub steering_mode : Text
  pub follow_up_mode : Text
  pub subagent : Bool

-- The other code that a prompt calls before it takes the lock or in it: each may return an error.
pub record Prompt : Type 0 where
  pub message : Text
  pub behavior : Text
  pub attachments : ℕ
  pub decode_error : Option Text
  pub runtime_error : Option Text
  pub persist_error : Option Text

pub data Refused : Type 0 where
  prompt_empty : Refused
  bad_attachment no_runtime not_persisted : Text → Refused
  settling images_while_running behavior_required : Refused
  not_steerable not_running : Refused

pub data Reply : Type 0 where
  started : Reply
  -- The lengths of the two queues, as in the queue_update event.
  queued : ℕ → ℕ → Reply
  refused : Refused → Reply

-- `takeQueue`: what is taken, and what is left.
take_one : Text → List Text → List Text × List Text
take_one mode [] = ([], [])
take_one mode (m ∷ ms) = if text_eq mode (codes "all") then (m ∷ ms, []) else (m ∷ [], ms)

unfoldable pub take_queue : List Text → Text → List Text × List Text
unfolding take_one
take_queue queue mode = take_one mode queue

-- The branch of a conversation that is running.
unfoldable pub enqueue : Runtime → Prompt → Runtime × Reply
enqueue r p =
    let steered : Runtime = record r { steering = r.steering ++ p.message ∷ [] } in
    let followed : Runtime = record r { follow_ups = r.follow_ups ++ p.message ∷ [] } in
    if not (p.attachments == 0)
    then (r, refused images_while_running)
    else if text_eq p.behavior (codes "steer")
    then (steered, queued (length steered.steering) (length steered.follow_ups))
    else if text_eq p.behavior (codes "followUp") || text_eq p.behavior (codes "follow_up")
    then (followed, queued (length followed.steering) (length followed.follow_ups))
    else (r, refused behavior_required)

-- The branch that starts the run `id`.
unfoldable pub launch : Runtime → Prompt → ℕ → Runtime × Reply
launch r p id = elim p.persist_error [
  | some e ↦ (r, refused (not_persisted e))
  | none ↦ (record r { busy = true; status = running; cancel = some id }, started)
]

locked_prompt : Runtime → Prompt → ℕ → Runtime × Reply
unfolding enqueue launch
locked_prompt r p id =
    if r.finishing then (r, refused settling) else if r.busy then enqueue r p else launch r p id

get_runtime : Option Text → Runtime → Prompt → ℕ → Runtime × Reply
unfolding locked_prompt
get_runtime (some e) r p id = (r, refused (no_runtime e))
get_runtime none r p id = locked_prompt r p id

decode_attachments : Option Text → Runtime → Prompt → ℕ → Runtime × Reply
unfolding get_runtime
decode_attachments (some e) r p id = (r, refused (bad_attachment e))
decode_attachments none r p id = get_runtime p.runtime_error r p id

-- `PromptWithAttachments`; a run that it starts is named `id`.
unfoldable pub prompt_with_attachments : Runtime → Prompt → ℕ → Runtime × Reply
unfolding decode_attachments
prompt_with_attachments r p id =
    if is_blank p.message && (p.attachments == 0)
    then (r, refused prompt_empty)
    else decode_attachments p.decode_error r p id

-- `Steer` looks at `running` under a lock of its own; here no other step comes between.
unfoldable pub steer : Runtime → Prompt → ℕ → Runtime × Reply
unfolding prompt_with_attachments
steer r p id =
    if not r.busy
    then (r, refused not_steerable)
    else prompt_with_attachments r
        (record p { behavior = codes "steer"; attachments = 0; decode_error = none }) id

unfoldable pub follow_up : Runtime → Prompt → ℕ → Runtime × Reply
unfolding prompt_with_attachments
follow_up r p id =
    let behavior = if not r.busy then [] else codes "followUp" in
    prompt_with_attachments r
      (record p { behavior = behavior; attachments = 0; decode_error = none }) id

-- `Abort`: the run whose context is cancelled.
unfoldable pub abort : Runtime → Option ℕ
abort r = r.cancel

-- `takeSteering`.
unfoldable pub take_steering : Runtime → Runtime × List Text
unfolding take_queue
take_steering r =
    let taken = take_queue r.steering r.steering_mode in (record r { steering = taken.1 }, taken.0)

abbrev settled : Runtime → Runtime
settled r = record r { busy = false; cancel = none; status = idle }

abbrev pub settle_if : List Text → Runtime → Runtime
settle_if [] r = settled r
settle_if (m ∷ ms) r = r

-- `takeFollowUpOrSettle`.
unfoldable pub take_follow_up_or_settle : Runtime → Runtime × Text
unfolding take_queue join
take_follow_up_or_settle r =
    let taken = take_queue r.follow_ups r.follow_up_mode in
    (settle_if taken.0 (record r { follow_ups = taken.1 }), join (codes "\n\n") taken.0)

unfoldable pub clear_queues : Runtime → Runtime
clear_queues r = record r { steering = []; follow_ups = [] }

-- How a run ended: its context was cancelled, another error, or none.
pub data Ending : Type 0 where
  cancelled errored finished : Ending

final_status : Bool → Ending → Status
final_status false e = idle
final_status true cancelled = interrupted
final_status true errored = failed
final_status true finished = completed

-- The section behind the loop of `run`.
unfoldable pub finish : Runtime → Ending → Runtime
unfolding final_status
finish r e = record r {
  finishing = true;
  busy = false;
  cancel = none;
  status = final_status r.subagent e;
}

-- The last section of `run`, behind agent_settled.
unfoldable pub release : Runtime → Runtime
release r = record r { finishing = false }
