-- ===== src/Lifecycle/Supervisor.antt =====
-- internal/lifecycle/supervisor.go: `Start`, `Stop`, `Status` and `IsRunning`. A flag that is returned
-- beside an error stands in a pair with it.
use dire_agent.Prelude.{ℕ, zero, suc, Bool, true, false, ◌&&◌, ◌||◌, not, [], ◌++◌}
use dire_agent.Prelude.Text.{Text, codes, text_eq, is_empty}
use dire_agent.Prelude.Int.{ℤ, pos}
use dire_agent.Prelude.Results.{Result, ok, err, fail_if}
use dire_agent.Prelude.Results
use dire_agent.Prelude.Exec.{Exec, pure, throw, lift, ◌>>=◌, ◌>>◌}
use dire_agent.Lifecycle.Runtime.{
  Net, RuntimeState, Health, LifecycleError, not_exist, invalid_supervisor, identity_unverified,
  refused, replaced_during_startup, exited_during_startup, deadline, int_eq, validate_loopback_url,
  match_identity,
}
use dire_agent.Lifecycle.Session.{
  Env, launched, Session, Method, log, ask, check, attempt, unless, read_state_file, check_alive,
  fetch_health, remove_state_file,
}

-- The supervisor, less its environment; a timeout is told by whether it is positive.
pub record Supervisor : Type 0 where
  pub home : Text
  pub executable : Text
  pub address : Text
  pub base_dir : Text
  pub run_dir : Text
  pub log_dir : Text
  pub lock_file : Text
  pub log_file : Text
  pub timeouts_positive : Bool
  -- The poll intervals in its StartTimeout and in its StopTimeout.
  pub start_polls : ℕ
  pub stop_polls : ℕ

pub record Status : Type 0 where
  pub running : Bool
  pub managed : Bool
  pub pid : ℤ
  pub version : Text
  pub http_url : Text
  pub log_file : Text
  pub instance_id : Text
  pub healthy : Bool
  pub stale : Bool

-- The zero value, with the log file.
abbrev pub no_status : Text → Status
no_status log_file = record {
  running = false;
  managed = false;
  pid = pos 0;
  version = [];
  http_url = [];
  log_file = log_file;
  instance_id = [];
  healthy = false;
  stale = false;
}

-- A method that returns a flag beside its error.
abbrev pub Flagged : Type 0 → Type 0 → Type 0
Flagged W A = Exec (Session W) (Bool × LifecycleError) A

abbrev pub flagged {ℓ} :
    {A : Type ℓ} → Bool → Result LifecycleError A → Result (Bool × LifecycleError) A
flagged flag (err e) = err (flag, e)
flagged flag (ok a) = ok a

abbrev pub with_flag : {W A : Type 0} → Bool → Method W A → Flagged W A
with_flag flag m s = let r = m s in (flagged flag r.0, r.1)

unfoldable pub default_http_url : Supervisor → Text
default_http_url sup = codes "http://" ++ sup.address

module _ {W : Type 0} (net : Net) (env : Env W) (sup : Supervisor) where
  unfoldable pub validate_supervisor : Result LifecycleError (Unit {0})
  unfolding default_http_url validate_loopback_url
  validate_supervisor =
      Results.◌>>◌
        (fail_if (is_empty sup.home || not (net.is_abs sup.home)) (invalid_supervisor sup.home))
        (Results.◌>>◌
          (fail_if (is_empty sup.executable || not (net.is_abs sup.executable))
            (invalid_supervisor sup.executable))
          (Results.◌>>◌ (validate_loopback_url net (default_http_url sup))
            (fail_if (not sup.timeouts_positive) (invalid_supervisor []))))

  -- What `Start` and `Stop` begin with: the directories and the lock.
  unfoldable pub enter : Method W (Unit {0})
  unfolding validate_supervisor
  enter = do
    lift validate_supervisor
    check (env.private_directory sup.base_dir)
    check (env.private_directory sup.run_dir)
    check (env.private_directory sup.log_dir)
    check (env.acquire_lock sup.lock_file)

  -- The state that a new daemon must have written.
  unfoldable pub same_daemon : Text → ℤ → Text → RuntimeState → Bool
  unfolding text_eq int_eq
  same_daemon id pid token state =
      text_eq state.instance_id id && int_eq state.pid pid && text_eq state.control_token token

  unfoldable pub is_match : RuntimeState → Result LifecycleError Health → Bool
  unfolding match_identity
  is_match state (err e) = false
  is_match state (ok health) = elim (match_identity state health) [ err e ↦ false | ok u ↦ true ]

  -- The state that stands in the runtime file, and whether it is the new daemon's.
  unfoldable pub look_state : RuntimeState → Bool → Method W Bool
  unfolding fetch_health is_match
  look_state state false = throw replaced_during_startup
  look_state state true = do
    health ← attempt (fetch_health net env state.http_url)
    pure (is_match state health)

  -- One look at the runtime file in the loop of `Start`: whether the daemon is up.
  unfoldable pub look : Text → ℤ → Text → Result LifecycleError RuntimeState → Method W Bool
  unfolding same_daemon look_state
  look id pid token (err not_exist) = pure false
  look id pid token (err e) = throw e
  look id pid token (ok state) = look_state state (same_daemon id pid token state)

  unfoldable pub still_starting : ℤ → Bool → Method W Bool
  unfolding check_alive
  still_starting pid true = pure true
  still_starting pid false = do
    alive ← check_alive net env pid
    lift (fail_if (not alive) exited_during_startup)
    pure false

  -- A round of the loop of `Start`, up to its select: whether it is the last.
  unfoldable pub startup_round : Text → ℤ → Text → Method W Bool
  unfolding look read_state_file still_starting
  startup_round id pid token = do
    state ← attempt (read_state_file net env)
    up ← look id pid token state
    still_starting pid up

  -- The loop; the timeout ends it after `polls` waits at the latest.
  unfoldable pub await_startup : ℕ → Text → ℤ → Text → Method W (Unit {0})
  unfolding startup_round unless
  await_startup zero id pid token = do
    up ← startup_round id pid token
    unless up (throw (deadline sup.log_file))
  await_startup (suc polls) id pid token = do
    up ← startup_round id pid token
    unless up (do check env.wait; await_startup polls id pid token)

  -- `Start` once no daemon is known to run.
  unfoldable pub launch_daemon : Flagged W Bool
  unfolding await_startup
  launch_daemon = do
    with_flag false (check env.context_error)
    id ← with_flag false (ask env.new_instance_id)
    token ← with_flag false (ask env.new_token)
    pid ← with_flag false (ask (env.launch id token))
    with_flag false (log (launched id token pid))
    with_flag true (await_startup sup.start_polls id pid token)
    pure true

  -- A healthy daemon without state is left alone.
  unfoldable pub start_unmanaged : Result LifecycleError Health → Flagged W Bool
  unfolding launch_daemon
  start_unmanaged (err e) = launch_daemon
  start_unmanaged (ok health) = pure false

  unfoldable pub start_fresh : Flagged W Bool
  unfolding start_unmanaged fetch_health default_http_url
  start_fresh = do
    health ← with_flag false (attempt (fetch_health net env (default_http_url sup)))
    start_unmanaged health

  unfoldable pub verified :
      RuntimeState → Result LifecycleError Health → Result LifecycleError (Unit {0})
  unfolding match_identity
  verified state (err e) = err (identity_unverified state.pid e)
  verified state (ok health) = elim (match_identity state health) [
    | err e ↦ err (refused state.pid e)
    | ok u ↦ ok tt
  ]

  unfoldable pub start_alive : RuntimeState → Bool → Flagged W Bool
  unfolding start_fresh fetch_health remove_state_file verified
  start_alive state false = do
    with_flag false (remove_state_file net env state.instance_id)
    start_fresh
  start_alive state true = do
    health ← with_flag false (attempt (fetch_health net env state.http_url))
    with_flag false (lift (verified state health))
    pure false

  unfoldable pub start_seen : Result LifecycleError RuntimeState → Flagged W Bool
  unfolding start_alive start_fresh check_alive
  start_seen (ok state) = do
    alive ← with_flag false (check_alive net env state.pid)
    start_alive state alive
  start_seen (err not_exist) = start_fresh
  start_seen (err e) = throw (false, e)

  unfoldable pub start : Flagged W Bool
  unfolding enter read_state_file start_seen
  start = do
    with_flag false enter
    state ← with_flag false (attempt (read_state_file net env))
    start_seen state
