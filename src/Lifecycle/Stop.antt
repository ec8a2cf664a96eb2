-- ===== src/Lifecycle/Stop.antt =====
-- internal/lifecycle/supervisor.go: `Stop`, `Status` and `IsRunning`.
use dire_agent.Prelude.{ℕ, zero, suc, Bool, true, false, ◌||◌, leb, ltb}
use dire_agent.Prelude.Text.{codes}
use dire_agent.Prelude.Results.{Result, ok, err, fail_if}
use dire_agent.Prelude.Exec.{pure, throw, lift, ◌>>=◌, ◌>>◌}
use dire_agent.Lifecycle.Runtime.{
  Net, RuntimeState, Health, LifecycleError, not_exist, unsupervised, rejected, deadline,
  endpoint_url,
}
use dire_agent.Lifecycle.Session.{
  Env, asked_shutdown, Method, or_failed, log, ask, check, attempt, unless, read_state_file,
  check_alive, fetch_health, remove_state_file,
}
use dire_agent.Lifecycle.Supervisor.{
  Supervisor, Status, no_status, Flagged, with_flag, default_http_url, validate_supervisor, enter,
  is_match, verified,
}

module _ {W : Type 0} (net : Net) (env : Env W) (sup : Supervisor) where
  -- The authenticated request.
  unfoldable pub request_shutdown : RuntimeState → Flagged W (Unit {0})
  unfolding endpoint_url
  request_shutdown state = do
    url ← with_flag false (lift (endpoint_url net state.http_url (codes "/control/shutdown")))
    with_flag false (log (asked_shutdown url state.control_token))
    answer ← with_flag false (ask (env.post url state.control_token))
    with_flag false (lift (fail_if (ltb answer.0 200 || leb 300 answer.0) (rejected answer.0)))
    with_flag true (lift (or_failed answer.1))

  -- An error of removing a file that is not there does not count.
  unfoldable pub ignore_missing : Result LifecycleError Bool → Result LifecycleError (Unit {0})
  ignore_missing (ok removed) = ok tt
  ignore_missing (err not_exist) = ok tt
  ignore_missing (err e) = err e

  unfoldable pub exit_found : RuntimeState → Bool → Method W Bool
  unfolding remove_state_file ignore_missing
  exit_found state true = pure false
  exit_found state false = do
    removed ← attempt (remove_state_file net env state.instance_id)
    lift (ignore_missing removed)
    pure true

  -- A round of the last loop of `Stop`: whether the daemon has ended.
  unfoldable pub exit_round : RuntimeState → Method W Bool
  unfolding check_alive exit_found
  exit_round state = do alive ← check_alive net env state.pid; exit_found state alive

  unfoldable pub await_exit : ℕ → RuntimeState → Method W (Unit {0})
  unfolding exit_round unless
  await_exit zero state = do ended ← exit_round state; unless ended (throw (deadline sup.log_file))
  await_exit (suc polls) state = do
    ended ← exit_round state
    unless ended (do check env.wait; await_exit polls state)

  -- `Stop` once the daemon has answered, or not.
  unfoldable pub shut_down : RuntimeState → Result LifecycleError Health → Flagged W Bool
  unfolding verified request_shutdown await_exit
  shut_down state health = do
    with_flag false (lift (verified net env sup state health))
    request_shutdown state
    with_flag true (await_exit sup.stop_polls state)
    pure true

  unfoldable pub stop_alive : RuntimeState → Bool → Flagged W Bool
  unfolding fetch_health shut_down remove_state_file
  stop_alive state false = do
    with_flag false (remove_state_file net env state.instance_id)
    pure false
  stop_alive state true = do
    health ← with_flag false (attempt (fetch_health net env state.http_url))
    shut_down state health

  unfoldable pub stop_unmanaged : Result LifecycleError Health → Flagged W Bool
  stop_unmanaged (ok health) = throw (false, unsupervised health.pid)
  stop_unmanaged (err e) = do with_flag false (check env.context_error); pure false

  unfoldable pub stop_seen : Result LifecycleError RuntimeState → Flagged W Bool
  unfolding stop_alive stop_unmanaged check_alive fetch_health default_http_url
  stop_seen (ok state) = do
    alive ← with_flag false (check_alive net env state.pid)
    stop_alive state alive
  stop_seen (err not_exist) = do
    health ← with_flag false (attempt (fetch_health net env (default_http_url sup)))
    stop_unmanaged health
  stop_seen (err e) = throw (false, e)

  unfoldable pub stop : Flagged W Bool
  unfolding enter read_state_file stop_seen
  stop = do
    with_flag false (enter net env sup)
    state ← with_flag false (attempt (read_state_file net env))
    stop_seen state

  -- A daemon that answers at the default address.
  unfoldable pub unmanaged_status : Result LifecycleError Health → Status
  unfolding default_http_url
  unmanaged_status (err e) = no_status sup.log_file
  unmanaged_status (ok health) = record (no_status sup.log_file) {
    running = true;
    healthy = true;
    pid = health.pid;
    version = health.version;
    http_url = default_http_url sup;
    instance_id = health.instance_id;
  }

  unfoldable pub managed_status : RuntimeState → Status
  managed_status state = record (no_status sup.log_file) {
    managed = true;
    pid = state.pid;
    version = state.version;
    http_url = state.http_url;
    instance_id = state.instance_id;
  }

  unfoldable pub status_alive : RuntimeState → Bool → Method W Status
  unfolding managed_status fetch_health is_match
  status_alive state false = pure (record (managed_status state) { stale = true })
  status_alive state true = do
    health ← attempt (fetch_health net env state.http_url)
    let matches = is_match net env sup state health
    pure (record (managed_status state) { running = matches; healthy = matches })

  unfoldable pub status_seen : Result LifecycleError RuntimeState → Method W Status
  unfolding status_alive unmanaged_status check_alive fetch_health default_http_url
  status_seen (ok state) = do alive ← check_alive net env state.pid; status_alive state alive
  status_seen (err not_exist) = do
    health ← attempt (fetch_health net env (default_http_url sup))
    pure (unmanaged_status health)
  status_seen (err e) = throw e

  unfoldable pub status : Method W Status
  unfolding validate_supervisor read_state_file status_seen
  status = do
    lift (validate_supervisor net env sup)
    state ← attempt (read_state_file net env)
    status_seen state

  unfoldable pub is_running : Method W Bool
  unfolding status
  is_running = do found ← status; pure found.running
