-- ===== src/Lifecycle/Shutdown.antt =====
-- internal/lifecycle/supervisor.go: what `Stop` has made sure of before it asks a daemon to shut down.
use dire_agent.Prelude.{◌≡◌, refl, Bool, true, false, arith, List, [], ◌∷◌}
use dire_agent.Prelude.Text.{Text}
use dire_agent.Prelude.Results.{Result, ok, err}
use dire_agent.Prelude.Exec.{lift, Leaves-ok, Leaves-err, Leaves-result, Leaves-after}
use dire_agent.Lifecycle.Runtime.{
  Net, RuntimeState, Health, LifecycleError, not_exist, match_identity,
}
use dire_agent.Lifecycle.Session.{
  Env, Event, read_state, found_alive, asked_shutdown, Session, check, attempt, read_state_file,
  check_alive, fetch_health, remove_state_file,
}
use dire_agent.Lifecycle.Supervisor.{Supervisor, with_flag, default_http_url, enter, verified}
use dire_agent.Lifecycle.Stop.{await_exit, shut_down, stop_alive, stop_unmanaged, stop_seen, stop}
use dire_agent.Lifecycle.Trace.{
  Has, Logs, Logs-flag, Logs-attempt, check-Silent, remove_state_file-Silent,
  read_state_file-LogsOne, check_alive-LogsOne, fetch_health-LogsOne, enter-Silent, ReadFrom,
  Fetched,
}
use dire_agent.Lifecycle.Exit.{Sound, before_request, request_shutdown-Asked, await_exit-Asked}

-- A daemon was asked, and its process has ended since; or none was asked.
abbrev pub Answered : Bool → List Event → Type 0
Answered true t =
    (state : RuntimeState) × (url : Text) × Has (asked_shutdown url state.control_token) t
    × Has (found_alive state.pid false) t
Answered false t = (url token : Text) → Has (asked_shutdown url token) t → ⊥

module _ {W : Type 0} (net : Net) (env : Env W) (sup : Supervisor) where
  verified-ok :
      (state : RuntimeState) (health : Health) (u : Unit {0})
      → verified net env sup state (ok health) ≡ ok u
      → match_identity state health ≡ ok tt
  unfolding verified
  verified-ok state health u h = ground arith

  shut_down-Sound :
      (state : RuntimeState) (r : Result LifecycleError Health) (s : Session W)
      → Fetched state.http_url (found_alive state.pid true ∷ read_state state ∷ []) r s.trace
      → Logs
          (λ u. Sound net u.trace)
          (λ b u. Sound net u.trace × Answered b u.trace)
          (shut_down net env sup state r s)
  unfolding shut_down
  shut_down-Sound state (err e) s at = Leaves-err _ s (rw at tt)
  shut_down-Sound state (ok health) s (at, _) =
      let same : Logs (λ (u : Session W). Sound net u.trace)
          (λ _ u. (u.trace ≡ before_request state health) × (match_identity state health ≡ ok tt))
          (with_flag false (lift (verified net env sup state (ok health))) s) =
        Logs-flag false (lift (verified net env sup state (ok health))) s (
          Leaves-result (verified net env sup state (ok health)) s (λ e _. rw at tt)
            (λ u passed. (at, verified-ok state health u passed))) in
      Leaves-after _ _ same (λ e u sound. sound)
        (λ _ u (at, match).
          Leaves-after _ _ (request_shutdown-Asked net env sup state health u at match)
            (λ e v sound. sound)
            (λ _ v asked.
              Leaves-after _ _
                (Logs-flag true (await_exit net env sup sup.stop_polls state) v
                  (await_exit-Asked net env sup sup.stop_polls state v asked))
                (λ e w asked. asked.0)
                (λ _ w ((sound, url, asked), dead).
                  Leaves-ok true w (sound, (state, url, asked, dead)))))

  stop_alive-Sound :
      (state : RuntimeState) (alive : Bool) (s : Session W)
      → s.trace ≡ found_alive state.pid alive ∷ read_state state ∷ []
      → Logs
          (λ u. Sound net u.trace)
          (λ b u. Sound net u.trace × Answered b u.trace)
          (stop_alive net env sup state alive s)
  unfolding stop_alive
  stop_alive-Sound state false s at =
      Leaves-after _ _
        (Logs-flag false (remove_state_file net env state.instance_id) s
          (remove_state_file-Silent net env _ state.instance_id s at))
        (λ e u same. rw same tt)
        (λ _ u same. Leaves-ok false u (rw same (tt, λ url token h. ground arith)))
  stop_alive-Sound state true s at =
      let t = found_alive state.pid true ∷ read_state state ∷ [] in
      let fetched : Logs (λ (u : Session W). Sound net u.trace)
          (λ r u. Fetched state.http_url t r u.trace)
          (with_flag false (attempt (fetch_health net env state.http_url)) s) =
        Logs-flag false (attempt (fetch_health net env state.http_url)) s (
          Logs-attempt (fetch_health net env state.http_url) s
            (fetch_health-LogsOne net env t state.http_url s at) (λ e u same. same)
            (λ h u found. found)) in
      Leaves-after _ _ fetched (λ e u sound. sound) (λ r u seen. shut_down-Sound state r u seen)

  stop_unmanaged-Sound :
      (r : Result LifecycleError Health) (s : Session W)
      → Fetched (default_http_url sup) [] r s.trace
      → Logs
          (λ u. Sound net u.trace)
          (λ b u. Sound net u.trace × Answered b u.trace)
          (stop_unmanaged net env sup r s)
  unfolding stop_unmanaged
  stop_unmanaged-Sound (ok health) s (at, _) = Leaves-err _ s (rw at tt)
  stop_unmanaged-Sound (err e) s at =
      Leaves-after _ _
        (Logs-flag false (check env.context_error) s (check-Silent env.context_error [] s at))
        (λ e u same. rw same tt) (λ _ u same. Leaves-ok false u (rw same (tt, λ url token h. h)))

  stop_seen-Sound :
      (seen : Result LifecycleError RuntimeState) (s : Session W)
      → ReadFrom [] seen s.trace
      → Logs
          (λ u. Sound net u.trace)
          (λ b u. Sound net u.trace × Answered b u.trace)
          (stop_seen net env sup seen s)
  unfolding stop_seen
  stop_seen-Sound (ok state) s at =
      Leaves-after _ _
        (Logs-flag false (check_alive net env state.pid) s
          (check_alive-LogsOne net env (read_state state ∷ []) state.pid s at))
        (λ e u same. rw same tt) (λ alive u same. stop_alive-Sound state alive u same)
  stop_seen-Sound (err not_exist) s at =
      let base = default_http_url sup in
      let fetched : Logs (λ (u : Session W). Sound net u.trace) (λ r u. Fetched base [] r u.trace)
          (with_flag false (attempt (fetch_health net env base)) s) =
        Logs-flag false (attempt (fetch_health net env base)) s (
          Logs-attempt (fetch_health net env base) s (fetch_health-LogsOne net env [] base s at)
            (λ e u same. same) (λ h u found. found)) in
      Leaves-after _ _ fetched (λ e u sound. sound) (λ r u seen. stop_unmanaged-Sound r u seen)
  stop_seen-Sound (err e) s at = Leaves-err _ s (rw at tt)

  -- Stop sends a shutdown request only for a state that it read, whose process it found alive, and after a
  -- health answer from the address of that state with the identity of that state; the request goes to
  -- that address with the token of that state. Where it returns no error, the flag true means that a
  -- request was sent and that the process was found dead, and the flag false that no request was sent.
  -- This holds in every world, whatever fails and changes between the calls.
  pub stop-Sound :
      (world : W)
      → Logs
          (λ u. Sound net u.trace)
          (λ b u. Sound net u.trace × Answered b u.trace)
          (stop net env sup (record { world = world; trace = [] }))
  unfolding stop
  stop-Sound world =
      let s : Session W = record { world = world; trace = [] } in
      Leaves-after _ _ (Logs-flag false (enter net env sup) s (enter-Silent net env [] sup s refl))
        (λ e u same. rw same tt)
        (λ _ u same.
          let seen : Logs (λ (v : Session W). Sound net v.trace) (λ r v. ReadFrom [] r v.trace)
              (with_flag false (attempt (read_state_file net env)) u) =
            Logs-flag false (attempt (read_state_file net env)) u (
              Logs-attempt (read_state_file net env) u (read_state_file-LogsOne net env [] u same)
                (λ e v same. same) (λ state v same. same)) in
          Leaves-after _ _ seen (λ e v sound. sound) (λ r v at. stop_seen-Sound r v at))
