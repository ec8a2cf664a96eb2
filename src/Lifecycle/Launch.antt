-- ===== src/Lifecycle/Launch.antt =====
-- internal/lifecycle/supervisor.go: when `Start` launches a daemon, and what it has seen when it returns.
use dire_agent.Prelude.{◌≡◌, refl, ap, inl, inr, Bool, true, false, arith, List, [], ◌∷◌}
use dire_agent.Prelude.Text.{Text}
use dire_agent.Prelude.Int.{ℤ}
use dire_agent.Prelude.Results.{Result, ok, err}
use dire_agent.Prelude.Exec.{lift, after, Leaves-ok, Leaves-err, Leaves-result, Leaves-after}
use dire_agent.Lifecycle.Runtime.{Net, RuntimeState, Health, LifecycleError, not_exist}
use dire_agent.Lifecycle.Session.{
  Env, Event, read_state, found_alive, launched, Session, ask, check, attempt, read_state_file,
  check_alive, fetch_health, remove_state_file,
}
use dire_agent.Lifecycle.Supervisor.{
  Supervisor, with_flag, default_http_url, enter, verified, await_startup, launch_daemon,
  start_unmanaged, start_fresh, start_alive, start_seen, start,
}
use dire_agent.Lifecycle.Trace.{
  Has, Logs, Logs-flag, Logs-attempt, check-Silent, ask-Silent, remove_state_file-Silent,
  read_state_file-LogsOne, check_alive-LogsOne, fetch_health-LogsOne, enter-Silent, ReadFrom,
  Fetched,
}
use dire_agent.Lifecycle.Startup.{Free, Careful, Up, await_startup-Up}

abbrev Unlaunched : List Event → Type 0
Unlaunched t = (id token : Text) (pid : ℤ) → Has (launched id token pid) t → ⊥

-- The log when no state was found, and when the process of the state was found dead.
nothing-Free : Free []
nothing-Free = (λ url health h. h, λ state h. absurd h)

same_state : (state seen : RuntimeState) → read_state state ≡ read_state seen → state ≡ seen
same_state state seen h = cc

dead-Free : (state : RuntimeState) → Free (found_alive state.pid false ∷ read_state state ∷ [])
dead-Free state = (
  λ url health h. ground arith,
  λ seen h. elim h [
    | inl other ↦ cc
    | inr (inl same) ↦
        inl (ap (λ (x : RuntimeState). found_alive x.pid false) (same_state state seen same))
    | inr (inr none_left) ↦ absurd none_left
  ],
)

later-Unlaunched :
    (e : Event) (t : List Event)
    → ((id token : Text) (pid : ℤ) → e ≡ launched id token pid → ⊥)
    → Unlaunched t
    → Unlaunched (e ∷ t)
later-Unlaunched e t other none_yet id token pid (inl same) = other id token pid same
later-Unlaunched e t other none_yet id token pid (inr rest) = none_yet id token pid rest

module _ {W : Type 0} (net : Net) (env : Env W) (sup : Supervisor) where
  abbrev Started : Bool → Session W → Type 0
  Started b u = Careful u.trace × Up b u.trace

  launch_daemon-Up :
      (t : List Event) (s : Session W)
      → Free t
      → Careful t
      → s.trace ≡ t
      → Logs (λ u. Careful u.trace) Started (launch_daemon net env sup s)
  unfolding launch_daemon
  launch_daemon-Up t s free careful at =
      Leaves-after _ _
        (Logs-flag false (check env.context_error) s (check-Silent env.context_error t s at))
        (λ e u same. rw same careful)
        λ _ u same.
          Leaves-after _ _
            (Logs-flag false (ask env.new_instance_id) u (ask-Silent env.new_instance_id t u same))
            (λ e u same. rw same careful)
            λ id u same.
              Leaves-after _ _
                (Logs-flag false (ask env.new_token) u (ask-Silent env.new_token t u same))
                (λ e u same. rw same careful)
                λ token u same.
                  Leaves-after _ _
                    (Logs-flag false (ask (env.launch id token)) u
                      (ask-Silent (env.launch id token) t u same))
                    (λ e u same. rw same careful)
                    λ pid u same.
                      let v : Session W = record u { trace = launched id token pid ∷ u.trace } in
                      Leaves-after _ _
                        (Logs-flag true (await_startup net env sup sup.start_polls id pid token) v (
                          await_startup-Up net env sup id token pid sup.start_polls v
                            (rw same ((free, careful), inl refl))))
                        (λ e w here. here) (λ _ w here. Leaves-ok true w here)

  start_unmanaged-Up :
      (base : Text) (t : List Event) (r : Result LifecycleError Health) (s : Session W)
      → Free t
      → Careful t
      → Unlaunched t
      → Fetched base t r s.trace
      → Logs (λ u. Careful u.trace) Started (start_unmanaged net env sup r s)
  unfolding start_unmanaged
  start_unmanaged-Up base t (err e) s free careful none_yet at =
      launch_daemon-Up t s free careful at
  start_unmanaged-Up base t (ok health) s free careful none_yet (at, valid) = Leaves-ok false s (
      rw at (
        careful,
        ((base, health, inl refl, valid), later-Unlaunched _ t (λ id token pid h. cc) none_yet),
      ))

  start_fresh-Up :
      (t : List Event) (s : Session W)
      → Free t
      → Careful t
      → Unlaunched t
      → s.trace ≡ t
      → Logs (λ u. Careful u.trace) Started (start_fresh net env sup s)
  unfolding start_fresh
  start_fresh-Up t s free careful none_yet at =
      let base = default_http_url sup in
      let fetched : Logs (λ (u : Session W). Careful u.trace) (λ r u. Fetched base t r u.trace)
          (with_flag false (attempt (fetch_health net env base)) s) =
        Logs-flag false (attempt (fetch_health net env base)) s (
          Logs-attempt (fetch_health net env base) s (fetch_health-LogsOne net env t base s at)
            (λ e u same. same) (λ h u found. found)) in
      Leaves-after _ _ fetched (λ e u here. here)
        (λ r u seen. start_unmanaged-Up base t r u free careful none_yet seen)

  -- The log of a managed daemon that is alive, and of one that is dead.
  abbrev alive_trace : RuntimeState → Bool → List Event
  alive_trace state alive = found_alive state.pid alive ∷ read_state state ∷ []

  alive-Unlaunched : (state : RuntimeState) (alive : Bool) → Unlaunched (alive_trace state alive)
  alive-Unlaunched state alive id token pid h = ground arith

  verified_start :
      (state : RuntimeState) (r : Result LifecycleError Health) (s : Session W)
      → Fetched state.http_url (alive_trace state true) r s.trace
      → Logs
          (λ u. Careful u.trace)
          Started
          (after (λ _ v. (ok false, v)) (with_flag false (lift (verified net env sup state r)) s))
  unfolding verified
  verified_start state (err e) s at = Leaves-err _ s (rw at tt)
  verified_start state (ok health) s (at, valid) =
      let here : Started false s = rw at (
        tt,
        (
          (state.http_url, health, inl refl, valid),
          later-Unlaunched _ (alive_trace state true) (λ id token pid h. cc)
              (alive-Unlaunched state true),
        ),
      ) in
      Leaves-after _ _
        (Logs-flag false (lift (verified net env sup state (ok health))) s (
          Leaves-result {Bad = λ e u. Started false u} (verified net env sup state (ok health)) s
            (λ e _. here) (λ _ _. here)))
        (λ e u here. here.0) (λ _ u here. Leaves-ok false u here)

  start_alive-Up :
      (state : RuntimeState) (alive : Bool) (s : Session W)
      → s.trace ≡ alive_trace state alive
      → Logs (λ u. Careful u.trace) Started (start_alive net env sup state alive s)
  unfolding start_alive
  start_alive-Up state false s at =
      Leaves-after _ _
        (Logs-flag false (remove_state_file net env state.instance_id) s
          (remove_state_file-Silent net env (alive_trace state false) state.instance_id s at))
        (λ e u same. rw same tt)
        (λ _ u same.
          start_fresh-Up (alive_trace state false) u (dead-Free state) tt
            (alive-Unlaunched state false) same)
  start_alive-Up state true s at =
      let fetched : Logs (λ (u : Session W). Careful u.trace)
          (λ r u. Fetched state.http_url (alive_trace state true) r u.trace)
          (with_flag false (attempt (fetch_health net env state.http_url)) s) =
        Logs-flag false (attempt (fetch_health net env state.http_url)) s (
          Logs-attempt (fetch_health net env state.http_url) s
            (fetch_health-LogsOne net env (alive_trace state true) state.http_url s at)
            (λ e u same. same) (λ h u found. found)) in
      Leaves-after _ _ fetched (λ e u here. here) (λ r u seen. verified_start state r u seen)

  start_seen-Up :
      (seen : Result LifecycleError RuntimeState) (s : Session W)
      → ReadFrom [] seen s.trace
      → Logs (λ u. Careful u.trace) Started (start_seen net env sup seen s)
  unfolding start_seen
  start_seen-Up (ok state) s at =
      Leaves-after _ _
        (Logs-flag false (check_alive net env state.pid) s
          (check_alive-LogsOne net env (read_state state ∷ []) state.pid s at))
        (λ e u same. rw same tt) (λ alive u same. start_alive-Up state alive u same)
  start_seen-Up (err not_exist) s at = start_fresh-Up [] s nothing-Free tt (λ id token pid h. h) at
  start_seen-Up (err e) s at = Leaves-err _ s (rw at tt)

  -- Start launches a daemon only after it had no valid health answer, and after the process of each state
  -- that it read was found dead. Where it returns no error, a daemon runs: the flag true means that it
  -- launched one and that this one answered with the identity of its state, which holds the identifier,
  -- the process and the token that it was launched with; the flag false, that it had a valid health
  -- answer and launched none. This holds in every world, whatever fails and changes between the calls.
  pub start-Up :
      (world : W)
      → Logs
          (λ u. Careful u.trace)
          (λ b u. Careful u.trace × Up b u.trace)
          (start net env sup (record { world = world; trace = [] }))
  unfolding start
  start-Up world =
      let s : Session W = record { world = world; trace = [] } in
      Leaves-after _ _ (Logs-flag false (enter net env sup) s (enter-Silent net env [] sup s refl))
        (λ e u same. rw same tt)
        (λ _ u same.
          let seen : Logs (λ (v : Session W). Careful v.trace) (λ r v. ReadFrom [] r v.trace)
              (with_flag false (attempt (read_state_file net env)) u) =
            Logs-flag false (attempt (read_state_file net env)) u (
              Logs-attempt (read_state_file net env) u (read_state_file-LogsOne net env [] u same)
                (λ e v same. same) (λ state v same. same)) in
          Leaves-after _ _ seen (λ e v here. here) (λ r v at. start_seen-Up r v at))
