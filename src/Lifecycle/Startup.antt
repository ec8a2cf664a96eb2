-- ===== src/Lifecycle/Startup.antt =====
-- internal/lifecycle/supervisor.go: the loop in which `Start` waits for the daemon that it launched.
use dire_agent.Prelude.{
  ℕ, zero, suc, ◌≡◌, refl, inl, inr, Bool, true, false, not, arith, List, [], ◌∷◌,
}
use dire_agent.Prelude.Text.{Text, text_eq→eq}
use dire_agent.Prelude.Int.{ℤ}
use dire_agent.Prelude.Results.{Result, ok, err, fail_if}
use dire_agent.Prelude.Exec.{throw, after, Leaves-ok, Leaves-err, Leaves-lift, Leaves-after}
use dire_agent.Lifecycle.Runtime.{
  Net, RuntimeState, Health, LifecycleError, not_exist, deadline, exited_during_startup, int_eq→eq,
  valid_health, match_identity,
}
use dire_agent.Lifecycle.Session.{
  Env, Event, read_state, found_alive, got_health, asked_shutdown, launched, Session, check,
  attempt, read_state_file, fetch_health,
}
use dire_agent.Lifecycle.Supervisor.{
  Supervisor, same_daemon, is_match, look_state, look, still_starting, startup_round, await_startup,
}
use dire_agent.Lifecycle.Trace.{
  Has, Logs, Logs-attempt, check-Silent, read_state_file-LogsOne, check_alive-LogsOne,
  fetch_health-LogsOne, unless-Logs, ReadFrom, Fetched,
}

-- Nothing in the log says that a daemon runs: there was no valid health answer, and the process of each
-- state that was read was found dead.
abbrev pub Free : List Event → Type 0
Free t =
    ((url : Text) (health : Health) → Has (got_health url health) t → ⊥)
    × ((state : RuntimeState) → Has (read_state state) t → Has (found_alive state.pid false) t)

-- Each launch follows such a log.
abbrev pub Careful : List Event → Type 0
Careful [] = Unit
Careful (launched id token pid ∷ t) = Free t × Careful t
Careful (asked_shutdown url token ∷ t) = Careful t
Careful (read_state state ∷ t) = Careful t
Careful (found_alive pid alive ∷ t) = Careful t
Careful (got_health url health ∷ t) = Careful t

-- The daemon that was launched has answered with the identity of its state, which holds its identifier,
-- its process and its token; or a daemon that was there has answered, and none was launched.
abbrev pub Up : Bool → List Event → Type 0
Up true t =
    (state : RuntimeState) × (health : Health) × Has
      (launched state.instance_id state.control_token state.pid) t
    × Has (read_state state) t
    × Has (got_health state.http_url health) t
    × (match_identity state health ≡ ok tt)
Up false t =
    ((url : Text) × (health : Health) × Has (got_health url health) t
      × (valid_health health ≡ ok tt))
    × ((id token : Text) (pid : ℤ) → Has (launched id token pid) t → ⊥)

-- The log while the new daemon starts.
abbrev pub Launching : Text → ℤ → Text → List Event → Type 0
Launching id pid token t = Careful t × Has (launched id token pid) t

module _ {W : Type 0} (net : Net) (env : Env W) (sup : Supervisor) (id token : Text) (pid : ℤ) where
  pub same_daemon-eq :
      (state : RuntimeState)
      → same_daemon net env sup id pid token state ≡ true
      → (state.instance_id ≡ id) × (state.pid ≡ pid) × (state.control_token ≡ token)
  unfolding same_daemon
  same_daemon-eq state h = (
    text_eq→eq state.instance_id id (ground arith),
    int_eq→eq state.pid pid (ground arith),
    text_eq→eq state.control_token token (ground arith),
  )

  pub is_match-ok :
      (state : RuntimeState) (health : Health)
      → is_match net env sup state (ok health) ≡ true
      → match_identity state health ≡ ok tt
  unfolding is_match
  is_match-ok state health h = ground arith

  pub is_match-err :
      (state : RuntimeState) (e : LifecycleError) → is_match net env sup state (err e) ≡ true → ⊥
  unfolding is_match
  is_match-err state e h = cc

  pub Fetched-Up :
      (state : RuntimeState) (t : List Event) (r : Result LifecycleError Health) (u : List Event)
      → Careful t
      → Has (launched id token pid) t
      → Has (launched state.instance_id state.control_token state.pid) t
      → Fetched state.http_url (read_state state ∷ t) r u
      → Launching id pid token u × (is_match net env sup state r ≡ true → Up true u)
  Fetched-Up state t (err e) u careful here own seen =
      (rw seen (careful, inr here), λ up. absurd (is_match-err state e up))
  Fetched-Up state t (ok health) u careful here own (seen, _) = (
    rw seen (careful, inr (inr here)),
    λ up.
        rw seen
          (state, health, inr (inr own), inr (inl refl), inl refl, is_match-ok state health up),
  )

  pub look_state-Launching :
      (state : RuntimeState) (t : List Event) (same : Bool) (s : Session W)
      → Launching id pid token t
      → s.trace ≡ read_state state ∷ t
      → same_daemon net env sup id pid token state ≡ same
      → Logs
          (λ u. Launching id pid token u.trace)
          (λ up u. Launching id pid token u.trace × (up ≡ true → Up true u.trace))
          (look_state net env sup state same s)
  unfolding look_state
  look_state-Launching state t false s (careful, here) at is_same =
      Leaves-err _ s (rw at (careful, inr here))
  look_state-Launching state t true s (careful, here) at is_same =
      let own : Has (launched state.instance_id state.control_token state.pid) t =
        let (i, p, k) = same_daemon-eq state is_same in rw i (rw p (rw k here)) in
      let fetched : Logs (λ (u : Session W). Launching id pid token u.trace)
          (λ r u. Fetched state.http_url (read_state state ∷ t) r u.trace)
          (attempt (fetch_health net env state.http_url) s) =
        Logs-attempt (fetch_health net env state.http_url) s
          (fetch_health-LogsOne net env (read_state state ∷ t) state.http_url s at)
          (λ e u same. same) (λ h u found. found) in
      Leaves-after _ _ fetched (λ e u here. here)
        (λ r u seen.
          Leaves-ok (is_match net env sup state r) u
            (Fetched-Up state t r u.trace careful here own seen))

  pub look-Launching :
      (seen : Result LifecycleError RuntimeState) (t : List Event) (s : Session W)
      → Launching id pid token t
      → ReadFrom t seen s.trace
      → Logs
          (λ u. Launching id pid token u.trace)
          (λ up u. Launching id pid token u.trace × (up ≡ true → Up true u.trace))
          (look net env sup id pid token seen s)
  unfolding look
  look-Launching (ok state) t s here at =
      look_state-Launching state t (same_daemon net env sup id pid token state) s here at refl
  look-Launching (err not_exist) t s here at = Leaves-ok false s (rw at here, λ e. cc)
  look-Launching (err e) t s here at = Leaves-err e s (rw at here)

  pub still_starting-Launching :
      (up : Bool) (s : Session W)
      → Launching id pid token s.trace
      → (up ≡ true → Up true s.trace)
      → Logs
          (λ u. Launching id pid token u.trace)
          (λ up u. Launching id pid token u.trace × (up ≡ true → Up true u.trace))
          (still_starting net env sup pid up s)
  unfolding still_starting
  still_starting-Launching true s here is_up = Leaves-ok true s (here, is_up)
  still_starting-Launching false s (careful, here) is_up =
      Leaves-after _ _ (check_alive-LogsOne net env s.trace pid s refl)
        (λ e u same. rw same (careful, here))
        (λ alive u same.
          Leaves-lift (fail_if (not alive) exited_during_startup) (λ _ v. (ok false, v)) u
            (λ e _. rw same (careful, inr here))
            (λ _ _. Leaves-ok false u (rw same (careful, inr here), λ e. cc)))

  pub startup_round-Launching :
      (s : Session W)
      → Launching id pid token s.trace
      → Logs
          (λ u. Launching id pid token u.trace)
          (λ up u. Launching id pid token u.trace × (up ≡ true → Up true u.trace))
          (startup_round net env sup id pid token s)
  unfolding startup_round
  startup_round-Launching s here =
      let seen : Logs (λ (u : Session W). Launching id pid token u.trace)
          (λ r u. ReadFrom s.trace r u.trace) (attempt (read_state_file net env) s) =
        Logs-attempt (read_state_file net env) s (read_state_file-LogsOne net env s.trace s refl)
          (λ e u same. same) (λ state u same. same) in
      Leaves-after _ _ seen (λ e u here. here)
        (λ r u at.
          Leaves-after _ _ (look-Launching r s.trace u here at) (λ e v here. here)
            (λ up v (here, is_up). still_starting-Launching up v here is_up))

  pub await_startup-Up :
      (polls : ℕ) (s : Session W)
      → Launching id pid token s.trace
      → Logs
          (λ u. Careful u.trace)
          (λ _ u. Careful u.trace × Up true u.trace)
          (await_startup net env sup polls id pid token s)
  unfolding await_startup
  await_startup-Up zero s here =
      Leaves-after _ _ (startup_round-Launching s here) (λ e u here. here.0)
        (λ up u (here, is_up).
          unless-Logs up (throw (deadline sup.log_file)) u (λ e. (here.0, is_up e))
            (Leaves-err _ u here.0))
  await_startup-Up (suc polls) s here =
      Leaves-after _ _ (startup_round-Launching s here) (λ e u here. here.0)
        (λ up u (here, is_up).
          let again : Logs (λ u. Careful u.trace) (λ _ u. Careful u.trace × Up true u.trace)
              (after (λ _. await_startup net env sup polls id pid token) (check env.wait u)) =
            Leaves-after _ _ (check-Silent env.wait u.trace u refl) (λ e v same. rw same here.0)
              (λ _ v same. await_startup-Up polls v (rw same here)) in
          unless-Logs up _ u (λ e. (here.0, is_up e)) again)
