-- ===== src/Lifecycle/Exit.antt =====
-- internal/lifecycle/supervisor.go: the shutdown request of `Stop`, and its wait for the end of the
-- process.
use dire_agent.Prelude.{
  ℕ, zero, suc, ◌≡◌, refl, ap, inl, inr, Bool, true, false, ◌||◌, List, [], ◌∷◌, ltb, leb,
}
use dire_agent.Prelude.Text.{Text, codes}
use dire_agent.Prelude.Results.{ok, fail_if}
use dire_agent.Prelude.Exec.{
  throw, lift, after, Leaves-ok, Leaves-err, Leaves-result, Leaves-lift, Leaves-after, Leaves-map,
}
use dire_agent.Lifecycle.Runtime.{
  Net, RuntimeState, Health, rejected, deadline, endpoint_url, match_identity,
}
use dire_agent.Lifecycle.Session.{
  Env, Event, read_state, found_alive, got_health, asked_shutdown, launched, Session, or_failed,
  ask, check, attempt, remove_state_file,
}
use dire_agent.Lifecycle.Supervisor.{Supervisor, with_flag}
use dire_agent.Lifecycle.Stop.{request_shutdown, ignore_missing, exit_found, exit_round, await_exit}
use dire_agent.Lifecycle.Trace.{
  Has, Logs, Logs-flag, Logs-attempt, check-Silent, ask-Silent, remove_state_file-Silent,
  check_alive-LogsOne, unless-Logs,
}

-- A shutdown request that was sent to a daemon whose state was read, whose process was found alive, and
-- whose health answer had the identity of that state; it goes to the daemon's own address with its token.
abbrev pub Authorised : Net → Text → Text → List Event → Type 0
Authorised net url token t =
    (state : RuntimeState) × (health : Health) × Has (read_state state) t
    × Has (found_alive state.pid true) t
    × Has (got_health state.http_url health) t
    × (match_identity state health ≡ ok tt)
    × (token ≡ state.control_token)
    × (endpoint_url net state.http_url (codes "/control/shutdown") ≡ ok url)

abbrev pub Sound : Net → List Event → Type 0
Sound net [] = Unit
Sound net (asked_shutdown url token ∷ t) = Authorised net url token t × Sound net t
Sound net (read_state state ∷ t) = Sound net t
Sound net (found_alive pid alive ∷ t) = Sound net t
Sound net (got_health url health ∷ t) = Sound net t
Sound net (launched id token pid ∷ t) = Sound net t

-- The log when the request is sent.
abbrev pub before_request : RuntimeState → Health → List Event
before_request state health =
    got_health state.http_url health ∷ found_alive state.pid true ∷ read_state state ∷ []

abbrev pub Asked : Net → RuntimeState → List Event → Type 0
Asked net state t = Sound net t × (url : Text) × Has (asked_shutdown url state.control_token) t

module _ {W : Type 0} (net : Net) (env : Env W) (sup : Supervisor) where
  pub request_shutdown-Asked :
      (state : RuntimeState) (health : Health) (s : Session W)
      → s.trace ≡ before_request state health
      → match_identity state health ≡ ok tt
      → Logs
          (λ u. Sound net u.trace)
          (λ _ u. Asked net state u.trace)
          (request_shutdown net env sup state s)
  unfolding request_shutdown
  request_shutdown-Asked state health s at match =
      let target = endpoint_url net state.http_url (codes "/control/shutdown") in
      let resolved : Logs (λ (u : Session W). Sound net u.trace)
          (λ url u. (target ≡ ok url) × (u.trace ≡ before_request state health))
          (with_flag false (lift target) s) =
        Logs-flag false (lift target) s
          (Leaves-result target s (λ e _. rw at tt) (λ url to. (to, at))) in
      Leaves-after _ _ resolved (λ e u sound. sound)
        (λ url s (to, at).
          let asked = asked_shutdown url state.control_token in
          let t = before_request state health in
          let authorised : Authorised net url state.control_token t =
            (state, health, inr (inr (inl refl)), inr (inl refl), inl refl, match, refl, to) in
          let done : (u : Session W) → u.trace ≡ asked ∷ t → Asked net state u.trace =
            λ u here. rw here ((authorised, tt), url, inl refl) in
          let now : Session W = record s { trace = asked ∷ s.trace } in
          let here : now.trace ≡ asked ∷ t = ap (λ v. asked ∷ v) at in
          Leaves-after _ _
            (Logs-flag false (ask (env.post url state.control_token)) now
              (ask-Silent (env.post url state.control_token) (asked ∷ t) now here))
            (λ e u same. (done u same).0)
            (λ answer u same.
              Leaves-after _ _
                (Logs-flag false
                  (lift (fail_if (ltb answer.0 200 || leb 300 answer.0) (rejected answer.0))) u
                  (Leaves-result
                    (fail_if (ltb answer.0 200 || leb 300 answer.0) (rejected answer.0)) u
                    (λ e _. same) (λ _ _. same)))
                (λ e v same. (done v same).0)
                (λ _ v same.
                  Leaves-map _
                    (Logs-flag true (lift (or_failed answer.1)) v
                      (Leaves-result (or_failed answer.1) v (λ e _. same) (λ _ _. same)))
                    (λ e w same. (done w same).0) (λ _ w same. done w same))))

  -- The rest of a round of the last loop, once it is known whether the process is alive.
  exit_found-Asked :
      (state : RuntimeState) (alive : Bool) (s : Session W)
      → Asked net state s.trace
      → (alive ≡ false → Has (found_alive state.pid false) s.trace)
      → Logs
          (λ u. Asked net state u.trace)
          (λ ended u.
            Asked net state u.trace × (ended ≡ true → Has (found_alive state.pid false) u.trace))
          (exit_found net env sup state alive s)
  unfolding exit_found
  exit_found-Asked state true s asked dead = Leaves-ok false s (asked, λ e. cc)
  exit_found-Asked state false s asked dead =
      let removed : Logs (λ (u : Session W). u.trace ≡ s.trace) (λ r u. u.trace ≡ s.trace)
          (attempt (remove_state_file net env state.instance_id) s) =
        Logs-attempt (remove_state_file net env state.instance_id) s
          (remove_state_file-Silent net env s.trace state.instance_id s refl) (λ e u same. same)
          (λ a u same. same) in
      Leaves-after _ _ removed (λ e u same. rw same asked)
        (λ r u same.
          Leaves-lift (ignore_missing net env sup r) (λ _ v. (ok true, v)) u (λ e _. rw same asked)
            (λ _ _. Leaves-ok true u (rw same asked, λ _. rw same (dead refl))))

  exit_round-Asked :
      (state : RuntimeState) (s : Session W)
      → Asked net state s.trace
      → Logs
          (λ u. Asked net state u.trace)
          (λ ended u.
            Asked net state u.trace × (ended ≡ true → Has (found_alive state.pid false) u.trace))
          (exit_round net env sup state s)
  unfolding exit_round
  exit_round-Asked state s (sound, url, asked) =
      Leaves-after _ _ (check_alive-LogsOne net env s.trace state.pid s refl)
        (λ e u same. rw same (sound, url, asked))
        (λ alive u same.
          exit_found-Asked state alive u (rw same (sound, url, inr asked))
            (λ dead. rw same (inl (ap (found_alive state.pid) dead))))

  -- The loop ends with a process that has ended, or with an error.
  pub await_exit-Asked :
      (polls : ℕ) (state : RuntimeState) (s : Session W)
      → Asked net state s.trace
      → Logs
          (λ u. Asked net state u.trace)
          (λ _ u. Asked net state u.trace × Has (found_alive state.pid false) u.trace)
          (await_exit net env sup polls state s)
  unfolding await_exit
  await_exit-Asked zero state s asked =
      Leaves-after _ _ (exit_round-Asked state s asked) (λ e u here. here)
        (λ ended u (here, dead).
          unless-Logs ended (throw (deadline sup.log_file)) u (λ e. (here, dead e))
            (Leaves-err _ u here))
  await_exit-Asked (suc polls) state s asked =
      Leaves-after _ _ (exit_round-Asked state s asked) (λ e u here. here)
        (λ ended u (here, dead).
          let again : Logs (λ u. Asked net state u.trace)
              (λ _ u. Asked net state u.trace × Has (found_alive state.pid false) u.trace)
              (after (λ _. await_exit net env sup polls state) (check env.wait u)) =
            Leaves-after _ _ (check-Silent env.wait u.trace u refl) (λ e v same. rw same here)
              (λ _ v same. await_exit-Asked polls state v (rw same here)) in
          unless-Logs ended _ u (λ e. (here, dead e)) again)
