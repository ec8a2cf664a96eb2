-- ===== src/Lifecycle/Trace.antt =====
-- internal/lifecycle/supervisor.go: what the log of a call says, one lemma for each part of a method.
use dire_agent.Prelude.{◌≡◌, refl, ap, ◌⊎◌, Bool, true, false, not, Option, List, [], ◌∷◌, ◌==◌}
use dire_agent.Prelude.Text.{Text, codes}
use dire_agent.Prelude.Int.{ℤ}
use dire_agent.Prelude.Results.{Result, ok, err, fail_if}
use dire_agent.Prelude.Exec.{Leaves, Leaves-ok, Leaves-err, Leaves-lift, Leaves-after}
use dire_agent.Lifecycle.Runtime.{
  Net, RuntimeState, Health, LifecycleError, bad_status, endpoint_url, valid_health,
}
use dire_agent.Lifecycle.Session.{
  Env, Event, read_state, found_alive, got_health, Session, Method, ask, check, attempt, unless,
  or_external, or_undecodable, seen_file, read_state_file, check_alive, fetch_health,
  remove_state_file,
}
use dire_agent.Lifecycle.Supervisor.{flagged, with_flag, Supervisor, enter, validate_supervisor}

-- An event of the log.
abbrev pub Has : Event → List Event → Type 0
Has e [] = ⊥
Has e (f ∷ t) = (f ≡ e) ⊎ Has e t

module _ {W E A : Type 0} where
  -- The session after a call that may fail.
  abbrev pub Logs :
      (Session W → Type 0) → (A → Session W → Type 0) → Result E A × Session W → Type 0
  Logs P Good = Leaves (λ e s. P s) Good

flagged_lem :
    {W A : Type 0} {P : Session W → Type 0} {Good : A → Session W → Type 0} (flag : Bool)
    (r : Result LifecycleError A) (s : Session W)
    → Logs P Good (r, s)
    → Logs P Good (flagged flag r, s)
flagged_lem flag (err e) s h = Leaves-err (flag, e) s (h.at_error e refl)
flagged_lem flag (ok a) s h = Leaves-ok a s (h.at_value a refl)

attempted_lem :
    {W A : Type 0} {P Q : Session W → Type 0} {Good : A → Session W → Type 0}
    {Seen : Result LifecycleError A → Session W → Type 0} (r : Result LifecycleError A)
    (s : Session W)
    → Logs P Good (r, s)
    → ((e : LifecycleError) (s : Session W) → P s → Seen (err e) s)
    → ((a : A) (s : Session W) → Good a s → Seen (ok a) s)
    → Logs {E = LifecycleError} Q Seen (ok r, s)
attempted_lem (err e) s h bad good = Leaves-ok _ s (bad e s (h.at_error e refl))
attempted_lem (ok a) s h bad good = Leaves-ok _ s (good a s (h.at_value a refl))

pub Logs-flag :
    {W A : Type 0} {P : Session W → Type 0} {Good : A → Session W → Type 0} (flag : Bool)
    (m : Method W A) (s : Session W)
    → Logs P Good (m s)
    → Logs P Good (with_flag flag m s)
Logs-flag flag m s h = flagged_lem flag (m s).0 (m s).1 h

pub Logs-attempt :
    {W A : Type 0} {P Q : Session W → Type 0} {Good : A → Session W → Type 0}
    {Seen : Result LifecycleError A → Session W → Type 0} (m : Method W A) (s : Session W)
    → Logs P Good (m s)
    → ((e : LifecycleError) (s : Session W) → P s → Seen (err e) s)
    → ((a : A) (s : Session W) → Good a s → Seen (ok a) s)
    → Logs Q Seen (attempt m s)
Logs-attempt m s h bad good = attempted_lem (m s).0 (m s).1 h bad good

module _ {W : Type 0} where
  -- A call that logs nothing.
  abbrev pub Silent : {E A : Type 0} → List Event → Result E A × Session W → Type 0
  Silent t = Logs (λ s. s.trace ≡ t) (λ a s. s.trace ≡ t)

  -- A call that logs one event, unless it fails.
  abbrev pub LogsOne : {E A : Type 0} → (A → Event) → List Event → Result E A × Session W → Type 0
  LogsOne event t = Logs (λ s. s.trace ≡ t) (λ a s. s.trace ≡ event a ∷ t)

  pub check-Silent :
      (f : W → Option Text × W) (t : List Event) (s : Session W)
      → s.trace ≡ t
      → Silent t (check f s)
  check-Silent f t s at = record { at_error = λ e h. at; at_value = λ a h. at }

  pub ask-Silent :
      {A : Type 0} (f : W → Result Text A × W) (t : List Event) (s : Session W)
      → s.trace ≡ t
      → Silent t (ask f s)
  ask-Silent f t s at = record { at_error = λ e h. at; at_value = λ a h. at }

module _ {W : Type 0} (net : Net) (env : Env W) (t : List Event) where
  pub remove_state_file-Silent :
      (id : Text) (s : Session W) → s.trace ≡ t → Silent t (remove_state_file net env id s)
  unfolding remove_state_file
  remove_state_file-Silent id s at = record { at_error = λ e h. at; at_value = λ a h. at }

  pub read_state_file-LogsOne :
      (s : Session W) → s.trace ≡ t → LogsOne read_state t (read_state_file net env s)
  unfolding read_state_file
  read_state_file-LogsOne s at =
      let r = seen_file net env s.world in
      Leaves-lift r.0 _ (record s { world = r.1 }) (λ e _. at)
        (λ a _. Leaves-ok a _ (ap (λ u. read_state a ∷ u) at))

  pub check_alive-LogsOne :
      (pid : ℤ) (s : Session W)
      → s.trace ≡ t
      → LogsOne (found_alive pid) t (check_alive net env pid s)
  unfolding check_alive
  check_alive-LogsOne pid s at =
      let r = env.process_alive pid s.world in
      Leaves-lift (or_external r.0) _ (record s { world = r.1 }) (λ e _. at)
        (λ a _. Leaves-ok a _ (ap (λ u. found_alive pid a ∷ u) at))

  pub fetch_health-LogsOne :
      (base : Text) (s : Session W)
      → s.trace ≡ t
      → Logs
          (λ u. u.trace ≡ t)
          (λ h u. (u.trace ≡ got_health base h ∷ t) × (valid_health h ≡ ok tt))
          (fetch_health net env base s)
  unfolding fetch_health
  fetch_health-LogsOne base s at =
      Leaves-lift (endpoint_url net base (codes "/healthz")) _ s (λ e _. at)
        λ url _.
          let r = env.get url s.world in
          let s = record s { world = r.1 } in
          Leaves-lift (or_external r.0) _ s (λ e _. at)
            λ answer _.
              Leaves-lift (fail_if (not (answer.code == 200)) (bad_status answer.code)) _ s
                (λ e _. at)
                λ _ _.
                  Leaves-lift (or_undecodable net env answer.health) _ s (λ e _. at)
                    λ health _.
                      Leaves-lift (valid_health health) _ s (λ e _. at)
                        λ u valid.
                          Leaves-ok health _ (ap (λ u. got_health base health ∷ u) at, valid)

  pub enter-Silent :
      (sup : Supervisor) (s : Session W) → s.trace ≡ t → Silent t (enter net env sup s)
  unfolding enter
  enter-Silent sup s at =
      Leaves-lift (validate_supervisor net env sup) _ s (λ e _. at)
        λ _ _.
          Leaves-after _ _ (check-Silent (env.private_directory sup.base_dir) t s at) (λ e s at. at)
            λ _ s at.
              Leaves-after _ _ (check-Silent (env.private_directory sup.run_dir) t s at)
                (λ e s at. at)
                λ _ s at.
                  Leaves-after _ _ (check-Silent (env.private_directory sup.log_dir) t s at)
                    (λ e s at. at) λ _ s at. check-Silent (env.acquire_lock sup.lock_file) t s at

pub unless-Logs :
    {W : Type 0} {P : Session W → Type 0} {Good : Unit {0} → Session W → Type 0} (ended : Bool)
    (rest : Method W (Unit {0})) (s : Session W)
    → (ended ≡ true → Good tt s)
    → Logs P Good (rest s)
    → Logs P Good (unless ended rest s)
unfolding unless
unless-Logs true rest s done more = Leaves-ok tt s (done refl)
unless-Logs false rest s done more = more

-- The log after the runtime file was read, and after a health request.
abbrev pub ReadFrom : List Event → Result LifecycleError RuntimeState → List Event → Type 0
ReadFrom t (err e) u = u ≡ t
ReadFrom t (ok state) u = u ≡ read_state state ∷ t

abbrev pub Fetched : Text → List Event → Result LifecycleError Health → List Event → Type 0
Fetched url t (err e) u = u ≡ t
Fetched url t (ok health) u = (u ≡ got_health url health ∷ t) × (valid_health health ≡ ok tt)
