-- ===== src/Lifecycle/Session.antt =====
-- internal/lifecycle/supervisor.go: what the supervisor calls outside the repository, and the log of what
-- it saw and did. Any call may change the world, since other processes run beside it.
use dire_agent.Prelude.{ℕ, Bool, true, false, not, Option, none, some, List, ◌∷◌, ◌==◌}
use dire_agent.Prelude.Text.{Text, codes}
use dire_agent.Prelude.Int.{ℤ}
use dire_agent.Prelude.Results.{Result, ok, err, fail_if}
use dire_agent.Prelude.Exec.{Exec, pure, lift, ◌>>=◌, ◌>>◌}
use dire_agent.Lifecycle.Runtime.{
  Net, RuntimeState, Health, LifecycleError, external, bad_status, undecodable, Stored,
  read_runtime, endpoint_url, valid_health,
}
use dire_agent.Lifecycle.Removal.{Removal, remove_runtime_if_instance}

-- An HTTP answer: its status, and the health in its body where that can be decoded.
pub record Answer : Type 0 where
  pub code : ℕ
  pub health : Option Health

-- The calls; `none` is a call without an error. `post` also tells the error of closing the answer, and
-- `wait` ends with the poll interval or with the error of a context that is done.
pub record Env (W : Type 0) : Type 0 where
  pub private_directory : Text → W → Option Text × W
  pub acquire_lock : Text → W → Option Text × W
  pub context_error : W → Option Text × W
  pub runtime_file : W → Option Stored × W
  pub removal : W → Removal
  pub store_file : Option Stored → W → W
  pub process_alive : ℤ → W → Result Text Bool × W
  pub get : Text → W → Result Text Answer × W
  pub post : Text → Text → W → Result Text (ℕ × Option Text) × W
  pub new_instance_id : W → Result Text Text × W
  pub new_token : W → Result Text Text × W
  pub launch : Text → Text → W → Result Text ℤ × W
  pub wait : W → Option Text × W

-- The newest event stands first.
pub data Event : Type 0 where
  read_state : RuntimeState → Event
  found_alive : ℤ → Bool → Event
  got_health : Text → Health → Event
  asked_shutdown : Text → Text → Event
  launched : Text → Text → ℤ → Event

pub record Session (W : Type 0) : Type 0 where
  pub world : W
  pub trace : List Event

abbrev pub Method : Type 0 → Type 0 → Type 0
Method W A = Exec (Session W) LifecycleError A

abbrev pub or_external {ℓ} : {A : Type ℓ} → Result Text A → Result LifecycleError A
or_external (err e) = err (external e)
or_external (ok a) = ok a

abbrev pub or_failed : Option Text → Result LifecycleError (Unit {0})
or_failed none = ok tt
or_failed (some e) = err (external e)

module _ {W : Type 0} where
  abbrev pub log : Event → Method W (Unit {0})
  log event s = (ok tt, record s { trace = event ∷ s.trace })

  -- A call of the environment with a value, and one without.
  abbrev pub ask : {A : Type 0} → (W → Result Text A × W) → Method W A
  ask f s = let r = f s.world in (or_external r.0, record s { world = r.1 })

  abbrev pub check : (W → Option Text × W) → Method W (Unit {0})
  check f s = let r = f s.world in (or_failed r.0, record s { world = r.1 })

  -- The rest of a loop, unless a round has ended it.
  unfoldable pub unless : Bool → Method W (Unit {0}) → Method W (Unit {0})
  unless true rest = pure tt
  unless false rest = rest

  -- `x, err := …` where the error is looked at later.
  abbrev pub attempt : {A : Type 0} → Method W A → Method W (Result LifecycleError A)
  attempt m s = let r = m s in (ok r.0, r.1)

module _ {W : Type 0} (net : Net) (env : Env W) where
  unfoldable pub seen_file : W → Result LifecycleError RuntimeState × W
  unfolding read_runtime
  seen_file w = let r = env.runtime_file w in (read_runtime net r.0, r.1)

  -- `ReadRuntime(supervisor.Paths.RuntimeFile)`.
  unfoldable pub read_state_file : Method W RuntimeState
  unfolding seen_file
  read_state_file = do
    state ← (λ s. let r = seen_file s.world in (r.0, record s { world = r.1 }))
    log (read_state state)
    pure state

  unfoldable pub check_alive : ℤ → Method W Bool
  check_alive pid = do alive ← ask (env.process_alive pid); log (found_alive pid alive); pure alive

  unfoldable pub or_undecodable : Option Health → Result LifecycleError Health
  or_undecodable none = err undecodable
  or_undecodable (some health) = ok health

  unfoldable pub fetch_health : Text → Method W Health
  unfolding endpoint_url valid_health or_undecodable
  fetch_health base = do
    url ← lift (endpoint_url net base (codes "/healthz"))
    answer ← ask (env.get url)
    lift (fail_if (not (answer.code == 200)) (bad_status answer.code))
    health ← lift (or_undecodable answer.health)
    lift (valid_health health)
    log (got_health base health)
    pure health

  removed_file : Text → W → Result LifecycleError Bool × W
  unfolding remove_runtime_if_instance
  removed_file id w =
      let r = env.runtime_file w in
      let removed = remove_runtime_if_instance net (env.removal r.1) id r.0 in
      (removed.0, env.store_file removed.1 r.1)

  unfoldable pub remove_state_file : Text → Method W Bool
  unfolding removed_file
  remove_state_file id s = let r = removed_file id s.world in (r.0, record s { world = r.1 })
