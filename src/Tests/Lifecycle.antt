-- ===== src/Tests/Lifecycle.antt =====
-- A daemon that runs under a supervisor until it is asked to stop.
use dire_agent.Prelude.{◌≡◌, refl, Bool, true, false, Option, none, some, [], ◌++◌}
use dire_agent.Prelude.Text.{Text, codes}
use dire_agent.Prelude.Int.{pos}
use dire_agent.Prelude.Results.{ok, err}
use dire_agent.Lifecycle.Runtime.{Net, RuntimeState, Health, Stored}
use dire_agent.Lifecycle.Removal.{
  Removal, Fate, remove_runtime_if_instance, remove_runtime_if_instance-Fate,
}
use dire_agent.Lifecycle.Session.{Env}
use dire_agent.Lifecycle.Supervisor.{Supervisor, start}
use dire_agent.Lifecycle.Stop.{stop}
use dire_agent.Lifecycle.Trace.{Logs}
use dire_agent.Lifecycle.Exit.{Sound}
use dire_agent.Lifecycle.Shutdown.{Answered, stop-Sound}
use dire_agent.Lifecycle.Startup.{Careful, Up}
use dire_agent.Lifecycle.Launch.{start-Up}

abbrev net : Net
net = record {
  parse_url = λ raw. ok (record {
    scheme = codes "http";
    has_user = false;
    host = raw;
    hostname = codes "localhost";
    raw_query = [];
    fragment = [];
    path = [];
  });
  print_url = λ u. u.host ++ u.path;
  is_loopback_ip = λ host. false;
  is_abs = λ path. true;
}

abbrev id : Text
id = codes "0123456789abcdef"

abbrev token : Text
token = codes "0123456789abcdef0123456789abcdef"

abbrev state : RuntimeState
state = record {
  schema = pos 1;
  pid = pos 42;
  instance_id = id;
  control_token = token;
  version = codes "1";
  executable = codes "/bin/d";
  http_url = codes "http://localhost:1";
  never_started = false;
}

abbrev health : Health
health = record {
  service = codes "dire-agent";
  status = codes "ok";
  version = codes "1";
  pid = pos 42;
  instance_id = id;
}

abbrev stored : Stored
stored = record {
  stat_error = none;
  open_error = none;
  regular = true;
  owner_only = true;
  decoded = some state;
  at_end = true;
}

abbrev removal : Removal
removal = record {
  directory_missing = false;
  make_quarantine = none;
  secure_quarantine = none;
  rename = none;
  link = none;
  remove_quarantined = none;
  installed = none;
}

-- The world: the runtime file, and whether the daemon runs.
abbrev World : Type 0
World = Option Stored × Bool

abbrev env : Env World
env = record {
  private_directory = λ path w. (none, w);
  acquire_lock = λ path w. (none, w);
  context_error = λ w. (none, w);
  runtime_file = λ w. (w.0, w);
  removal = λ w. removal;
  store_file = λ file w. (file, w.1);
  process_alive = λ pid w. (ok w.1, w);
  get = λ url w. elim w.1 [
    | true ↦ (ok (record { code = 200; health = some health }), w)
    | false ↦ (err (codes "refused"), w)
  ];
  post = λ url key w. (ok (200, none), (w.0, false));
  new_instance_id = λ w. (ok id, w);
  new_token = λ w. (ok token, w);
  launch = λ new_id new_token w. (ok (pos 42), (some stored, true));
  wait = λ w. (none, w);
}

abbrev supervisor : Supervisor
supervisor = record {
  home = codes "/h";
  executable = codes "/bin/d";
  address = codes "localhost:1";
  base_dir = codes "/h/d";
  run_dir = codes "/h/d/run";
  log_dir = codes "/h/d/logs";
  lock_file = codes "/h/d/run/lock";
  log_file = codes "/h/d/logs/log";
  timeouts_positive = true;
  start_polls = 3;
  stop_polls = 3;
}

abbrev running : World
running = (some stored, true)

abbrev stopped : World
stopped = (none, false)

remove_runtime_if_instance-Fate_example :
    Fate net removal id (some stored) (remove_runtime_if_instance net removal id (some stored)).1
remove_runtime_if_instance-Fate_example =
    remove_runtime_if_instance-Fate net removal id (some stored)

stop-Sound_example :
    Logs
      (λ u. Sound net u.trace)
      (λ b u. Sound net u.trace × Answered b u.trace)
      (stop net env supervisor (record { world = running; trace = [] }))
stop-Sound_example = stop-Sound net env supervisor running

start-Up_example :
    Logs
      (λ u. Careful u.trace)
      (λ b u. Careful u.trace × Up b u.trace)
      (start net env supervisor (record { world = stopped; trace = [] }))
start-Up_example = start-Up net env supervisor stopped

-- The runs take the interesting branches.
stop_answers : (stop net env supervisor (record { world = running; trace = [] })).0 ≡ ok true
unfolding stop
stop_answers = refl

start_answers : (start net env supervisor (record { world = stopped; trace = [] })).0 ≡ ok true
unfolding start
start_answers = refl
