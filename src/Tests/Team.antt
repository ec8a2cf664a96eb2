-- ===== src/Tests/Team.antt =====
-- A team of a root, an agent under it and one under that.
use dire_agent.Prelude.{
  ℕ, ◌<◌, ◌⊎◌, inl, inr, sym, ◌≡◌, ◌↔◌, refl, Bool, true, false, none, some, List, [], ◌∷◌, ◌++◌,
  All, arith,
}
use mathlib.Core.Path.{subst}
use dire_agent.Prelude.Text.{Text, codes, text_eq, text_eq_iff, is_empty}
use dire_agent.Prelude.Assoc.{lookup}
use dire_agent.Prelude.Sets.{Sub}
use dire_agent.Prelude.Results.{Result, ok, err}
use dire_agent.Usage.{no_usage}
use dire_agent.Team.Types.{Thread, SpawnRequest, AgentProfile, SubagentSettings, idle, project}
use dire_agent.Team.Policy.{Refusal, count_children, count_running}
use dire_agent.Team.Tools.{is_team_tool}
use dire_agent.Team.Spawn.{Surroundings, spawn_agent, team_of, find_thread}
use dire_agent.Team.Route.{RouteCalls, is_ancestor, authorize_team_route}
use dire_agent.Team.Grants.{
  effective_subagent_tools, effective_subagent_tools-Permits, Above, parent, further, Permits,
  Local,
}
use dire_agent.Team.Ancestry.{Ancestor, IsTeam, is_ancestor-Ancestor}
use dire_agent.Team.Limits.{WithinLimits, spawn_agent-WithinLimits}
use dire_agent.Team.Granting.{Endowed, spawn_agent-Endowed}
use dire_agent.Team.RouteLaws.{authorize_team_route_sym}
use dire_agent.Team.Route.{by_id}
use dire_agent.Team.Wait.{select_wait_agents}
use dire_agent.Team.WaitLaws.{Awaited, select_wait_agents-All}
use dire_agent.Team.Mailbox.{
  Message, sends, drains, received, addressed, mailbox, received-addressed,
}

abbrev thread_at : Text → Text → Text → ℕ → List Text → Thread
thread_at id parent_id root_id depth granted = record {
  id = id;
  kind = project;
  settings_id = id;
  parent_id = parent_id;
  root_id = root_id;
  agent_name = id;
  agent_role = [];
  agent_profile = codes "general";
  agent_tools = granted;
  depth = depth;
  name = id;
  model = codes "m";
  cwd = codes "/w";
  additional_folders = [];
  instructions = [];
  thinking_level = codes "low";
  steering_mode = codes "all";
  follow_up_mode = codes "all";
  tools = codes "read" ∷ codes "bash" ∷ [];
  usage = no_usage;
  status = idle;
}

abbrev top : Thread
top = thread_at (codes "r") [] [] 0 []

abbrev middle : Thread
middle = thread_at (codes "a") (codes "r") (codes "r") 1 (codes "read" ∷ codes "web" ∷ [])

abbrev low : Thread
low =
    thread_at (codes "b") (codes "a") (codes "r") 2
      (codes "web" ∷ codes "write" ∷ codes "read" ∷ codes "ssh" ∷ [])

abbrev store : List Thread
store = top ∷ middle ∷ low ∷ []

abbrev members : List (Text × Thread)
members = (codes "r", top) ∷ (codes "a", middle) ∷ (codes "b", low) ∷ []

abbrev general : AgentProfile
general = record {
  description = [];
  instructions = codes "help";
  model = [];
  thinking = [];
  tools = some (codes "read" ∷ codes "web" ∷ codes "bash" ∷ []);
  can_spawn = true;
}

abbrev policy : SubagentSettings
policy = record {
  enabled = true;
  max_depth = 3;
  max_children = 3;
  max_concurrent = 4;
  allow_sibling_messages = false;
  auto_report = true;
  profiles = (codes "general", general) ∷ [];
}

abbrev surroundings : Surroundings
surroundings = record {
  policy = policy;
  runtime_tools = codes "read" ∷ codes "web" ∷ codes "spawn_agent" ∷ [];
  quote = λ s. s;
  context_window = λ m. 1000;
  capabilities_error = none;
  settings_error = none;
  list_error = none;
  create_error = none;
  prompt_error = none;
  thread_error = none;
}

abbrev request : SpawnRequest
request = record {
  parent_id = codes "a";
  name = codes "helper";
  profile = [];
  role = [];
  task = codes "look";
  model = [];
  thinking = [];
  tools = some (codes "web" ∷ []);
}

store-WithinLimits : WithinLimits policy store
unfolding team_of count_children count_running
store-WithinLimits = record {
  children = λ root parent. ground arith;
  running = λ root. ground arith;
  deep = (omega arith, (omega arith, (omega arith, tt)));
}

spawn_agent-WithinLimits_example :
    WithinLimits policy (spawn_agent surroundings store request (codes "c")).0
spawn_agent-WithinLimits_example =
    spawn_agent-WithinLimits surroundings store request (codes "c") (unfold team_of text_eq in refl)
      store-WithinLimits

-- The child of the request, read off the run.
abbrev spawned : Thread
spawned = child_of (spawn_agent surroundings store request (codes "c")).1
  where
    child_of : Result Refusal Thread → Thread
    child_of (ok t) = t
    child_of (err e) = top

spawned-ok : (spawn_agent surroundings store request (codes "c")).1 ≡ ok spawned
unfolding spawn_agent text_eq lookup is_team_tool
spawned-ok = refl

spawn_agent-Endowed_example :
    Endowed surroundings store request
      (spawn_agent surroundings store request (codes "c")).0
      spawned
spawn_agent-Endowed_example =
    spawn_agent-Endowed surroundings store request (codes "c") spawned spawned-ok

low-Above : Above store low top
unfolding find_thread text_eq
low-Above = further {p = middle} refl refl (parent {t = middle} refl refl)

low-tools : effective_subagent_tools store low ≡ ok (codes "web" ∷ codes "read" ∷ [])
unfolding effective_subagent_tools text_eq
low-tools = refl

effective_subagent_tools-Permits_example :
    Sub (codes "web" ∷ codes "read" ∷ []) low.agent_tools
    × All (Local low) (codes "web" ∷ codes "read" ∷ [])
    × Permits top (codes "web" ∷ codes "read" ∷ [])
effective_subagent_tools-Permits_example =
    effective_subagent_tools-Permits store low top (codes "web" ∷ codes "read" ∷ []) low-tools
      low-Above

one_of : (k : Text) (t : Thread) → lookup k members ≡ some t → (t ≡ top) ⊎ (t ≡ middle) ⊎ (t ≡ low)
unfolding lookup
one_of k t e = ground arith

-- A thread's parent is less deep.
abbrev Ranked : Thread → Thread → Type 0
Ranked p t = is_empty t.parent_id ≡ false → lookup t.parent_id members ≡ some p → p.depth < t.depth

members-Ranked : (t p : Thread) → (t ≡ top) ⊎ (t ≡ middle) ⊎ (t ≡ low) → Ranked p t
unfolding lookup text_eq
members-Ranked t p (inl e) = subst (Ranked p) (sym e) (λ ne f. ground arith)
members-Ranked t p (inr (inl e)) = subst (Ranked p) (sym e) (λ ne f. ground arith)
members-Ranked t p (inr (inr e)) = subst (Ranked p) (sym e) (λ ne f. ground arith)

members-IsTeam : IsTeam members
unfolding lookup text_eq
members-IsTeam = record {
  keyed = λ k t e.
      ground
        (arith, text_eq_iff k (codes "r"), text_eq_iff k (codes "a"), text_eq_iff k (codes "b"));
  ranked = λ k t p e. members-Ranked t p (one_of k t e);
}

low-member : lookup (codes "b") members ≡ some low
unfolding lookup text_eq
low-member = refl

is_ancestor-Ancestor_example :
    (b : Bool) × (is_ancestor (codes "r") (codes "b") members ≡ some b)
    × ((b ≡ true) ↔ Ancestor members (codes "r") low)
is_ancestor-Ancestor_example =
    is_ancestor-Ancestor members (codes "r") (codes "b") low members-IsTeam low-member

abbrev calls : RouteCalls
calls = record { policy = policy; settings_error = none; list_error = none }

down-route : authorize_team_route calls store (codes "a") (codes "b") ≡ some (ok (middle, low))
unfolding authorize_team_route text_eq
down-route = refl

store-members : by_id (team_of (codes "r") store) ≡ members
unfolding by_id team_of text_eq
store-members = refl

store-IsTeam : IsTeam (by_id (team_of (codes "r") store))
store-IsTeam = subst IsTeam (sym store-members) members-IsTeam

authorize_team_route_sym_example :
    authorize_team_route calls store (codes "b") (codes "a") ≡ some (ok (low, middle))
authorize_team_route_sym_example =
    authorize_team_route_sym calls store (codes "a") (codes "b") middle low store-IsTeam down-route

abbrev note : Message
note = record { id = codes "1"; from_id = codes "a"; to_id = codes "b"; content = codes "hello" }

received-addressed_example :
    received (codes "b") (sends note ∷ drains (codes "b") ∷ sends note ∷ []) []
    ≡ mailbox (codes "b") []
      ++ addressed (codes "b") (sends note ∷ drains (codes "b") ∷ sends note ∷ [])
received-addressed_example =
    received-addressed (codes "b") (sends note ∷ drains (codes "b") ∷ sends note ∷ []) []

waits-low : select_wait_agents (codes "r") store (codes "b" ∷ codes "b" ∷ []) ≡ some (ok (low ∷ []))
unfolding select_wait_agents lookup text_eq
waits-low = refl

select_wait_agents-All_example :
    All (Awaited (codes "r") (by_id store) (codes "b" ∷ codes "b" ∷ [])) (low ∷ [])
select_wait_agents-All_example =
    select_wait_agents-All (codes "r") store (codes "b") (codes "b" ∷ []) (low ∷ []) waits-low
