-- ===== src/Team/Spawn.antt =====
-- daemon/subagents.go: `SpawnAgent` over the stored threads, and `newChildThread`.
use dire_agent.Prelude.{
  ℕ, ◌+◌, Bool, true, false, ◌&&◌, ◌||◌, not, Option, none, some, List, [], ◌∷◌, ◌++◌, leb, ltb,
  ◌==◌, if◌then◌else◌, length,
}
use dire_agent.Prelude.Text.{Text, codes, text_eq, trim_space, is_empty, byte_len}
use dire_agent.Prelude.Assoc.{lookup, contains}
use dire_agent.Prelude.Results.{Result, ok, err, fail_if, ◌>>=◌, ◌>>◌}
use dire_agent.Usage.{no_usage}
use dire_agent.Team.Types.{
  Thread, SpawnRequest, AgentProfile, SubagentSettings, idle, running, team_root_id,
  first_non_empty,
}
use dire_agent.Team.Policy.{
  Refusal, parent_required, invalid_name, invalid_task, role_too_long, invalid_thinking,
  unknown_thread, unknown_profile, call_failed, prompt_failed, not_created, validate_spawn_policy,
  enforce_team_limits,
}
use dire_agent.Team.Tools.{is_team_tool, narrow_agent_tools}
use dire_agent.Prelude.Sets.{select}

is_alphanumeric : ℕ → Bool
is_alphanumeric c =
    (leb b'A' c && leb c b'Z') || (leb b'a' c && leb c b'z') || (leb b'0' c && leb c b'9')

is_name_character : ℕ → Bool
unfolding is_alphanumeric
is_name_character c = is_alphanumeric c || (c == b'_') || (c == b'.') || (c == b'-')

unfoldable pub all_in : (ℕ → Bool) → Text → Bool
all_in p [] = true
all_in p (c ∷ s) = p c && all_in p s

-- `^[A-Za-z0-9][A-Za-z0-9_.-]{0,63}$`.
unfoldable pub valid_agent_name : Text → Bool
unfolding is_name_character all_in
valid_agent_name [] = false
valid_agent_name (c ∷ s) = is_alphanumeric c && all_in is_name_character s && leb (length s) 63

abbrev thinking_levels : List Text
thinking_levels =
    codes "off"
    ∷ codes "none"
    ∷ codes "minimal"
    ∷ codes "low"
    ∷ codes "medium"
    ∷ codes "high"
    ∷ codes "xhigh"
    ∷ codes "max"
    ∷ []

unfoldable pub valid_thinking_level : Text → Bool
unfolding contains
valid_thinking_level level = contains thinking_levels level

unfoldable pub trim_request : SpawnRequest → SpawnRequest
unfolding trim_space
trim_request r = record r {
  name = trim_space r.name;
  task = trim_space r.task;
  profile = trim_space r.profile;
  role = trim_space r.role;
  model = trim_space r.model;
  thinking = trim_space r.thinking;
}

unfoldable pub check_request : SpawnRequest → Result Refusal (Unit {0})
unfolding valid_agent_name valid_thinking_level byte_len
check_request r = do
  fail_if (is_empty r.parent_id) parent_required
  fail_if (not (valid_agent_name r.name)) invalid_name
  fail_if (is_empty r.task || ltb 100000 (byte_len r.task)) invalid_task
  fail_if (ltb 256 (byte_len r.role)) role_too_long
  fail_if (not (is_empty r.thinking) && not (valid_thinking_level r.thinking)) invalid_thinking

abbrev pub builtin_names : List Text
builtin_names =
    codes "bash"
    ∷ codes "edit"
    ∷ codes "find"
    ∷ codes "grep"
    ∷ codes "ls"
    ∷ codes "read"
    ∷ codes "write"
    ∷ []

-- The thread with an ID.
unfoldable pub find_thread : Text → List Thread → Option Thread
find_thread id [] = none
find_thread id (t ∷ ts) = if text_eq t.id id then some t else find_thread id ts

-- `listTeamThreads`: the root and the threads under it.
unfoldable pub team_of : Text → List Thread → List Thread
team_of root [] = []
team_of root (t ∷ ts) =
    if text_eq t.id root || text_eq t.root_id root then t ∷ team_of root ts else team_of root ts

unfoldable pub or_refuse : {A : Type 0} → Option A → Refusal → Result Refusal A
or_refuse none e = err e
or_refuse (some a) e = ok a

-- What the manager meets beside the store: the settings of the root, the tools that the parent's
-- runtime offers, `%q` of the standard library, the context windows of the model catalog (0 where it
-- has none), and the errors of the calls, in their order: refreshing the parent's capabilities, reading
-- the settings, listing the team, making the fresh ID or the child's database, the first prompt, and
-- reading the child again.
pub record Surroundings : Type 0 where
  pub policy : SubagentSettings
  pub runtime_tools : List Text
  pub quote : Text → Text
  pub context_window : Text → ℕ
  pub capabilities_error : Option Text
  pub settings_error : Option Text
  pub list_error : Option Text
  pub create_error : Option Text
  pub prompt_error : Option Text
  pub thread_error : Option Text

unfoldable pub combine_instructions : Text → Text → Text
unfolding trim_space
combine_instructions user generated =
    let u = trim_space user in
    let g = trim_space generated in
    if is_empty u then g else if is_empty g then u else u ++ codes "\n\n" ++ g

unfoldable pub child_agent_instructions : Surroundings → Thread → SpawnRequest → Text
child_agent_instructions s parent r =
    let role = if is_empty r.role then codes "independent collaborator" else r.role in
    codes "You are subagent "
    ++ s.quote r.name
    ++ codes " ("
    ++ r.profile
    ++ codes "), a "
    ++ role
    ++ codes " in conversation team "
    ++ s.quote (team_root_id parent)
    ++ codes
        ". Work on the assigned task, stay within inherited permissions, and communicate useful findings or blockers to your parent with send_agent_message. Do not claim work you have not verified."

unfoldable pub new_child_thread :
    Surroundings → Text → Thread → SpawnRequest → AgentProfile → List Text → Thread
unfolding first_non_empty select contains combine_instructions child_agent_instructions
new_child_thread s id parent r profile allowed = record {
  id = id;
  kind = parent.kind;
  settings_id = parent.settings_id;
  parent_id = parent.id;
  root_id = team_root_id parent;
  agent_name = r.name;
  agent_role = r.role;
  agent_profile = r.profile;
  agent_tools = allowed;
  depth = parent.depth + 1;
  name = r.name;
  model = first_non_empty (r.model ∷ profile.model ∷ parent.model ∷ []);
  cwd = parent.cwd;
  additional_folders = parent.additional_folders;
  instructions = combine_instructions profile.instructions (child_agent_instructions s parent r);
  thinking_level = first_non_empty (r.thinking ∷ profile.thinking ∷ parent.thinking_level ∷ []);
  steering_mode = parent.steering_mode;
  follow_up_mode = parent.follow_up_mode;
  tools = select (contains builtin_names) allowed;
  usage = record no_usage {
    context_window =
        s.context_window (first_non_empty (r.model ∷ profile.model ∷ parent.model ∷ []));
  };
  status = idle;
}

-- The child is stored. Its prompt starts a run, after which the child is read again; where one of these
-- fails, its error is returned and the child stays.
abbrev pub start_child :
    Option Text → Option Text → Thread → List Thread → List Thread × Result Refusal Thread
start_child none none child store =
    let started : Thread = record child { status = running } in (started ∷ store, ok started)
start_child none (some e) child store =
    let started : Thread = record child { status = running } in
    (started ∷ store, err (call_failed e))
start_child (some e) thread_error child store = (child ∷ store, err (prompt_failed e))

-- The error of a call, if it has one.
abbrev pub passed : Option Text → Result Refusal (Unit {0})
passed none = ok tt
passed (some e) = err (call_failed e)

abbrev pub keep_store : {A : Type 0} → List Thread → Refusal → List Thread × Result Refusal A
keep_store store e = (store, err e)

-- `newAgentID` and `createResource`.
abbrev pub created : Option Text → Result Refusal (Unit {0})
created none = ok tt
created (some e) = err (not_created e)

-- What is checked before the child is made: its parent, profile and tools.
unfoldable pub admit_child :
    Surroundings → List Thread → SpawnRequest → Result Refusal (Thread × AgentProfile × List Text)
unfolding check_request find_thread or_refuse validate_spawn_policy narrow_agent_tools team_of
    enforce_team_limits
admit_child s store r = do
  check_request r
  parent ← or_refuse (find_thread r.parent_id store) (unknown_thread r.parent_id)
  passed s.capabilities_error
  passed s.settings_error
  profile ← or_refuse (lookup r.profile s.policy.profiles) (unknown_profile r.profile)
  validate_spawn_policy parent s.policy
  allowed ←
      narrow_agent_tools parent (select (λ name. not (is_team_tool name)) s.runtime_tools) profile
        r.tools
  passed s.list_error
  enforce_team_limits (team_of (team_root_id parent) store) parent.id s.policy
  created s.create_error
  ok (parent, profile, allowed)

abbrev pub default_profile : SpawnRequest → SpawnRequest
default_profile r = record r {
  profile = (if is_empty r.profile then codes "general" else r.profile);
}

-- `id` is the fresh agent ID.
unfoldable pub spawn_agent :
    Surroundings → List Thread → SpawnRequest → Text → List Thread × Result Refusal Thread
unfolding trim_request admit_child new_child_thread
spawn_agent s store request id =
    let r = default_profile (trim_request request) in
    elim (admit_child s store r) [
      | err e ↦ keep_store store e
      | ok (parent, profile, allowed) ↦
          start_child s.prompt_error s.thread_error (new_child_thread s id parent r profile allowed)
            store
    ]
