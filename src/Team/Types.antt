-- ===== src/Team/Types.antt =====
-- threadstore/types.go `Thread`, agentteam/types.go `SpawnRequest` and the subagent settings of
-- configuration/types.go. Of a thread, its category, worktree and time stamps are left out.
use dire_agent.Prelude.{ℕ, Bool, true, false, not, Option, List, [], ◌∷◌, if◌then◌else◌}
use dire_agent.Prelude.Text.{Text, is_empty, is_blank}
use dire_agent.Agent.{Usage}

-- `Status`: the words that the daemon writes.
pub data Status : Type 0 where
  idle running interrupted failed completed : Status

abbrev pub is_running : Status → Bool
is_running running = true
is_running _ = false

-- `ResourceKind()`: every word but "chat" is a project.
pub data Kind : Type 0 where
  project chat : Kind

pub record Thread : Type 0 where
  pub id : Text
  pub kind : Kind
  pub settings_id : Text
  pub parent_id : Text
  pub root_id : Text
  pub agent_name : Text
  pub agent_role : Text
  pub agent_profile : Text
  pub agent_tools : List Text
  pub depth : ℕ
  pub name : Text
  pub model : Text
  pub cwd : Text
  pub additional_folders : List Text
  pub instructions : Text
  pub thinking_level : Text
  pub steering_mode : Text
  pub follow_up_mode : Text
  pub tools : List Text
  pub usage : Usage
  pub status : Status

abbrev pub is_subagent : Thread → Bool
is_subagent t = not (is_empty t.parent_id)

-- `teamRootID`.
abbrev pub team_root_id : Thread → Text
team_root_id t = if not (is_empty t.root_id) then t.root_id else t.id

pub record SpawnRequest : Type 0 where
  pub parent_id : Text
  pub name : Text
  pub profile : Text
  pub role : Text
  pub task : Text
  pub model : Text
  pub thinking : Text
  -- `nil` inherits, an empty list grants nothing.
  pub tools : Option (List Text)

pub record AgentProfile : Type 0 where
  pub description : Text
  pub instructions : Text
  pub model : Text
  pub thinking : Text
  -- `nil` inherits the tools of the parent.
  pub tools : Option (List Text)
  pub can_spawn : Bool

-- The limits are positive where the configuration is valid.
pub record SubagentSettings : Type 0 where
  pub enabled : Bool
  pub max_depth : ℕ
  pub max_children : ℕ
  pub max_concurrent : ℕ
  pub allow_sibling_messages : Bool
  pub auto_report : Bool
  pub profiles : List (Text × AgentProfile)

unfoldable pub first_non_empty : List Text → Text
first_non_empty [] = []
first_non_empty (v ∷ vs) = if not (is_blank v) then v else first_non_empty vs
