-- ===== src/Configuration/Patch.antt =====
-- configuration/patch.go: what a project overrides. A nil pointer is `none`.
use dire_agent.Prelude.{ℕ, Bool, Option, List}
use dire_agent.Prelude.Text.{Text}
use dire_agent.Prelude.Int.{ℤ}
use dire_agent.Team.Types.{AgentProfile}
use dire_agent.Configuration.Types.{ProjectLauncher, Settings}

pub record ModelPatch : Type 0 where
  pub provider : Option Text
  pub id : Option Text
  pub context_window : Option ℤ

pub record ThinkingPatch : Type 0 where
  pub level : Option Text

pub record ToolPatch : Type 0 where
  pub enabled : Option (List Text)
  pub sandbox : Option Text
  pub approval : Option Text

pub record QueuePatch : Type 0 where
  pub steering_mode : Option Text
  pub follow_up_mode : Option Text
  pub max_pending : Option ℤ

pub record SkillPatch : Type 0 where
  pub roots : Option (List Text)
  pub disabled : Option (List Text)
  pub trust : Option Text

pub record McpServerPatch : Type 0 where
  pub transport : Option Text
  pub command : Option Text
  pub args : Option (List Text)
  pub inherit_env : Option Bool
  pub url : Option Text
  pub env : Option (List (Text × Text))
  pub secret_env : Option (List Text)
  pub headers : Option (List (Text × Text))
  pub secret_headers : Option (List Text)
  pub enabled_tools : Option (List Text)
  pub approval : Option Text
  pub tool_approvals : Option (List (Text × Text))
  pub enabled : Option Bool

pub record McpPatch : Type 0 where
  pub servers : List (Text × McpServerPatch)
  pub remove_servers : List Text

pub record ExtensionSourcePatch : Type 0 where
  pub kind : Option Text
  pub location : Option Text
  pub ref : Option Text
  pub trust : Option Text
  pub enabled : Option Bool
  pub command : Option Text
  pub args : Option (List Text)
  pub env : Option (List (Text × Text))
  pub secret_env : Option (List Text)
  pub inherit_env : Option Bool

pub record ExtensionPatch : Type 0 where
  pub sources : List (Text × ExtensionSourcePatch)
  pub remove_sources : List Text
  pub allow_unsigned : Option Bool

pub record SubagentPatch : Type 0 where
  pub enabled : Option Bool
  pub max_depth : Option ℤ
  pub max_children : Option ℤ
  pub max_concurrent : Option ℤ
  pub allow_sibling_messages : Option Bool
  pub auto_report : Option Bool
  pub profiles : Option (List (Text × AgentProfile))

pub record DesktopPatch : Type 0 where
  pub codex_home : Option Text
  pub desktop_config : Option Text
  pub sync_mode : Option Text
  pub sync_skills : Option Bool
  pub sync_mcp : Option Bool
  pub sync_extensions : Option Bool
  pub watch_for_changes : Option Bool

pub record StandaloneChatPatch : Type 0 where
  pub model : Option Text
  pub thinking : Option Text
  pub tools : Option (List Text)
  pub instructions : Option Text
  pub persist_history : Option Bool

pub record SettingsPatch : Type 0 where
  pub model : Option ModelPatch
  pub thinking : Option ThinkingPatch
  pub tools : Option ToolPatch
  pub queues : Option QueuePatch
  pub skills : Option SkillPatch
  pub mcp : Option McpPatch
  pub extensions : Option ExtensionPatch
  pub subagents : Option SubagentPatch
  pub launchers : Option (List ProjectLauncher)
  pub desktop : Option DesktopPatch
  pub standalone_chat : Option StandaloneChatPatch

pub record ProjectOverride : Type 0 where
  pub folder : Text
  pub settings : SettingsPatch

-- configuration/types.go.
pub record Config : Type 0 where
  pub version : ℤ
  pub revision : ℕ
  pub global : Settings
  pub projects : List (Text × ProjectOverride)
