-- ===== src/Configuration/Types.antt =====
-- configuration/types.go. A map is an association list, a nil map an empty one. The named string types
-- are texts; an int or an int64 is an integer.
use dire_agent.Prelude.{Bool, Option, List}
use dire_agent.Prelude.Text.{Text}
use dire_agent.Prelude.Int.{ℤ}
use dire_agent.Team.Types.{AgentProfile}

pub record ProjectLauncher : Type 0 where
  pub id : Text
  pub label : Text
  pub kind : Text
  pub icon : Text
  pub command : Text
  pub args : List Text
  pub shortcut : Text

pub record ModelSettings : Type 0 where
  pub provider : Text
  pub id : Text
  pub context_window : ℤ

pub record ThinkingSettings : Type 0 where
  pub level : Text

pub record ToolSettings : Type 0 where
  pub enabled : List Text
  pub sandbox : Text
  pub approval : Text

pub record QueueSettings : Type 0 where
  pub steering_mode : Text
  pub follow_up_mode : Text
  pub max_pending : ℤ

pub record SkillSettings : Type 0 where
  pub roots : List Text
  pub disabled : List Text
  pub trust : Text

pub record McpServer : Type 0 where
  pub transport : Text
  pub command : Text
  pub args : List Text
  pub inherit_env : Bool
  pub url : Text
  pub env : List (Text × Text)
  pub secret_env : List Text
  pub headers : List (Text × Text)
  pub secret_headers : List Text
  pub enabled_tools : List Text
  pub approval : Text
  pub tool_approvals : List (Text × Text)
  pub enabled : Bool

pub record McpSettings : Type 0 where
  pub servers : List (Text × McpServer)

pub record ExtensionSource : Type 0 where
  pub kind : Text
  pub location : Text
  pub ref : Text
  pub trust : Text
  pub enabled : Bool
  pub command : Text
  pub args : List Text
  pub env : List (Text × Text)
  pub secret_env : List Text
  pub inherit_env : Bool

pub record ExtensionSettings : Type 0 where
  pub sources : List (Text × ExtensionSource)
  pub allow_unsigned : Bool

pub record SubagentSettings : Type 0 where
  pub enabled : Bool
  pub max_depth : ℤ
  pub max_children : ℤ
  pub max_concurrent : ℤ
  pub allow_sibling_messages : Bool
  pub auto_report : Bool
  pub profiles : List (Text × AgentProfile)

pub record DesktopSettings : Type 0 where
  pub codex_home : Text
  pub desktop_config : Text
  pub sync_mode : Text
  pub sync_skills : Bool
  pub sync_mcp : Bool
  pub sync_extensions : Bool
  pub watch_for_changes : Bool

pub record StandaloneChatSettings : Type 0 where
  pub model : Text
  pub thinking : Text
  pub tools : List Text
  pub instructions : Text
  pub persist_history : Bool

pub record Settings : Type 0 where
  pub model : ModelSettings
  pub thinking : ThinkingSettings
  pub tools : ToolSettings
  pub queues : QueueSettings
  pub skills : SkillSettings
  pub mcp : McpSettings
  pub extensions : ExtensionSettings
  pub subagents : SubagentSettings
  -- A nil list is not an empty one.
  pub launchers : Option (List ProjectLauncher)
  pub desktop : DesktopSettings
  pub standalone_chat : StandaloneChatSettings
