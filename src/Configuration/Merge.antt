-- ===== src/Configuration/Merge.antt =====
-- configuration/merge.go: a project's overrides on the global settings. Clones are the values
-- themselves here.
use dire_agent.Prelude.{Bool, true, false, Option, none, some, List, [], ◌∷◌}
use dire_agent.Prelude.Text.{Text}
use dire_agent.Prelude.Assoc.{lookup, insert, delete}
use dire_agent.Configuration.Types.{
  ModelSettings, ThinkingSettings, ToolSettings, QueueSettings, SkillSettings, McpServer,
  ProjectLauncher, McpSettings, ExtensionSource, ExtensionSettings, SubagentSettings,
  DesktopSettings, StandaloneChatSettings, Settings,
}
use dire_agent.Configuration.Patch.{
  ModelPatch, ThinkingPatch, ToolPatch, QueuePatch, SkillPatch, McpServerPatch, McpPatch,
  ExtensionSourcePatch, ExtensionPatch, SubagentPatch, DesktopPatch, StandaloneChatPatch,
  SettingsPatch, ProjectOverride, Config,
}

-- `if p != nil { dst = *p }`.
abbrev pub or_keep {ℓ} : {A : Type ℓ} → Option A → A → A
or_keep none a = a
or_keep (some b) a = b

-- `if p := patch; p != nil { … }`.
abbrev pub apply_some : {S P : Type 0} → (S → P → S) → S → Option P → S
apply_some apply s none = s
apply_some apply s (some p) = apply s p

-- The zero value of a missing key.
abbrev pub no_server : McpServer
no_server = record {
  transport = [];
  command = [];
  args = [];
  inherit_env = false;
  url = [];
  env = [];
  secret_env = [];
  headers = [];
  secret_headers = [];
  enabled_tools = [];
  approval = [];
  tool_approvals = [];
  enabled = false;
}

abbrev pub no_source : ExtensionSource
no_source = record {
  kind = [];
  location = [];
  ref = [];
  trust = [];
  enabled = false;
  command = [];
  args = [];
  env = [];
  secret_env = [];
  inherit_env = false;
}

unfoldable pub apply_model_patch : ModelSettings → ModelPatch → ModelSettings
apply_model_patch s p = record {
  provider = or_keep p.provider s.provider;
  id = or_keep p.id s.id;
  context_window = or_keep p.context_window s.context_window;
}

unfoldable pub apply_thinking_patch : ThinkingSettings → ThinkingPatch → ThinkingSettings
apply_thinking_patch s p = record { level = or_keep p.level s.level }

unfoldable pub apply_tool_patch : ToolSettings → ToolPatch → ToolSettings
apply_tool_patch s p = record {
  enabled = or_keep p.enabled s.enabled;
  sandbox = or_keep p.sandbox s.sandbox;
  approval = or_keep p.approval s.approval;
}

unfoldable pub apply_queue_patch : QueueSettings → QueuePatch → QueueSettings
apply_queue_patch s p = record {
  steering_mode = or_keep p.steering_mode s.steering_mode;
  follow_up_mode = or_keep p.follow_up_mode s.follow_up_mode;
  max_pending = or_keep p.max_pending s.max_pending;
}

unfoldable pub apply_skill_patch : SkillSettings → SkillPatch → SkillSettings
apply_skill_patch s p = record {
  roots = or_keep p.roots s.roots;
  disabled = or_keep p.disabled s.disabled;
  trust = or_keep p.trust s.trust;
}

unfoldable pub apply_mcp_server_patch : McpServer → McpServerPatch → McpServer
apply_mcp_server_patch s p = record {
  transport = or_keep p.transport s.transport;
  command = or_keep p.command s.command;
  args = or_keep p.args s.args;
  inherit_env = or_keep p.inherit_env s.inherit_env;
  url = or_keep p.url s.url;
  env = or_keep p.env s.env;
  secret_env = or_keep p.secret_env s.secret_env;
  headers = or_keep p.headers s.headers;
  secret_headers = or_keep p.secret_headers s.secret_headers;
  enabled_tools = or_keep p.enabled_tools s.enabled_tools;
  approval = or_keep p.approval s.approval;
  tool_approvals = or_keep p.tool_approvals s.tool_approvals;
  enabled = or_keep p.enabled s.enabled;
}

unfoldable pub apply_source_patch : ExtensionSource → ExtensionSourcePatch → ExtensionSource
apply_source_patch s p = record {
  kind = or_keep p.kind s.kind;
  location = or_keep p.location s.location;
  ref = or_keep p.ref s.ref;
  trust = or_keep p.trust s.trust;
  enabled = or_keep p.enabled s.enabled;
  command = or_keep p.command s.command;
  args = or_keep p.args s.args;
  env = or_keep p.env s.env;
  secret_env = or_keep p.secret_env s.secret_env;
  inherit_env = or_keep p.inherit_env s.inherit_env;
}

unfoldable pub apply_subagent_patch : SubagentSettings → SubagentPatch → SubagentSettings
apply_subagent_patch s p = record {
  enabled = or_keep p.enabled s.enabled;
  max_depth = or_keep p.max_depth s.max_depth;
  max_children = or_keep p.max_children s.max_children;
  max_concurrent = or_keep p.max_concurrent s.max_concurrent;
  allow_sibling_messages = or_keep p.allow_sibling_messages s.allow_sibling_messages;
  auto_report = or_keep p.auto_report s.auto_report;
  profiles = or_keep p.profiles s.profiles;
}

unfoldable pub apply_desktop_patch : DesktopSettings → DesktopPatch → DesktopSettings
apply_desktop_patch s p = record {
  codex_home = or_keep p.codex_home s.codex_home;
  desktop_config = or_keep p.desktop_config s.desktop_config;
  sync_mode = or_keep p.sync_mode s.sync_mode;
  sync_skills = or_keep p.sync_skills s.sync_skills;
  sync_mcp = or_keep p.sync_mcp s.sync_mcp;
  sync_extensions = or_keep p.sync_extensions s.sync_extensions;
  watch_for_changes = or_keep p.watch_for_changes s.watch_for_changes;
}

unfoldable pub apply_standalone_patch :
    StandaloneChatSettings → StandaloneChatPatch → StandaloneChatSettings
apply_standalone_patch s p = record {
  model = or_keep p.model s.model;
  thinking = or_keep p.thinking s.thinking;
  tools = or_keep p.tools s.tools;
  instructions = or_keep p.instructions s.instructions;
  persist_history = or_keep p.persist_history s.persist_history;
}

abbrev pub or_zero {ℓ} : {A : Type ℓ} → A → Option A → A
or_zero zero none = zero
or_zero zero (some a) = a

module _ {S P : Type 0} (apply : S → P → S) (zero : S) where
  -- The loop over the patches of a map's entries.
  unfoldable pub patch_entries : List (Text × P) → List (Text × S) → List (Text × S)
  unfolding lookup insert
  patch_entries [] m = m
  patch_entries ((name, p) ∷ ps) m =
      patch_entries ps (insert name (apply (or_zero zero (lookup name m)) p) m)

unfoldable pub remove_entries : {V : Type 0} → List Text → List (Text × V) → List (Text × V)
unfolding delete
remove_entries [] m = m
remove_entries (name ∷ names) m = remove_entries names (delete name m)

unfoldable pub apply_mcp_patch : McpSettings → McpPatch → McpSettings
unfolding apply_mcp_server_patch patch_entries remove_entries
apply_mcp_patch s p = record {
  servers =
      remove_entries p.remove_servers
        (patch_entries apply_mcp_server_patch no_server p.servers s.servers);
}

unfoldable pub apply_extension_patch : ExtensionSettings → ExtensionPatch → ExtensionSettings
unfolding apply_source_patch patch_entries remove_entries
apply_extension_patch s p = record {
  sources =
      remove_entries p.remove_sources
        (patch_entries apply_source_patch no_source p.sources s.sources);
  allow_unsigned = or_keep p.allow_unsigned s.allow_unsigned;
}

-- A pointer to a list replaces a list that may be nil.
abbrev or_launchers :
    Option (List ProjectLauncher) → Option (List ProjectLauncher) → Option (List ProjectLauncher)
or_launchers none s = s
or_launchers (some p) s = some p

unfoldable pub apply_patch : Settings → SettingsPatch → Settings
unfolding apply_model_patch apply_thinking_patch apply_tool_patch apply_queue_patch
    apply_skill_patch apply_mcp_patch apply_extension_patch apply_subagent_patch apply_desktop_patch
    apply_standalone_patch
apply_patch s p = record {
  model = apply_some apply_model_patch s.model p.model;
  thinking = apply_some apply_thinking_patch s.thinking p.thinking;
  tools = apply_some apply_tool_patch s.tools p.tools;
  queues = apply_some apply_queue_patch s.queues p.queues;
  skills = apply_some apply_skill_patch s.skills p.skills;
  mcp = apply_some apply_mcp_patch s.mcp p.mcp;
  extensions = apply_some apply_extension_patch s.extensions p.extensions;
  subagents = apply_some apply_subagent_patch s.subagents p.subagents;
  launchers = or_launchers p.launchers s.launchers;
  desktop = apply_some apply_desktop_patch s.desktop p.desktop;
  standalone_chat = apply_some apply_standalone_patch s.standalone_chat p.standalone_chat;
}

override_of : Settings → Option ProjectOverride → Settings × Bool
override_of s none = (s, false)
override_of s (some project) = (apply_patch s project.settings, true)

-- `Effective`, and whether the project exists.
unfoldable pub effective : Config → Text → Settings × Bool
unfolding lookup apply_patch override_of
effective c id = override_of c.global (lookup id c.projects)
