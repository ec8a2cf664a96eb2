-- ===== src/Configuration/Validate.antt =====
-- configuration/validate.go: `Validate`, with the settings of every project as they take effect.
use dire_agent.Prelude.{◌≡◌, All, Bool, false, ◌||◌, not, Option, none, some, List, ◌++◌, ◌==◌}
use dire_agent.Prelude.Text.{Text, codes, is_blank}
use dire_agent.Prelude.Assoc.{contains, keys}
use dire_agent.Prelude.Int.{ℤ, pos, negsuc, is_negative, is_not_positive}
use dire_agent.Prelude.Results.{ok, fail_if, ◌>>◌, >>-ok, fail_if-ok}
use dire_agent.Configuration.Types.{
  ModelSettings, ThinkingSettings, QueueSettings, StandaloneChatSettings, Settings,
}
use dire_agent.Configuration.Patch.{
  McpPatch, ExtensionPatch, SettingsPatch, ProjectOverride, Config,
}
use dire_agent.Configuration.Merge.{effective}
use dire_agent.Configuration.Values
use dire_agent.Configuration.Launchers.{validate_launchers}
use dire_agent.Configuration.Parts

unfoldable pub validate_names : List Text → Text → Values.Check
unfolding Values.unique_non_empty Values.each Values.config_name
validate_names values label = do
  Values.unique_non_empty values (label ++ codes " names")
  Values.each (λ value. fail_if (not (Values.config_name value)) (Values.invalid_name label value))
      values

unfoldable pub check_mcp_patch : Text → Option McpPatch → Values.Check
unfolding validate_names Values.each contains keys
check_mcp_patch project_id none = ok tt
check_mcp_patch project_id (some patch) = do
  validate_names patch.remove_servers (codes "removed MCP server")
  Values.each
      (λ name.
        fail_if (contains patch.remove_servers name)
          (Values.patched_and_removed_server project_id name))
      (keys patch.servers)

unfoldable pub check_extension_patch : Text → Option ExtensionPatch → Values.Check
unfolding validate_names Values.each contains keys
check_extension_patch project_id none = ok tt
check_extension_patch project_id (some patch) = do
  validate_names patch.remove_sources (codes "removed extension source")
  Values.each
      (λ name.
        fail_if (contains patch.remove_sources name)
          (Values.patched_and_removed_extension project_id name))
      (keys patch.sources)

unfoldable pub validate_patch : SettingsPatch → Text → Values.Check
unfolding check_mcp_patch check_extension_patch
validate_patch patch project_id = do
  check_mcp_patch project_id patch.mcp
  check_extension_patch project_id patch.extensions

unfoldable pub check_model : ModelSettings → ThinkingSettings → Text → Values.Check
unfolding is_blank Values.valid_thinking
check_model model thinking scope = do
  fail_if (is_blank model.provider || is_blank model.id) (Values.model_required scope)
  fail_if (is_negative model.context_window) (Values.negative_context_window scope)
  fail_if (not (Values.valid_thinking thinking.level))
      (Values.invalid_thinking scope thinking.level)

unfoldable pub check_queues : QueueSettings → Text → Values.Check
unfolding Values.valid_queue
check_queues queues scope = do
  fail_if
      (not (Values.valid_queue queues.steering_mode)
        || not (Values.valid_queue queues.follow_up_mode))
      (Values.invalid_queue_mode scope)
  fail_if (is_not_positive queues.max_pending) (Values.max_pending_not_positive scope)

unfoldable pub check_standalone : StandaloneChatSettings → Text → Values.Check
unfolding is_blank Values.valid_thinking Values.unique_non_empty
check_standalone chat scope = do
  fail_if (is_blank chat.model) (Values.chat_model_required scope)
  fail_if (not (Values.valid_thinking chat.thinking)) (Values.invalid_chat_thinking scope)
  Values.unique_non_empty chat.tools (scope ++ codes " standalone chat tools")

-- `CurrentVersion`.
unfoldable pub is_current : ℤ → Bool
is_current (pos n) = n == 1
is_current (negsuc n) = false

module _ (p : Values.Platform) where
  unfoldable pub validate_settings : Settings → Text → Values.Check
  unfolding check_model check_queues check_standalone validate_launchers Parts.validate_tools
      Parts.validate_skills Parts.validate_mcp Parts.validate_extensions Parts.validate_subagents
      Parts.validate_desktop
  validate_settings settings scope = do
    check_model settings.model settings.thinking scope
    Parts.validate_tools settings.tools scope
    check_queues settings.queues scope
    Parts.validate_skills p settings.skills scope
    Parts.validate_mcp p settings.mcp scope
    Parts.validate_extensions p settings.extensions scope
    Parts.validate_subagents settings.subagents scope
    validate_launchers p settings.launchers scope
    Parts.validate_desktop p settings.desktop scope
    check_standalone settings.standalone_chat scope

  -- The checks of one project of a configuration.
  unfoldable pub check_project : Config → Text × ProjectOverride → Values.Check
  unfolding Values.config_name is_blank validate_patch effective validate_settings
  check_project config (id, project) = do
    fail_if (not (Values.config_name id)) (Values.invalid_project_id id)
    fail_if (is_blank project.folder || not (p.is_abs project.folder))
        (Values.folder_not_absolute id)
    validate_patch project.settings id
    validate_settings (effective config id).0 (codes "project " ++ id)

  unfoldable pub validate : Config → Values.Check
  unfolding is_current validate_settings Values.each check_project
  validate config = do
    fail_if (not (is_current config.version)) (Values.unsupported_version config.version)
    fail_if (config.revision == 0) Values.revision_not_positive
    validate_settings config.global (codes "global")
    Values.each (check_project config) config.projects

  -- What a valid configuration has.
  pub record IsValid (config : Config) : Type 0 where
    pub positive : (config.revision == 0) ≡ false
    pub global_valid : validate_settings config.global (codes "global") ≡ ok tt
    pub projects_valid : All (λ entry. check_project config entry ≡ ok tt) config.projects

  pub validate-IsValid : (config : Config) → validate config ≡ ok tt → IsValid config
  unfolding validate
  validate-IsValid config h =
      let (_, rest) = >>-ok _ _ tt h in
      let (positive, rest) = >>-ok _ _ tt rest in
      let (global, projects) = >>-ok _ _ tt rest in
      record {
        positive = fail_if-ok (config.revision == 0) _ tt positive;
        global_valid = global;
        projects_valid = Values.each-All (check_project config) config.projects projects;
      }
