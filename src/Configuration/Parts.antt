-- ===== src/Configuration/Parts.antt =====
-- configuration/validate.go and configuration/validate_values.go: the validation of each part of the
-- settings. A map's entries are checked in the order of its list; Go's order is arbitrary.
use dire_agent.Prelude.{
  Bool, false, ◌&&◌, ◌||◌, not, Option, none, some, List, [], ◌∷◌, ◌++◌, ltb, length, if◌then◌else◌,
}
use dire_agent.Prelude.Text.{Text, codes, text_eq, is_empty, is_blank}
use dire_agent.Prelude.Assoc.{contains, keys}
use dire_agent.Prelude.Int.{is_not_positive, at_most}
use dire_agent.Prelude.Results.{err, fail_if, ◌>>◌}
use dire_agent.Team.Types.{AgentProfile}
use dire_agent.Configuration.Types.{
  ToolSettings, SkillSettings, McpServer, McpSettings, ExtensionSource, ExtensionSettings,
  SubagentSettings, DesktopSettings,
}
use dire_agent.Configuration.Values

-- `len(xs) > 0`.
abbrev some_entry {ℓ} : {A : Type ℓ} → List A → Bool
some_entry xs = ltb 0 (length xs)

unfoldable pub validate_tools : ToolSettings → Text → Values.Check
unfolding contains Values.valid_approval Values.unique_non_empty
validate_tools settings scope = do
  Values.unique_non_empty settings.enabled (scope ++ codes " tools")
  fail_if (not (contains (codes "strict" ∷ codes "workspace" ∷ codes "off" ∷ []) settings.sandbox))
      (Values.invalid_sandbox_mode scope settings.sandbox)
  fail_if (not (Values.valid_approval settings.approval))
      (Values.invalid_tool_approval scope settings.approval)

unfoldable pub validate_secret_keys : List (Text × Text) → List Text → Text → Text → Values.Check
unfolding contains keys Values.each Values.unique_non_empty
validate_secret_keys values secret kind server = do
  Values.unique_non_empty secret (codes "MCP secret " ++ kind ++ codes " keys")
  Values.each
      (λ key.
        fail_if (not (contains (keys values) key)) (Values.secret_not_configured server kind key))
      secret

unfoldable pub validate_extension_secret_keys : ExtensionSource → Text → Values.Check
unfolding contains keys Values.each Values.unique_non_empty
validate_extension_secret_keys source name = do
  Values.unique_non_empty source.secret_env (codes "extension secret environment keys")
  Values.each
      (λ key.
        fail_if (not (contains (keys source.env) key))
          (Values.secret_not_configured name (codes "environment") key))
      source.secret_env

check_profile : Text → Text × AgentProfile → Values.Check
unfolding Values.config_name is_blank Values.valid_thinking Values.unique_non_empty
check_profile scope (name, profile) = do
  fail_if (not (Values.config_name name)) (Values.invalid_name scope name)
  fail_if (is_blank profile.description) (Values.description_required scope name)
  fail_if (not (is_empty profile.thinking) && not (Values.valid_thinking profile.thinking))
      (Values.invalid_profile_thinking scope name)
  Values.unique_non_empty (elim profile.tools [ none ↦ [] | some tools ↦ tools ])
      (scope ++ codes " subagent profile " ++ name ++ codes " tools")

unfoldable pub validate_subagents : SubagentSettings → Text → Values.Check
unfolding Values.each check_profile
validate_subagents settings scope = do
  fail_if (is_not_positive settings.max_depth || not (at_most settings.max_depth 4))
      (Values.depth_out_of_range scope)
  fail_if (is_not_positive settings.max_children || not (at_most settings.max_children 32))
      (Values.children_out_of_range scope)
  fail_if (is_not_positive settings.max_concurrent || not (at_most settings.max_concurrent 16))
      (Values.concurrent_out_of_range scope)
  fail_if (not (some_entry settings.profiles)) (Values.profile_required scope)
  Values.each (check_profile scope) settings.profiles

module _ (p : Values.Platform) where
  unfoldable pub validate_skills : SkillSettings → Text → Values.Check
  unfolding Values.unique_non_empty Values.each Values.valid_trust
  validate_skills settings scope = do
    fail_if (not (some_entry settings.roots)) (Values.skill_root_required scope)
    Values.unique_non_empty settings.roots (scope ++ codes " skill roots")
    Values.each (λ root. fail_if (not (p.is_abs root)) (Values.skill_root_not_absolute scope))
        settings.roots
    Values.unique_non_empty settings.disabled (scope ++ codes " disabled skills")
    fail_if (not (Values.valid_trust settings.trust))
        (Values.invalid_skill_trust scope settings.trust)

  -- The test on the result of `url.Parse`.
  is_http_url : Option (Text × Text) → Bool
  unfolding text_eq
  is_http_url none = false
  is_http_url (some (scheme, host)) =
      (text_eq scheme (codes "http") || text_eq scheme (codes "https")) && not (is_empty host)

  -- The switch on the transport.
  unfoldable pub check_transport : Text → McpServer → Values.Check
  unfolding text_eq is_blank is_http_url
  check_transport name server =
      if text_eq server.transport (codes "stdio")
      then (do
        fail_if (is_blank server.command) (Values.server_command_required name)
        fail_if (not (is_empty server.url)) (Values.stdio_sets_url name))
      else if text_eq server.transport (codes "streamable-http")
      then (do
        fail_if (not (is_http_url (p.parse_url server.url))) (Values.http_url_required name)
        fail_if (not (is_empty server.command)) (Values.http_sets_command name)
        fail_if (some_entry server.args || server.inherit_env)
            (Values.http_sets_process_options name))
      else err (Values.invalid_transport name server.transport)

  unfoldable pub check_server : Text → Text × McpServer → Values.Check
  unfolding Values.config_name Values.valid_approval Values.unique_non_empty Values.each
      validate_secret_keys Values.validate_process_values check_transport
  check_server scope (name, server) = do
    fail_if (not (Values.config_name name)) (Values.invalid_name scope name)
    fail_if (not (Values.valid_approval server.approval))
        (Values.invalid_server_approval scope name)
    Values.unique_non_empty server.enabled_tools (scope ++ codes " MCP enabled tools")
    Values.each
        (λ (approval : Text × Text).
          fail_if (not (Values.valid_approval approval.1))
            (Values.invalid_server_approval scope name))
        server.tool_approvals
    validate_secret_keys server.env server.secret_env (codes "environment") name
    Values.validate_process_values server.command server.args server.env
        (codes "MCP server " ++ name)
    validate_secret_keys server.headers server.secret_headers (codes "header") name
    check_transport name server

  unfoldable pub validate_mcp : McpSettings → Text → Values.Check
  unfolding Values.each check_server
  validate_mcp settings scope = Values.each (check_server scope) settings.servers

  -- The switch on the kind.
  unfoldable pub check_source_kind : Text → ExtensionSource → Values.Check
  unfolding text_eq
  check_source_kind name source =
      if text_eq source.kind (codes "local")
      then fail_if (not (p.is_abs source.location)) (Values.location_not_absolute name)
      else if text_eq source.kind (codes "git") || text_eq source.kind (codes "registry")
      then fail_if
          (not (is_empty source.command)
            || some_entry source.args
            || some_entry source.env
            || some_entry source.secret_env
            || source.inherit_env)
          (Values.remote_sets_process_options name)
      else err (Values.invalid_source_kind name source.kind)

  unfoldable pub check_source : Text → Text × ExtensionSource → Values.Check
  unfolding Values.config_name is_blank Values.valid_trust Values.validate_process_values
      validate_extension_secret_keys check_source_kind
  check_source scope (name, source) = do
    fail_if (not (Values.config_name name)) (Values.invalid_name scope name)
    fail_if (is_blank source.location) (Values.location_required name)
    fail_if (not (Values.valid_trust source.trust)) (Values.invalid_extension_trust name)
    Values.validate_process_values source.command source.args source.env
        (codes "extension " ++ name)
    validate_extension_secret_keys source name
    check_source_kind name source

  unfoldable pub validate_extensions : ExtensionSettings → Text → Values.Check
  unfolding Values.each check_source
  validate_extensions settings scope = Values.each (check_source scope) settings.sources

  unfoldable pub validate_desktop : DesktopSettings → Text → Values.Check
  unfolding contains
  validate_desktop settings scope = do
    fail_if (is_empty settings.codex_home || not (p.is_abs settings.codex_home))
        (Values.codex_home_not_absolute scope)
    fail_if (not (is_empty settings.desktop_config) && not (p.is_abs settings.desktop_config))
        (Values.desktop_config_not_absolute scope)
    fail_if
        (not (
          contains (codes "off" ∷ codes "import" ∷ codes "export" ∷ codes "bidirectional" ∷ [])
            settings.sync_mode))
        (Values.invalid_sync_mode scope settings.sync_mode)
