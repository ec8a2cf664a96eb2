-- ===== src/Configuration/SandboxChange.antt =====
-- configuration/store.go: what `SetProjectSandbox` makes of the projects.
use dire_agent.Prelude.{Bool, true, false, ◌&&◌, Option, none, some, if◌then◌else◌}
use dire_agent.Prelude.Text.{Text, text_eq}
use dire_agent.Prelude.Assoc.{lookup, insert, delete}
use dire_agent.Configuration.Patch.{Config, ToolPatch, SettingsPatch, ProjectOverride}

abbrev no_value : {A : Type 0} → Option A → Bool
no_value none = true
no_value (some a) = false

unfoldable pub empty_settings_patch : SettingsPatch → Bool
empty_settings_patch p =
    no_value p.model
    && no_value p.thinking
    && no_value p.tools
    && no_value p.queues
    && no_value p.skills
    && no_value p.mcp
    && no_value p.extensions
    && no_value p.subagents
    && no_value p.launchers
    && no_value p.desktop
    && no_value p.standalone_chat

abbrev no_tool_patch : ToolPatch
no_tool_patch = record { enabled = none; sandbox = none; approval = none }

-- A project whose tools lose their sandbox mode.
unfoldable pub clear_sandbox : ToolPatch → ProjectOverride → ProjectOverride
clear_sandbox tools project = record project {
  settings = record (project.settings) {
    tools = elim tools.enabled [
      | some names ↦ some (record tools { sandbox = none })
      | none ↦ elim tools.approval [
        | some mode ↦ some (record tools { sandbox = none })
        | none ↦ none
      ]
    ];
  };
}

abbrev pub or_no_tools : Option ToolPatch → ToolPatch
or_no_tools none = no_tool_patch
or_no_tools (some tools) = tools

unfoldable pub write_sandbox : Text → ProjectOverride → ProjectOverride
write_sandbox mode project = record project {
  settings = record (project.settings) {
    tools = some (record (or_no_tools project.settings.tools) { sandbox = some mode });
  };
}

abbrev no_overrides : SettingsPatch
no_overrides = record {
  model = none;
  thinking = none;
  tools = none;
  queues = none;
  skills = none;
  mcp = none;
  extensions = none;
  subagents = none;
  launchers = none;
  desktop = none;
  standalone_chat = none;
}

abbrev pub or_new_project : Text → Option ProjectOverride → ProjectOverride
or_new_project folder none = record { folder = folder; settings = no_overrides }
or_new_project folder (some project) = project

-- The sandbox mode that a project overrides, with its tools.
unfoldable pub overridden : Option ProjectOverride → Option (ToolPatch × Text)
overridden none = none
overridden (some project) = elim project.settings.tools [
  | none ↦ none
  | some tools ↦ elim tools.sandbox [ none ↦ none | some mode ↦ some (tools, mode) ]
]

-- A project without overrides is dropped.
unfoldable pub store_project : Text → ProjectOverride → Config → Config
unfolding insert delete empty_settings_patch
store_project id project raw = record raw {
  projects =
      if empty_settings_patch project.settings
      then delete id raw.projects
      else insert id project raw.projects;
}

-- `SetProjectSandbox` without a mode, given what the project overrides: the projects after the change,
-- `none` where nothing is to be changed.
unfoldable pub clear_found :
    Text → ProjectOverride → Config → Option (ToolPatch × Text) → Option Config
unfolding clear_sandbox store_project
clear_found id project raw none = none
clear_found id project raw (some found) =
    some (store_project id (clear_sandbox found.0 project) raw)

-- With a mode.
unfoldable pub write_found :
    Text → Text → ProjectOverride → Config → Option (ToolPatch × Text) → Option Config
unfolding insert text_eq write_sandbox
write_found id mode project raw none =
    some (record raw { projects = insert id (write_sandbox mode project) raw.projects })
write_found id mode project raw (some found) =
    if text_eq found.1 mode
    then none
    else some (record raw { projects = insert id (write_sandbox mode project) raw.projects })

-- Its two branches.
unfoldable pub change_sandbox : Text → Text → Option Text → Config → Option Config
unfolding lookup overridden clear_found write_found
change_sandbox id folder none raw =
    let project = or_new_project folder (lookup id raw.projects) in
    clear_found id project raw (overridden (lookup id raw.projects))
change_sandbox id folder (some mode) raw =
    let project = or_new_project folder (lookup id raw.projects) in
    write_found id mode project raw (overridden (lookup id raw.projects))
