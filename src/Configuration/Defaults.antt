-- ===== src/Configuration/Defaults.antt =====
-- configuration/defaults.go: `DefaultConfig`, given `filepath.Join`.
use dire_agent.Prelude.{true, false, some, List, [], ◌∷◌}
use dire_agent.Prelude.Text.{Text, codes}
use dire_agent.Prelude.Int.{pos}
use dire_agent.Team.Types.{AgentProfile}
use dire_agent.ModelCatalog.{gpt56_context_window}
use dire_agent.Configuration.Patch.{Config}
use dire_agent.Configuration.Launchers.{default_project_launchers}

abbrev reading_tools : List Text
reading_tools = codes "read" ∷ codes "grep" ∷ codes "find" ∷ codes "ls" ∷ []

abbrev default_profile : Text → Text → AgentProfile
default_profile description thinking = record {
  description = description;
  instructions = [];
  model = [];
  thinking = thinking;
  tools = some reading_tools;
  can_spawn = false;
}

unfoldable pub default_config : (List Text → Text) → Text → Config
default_config file_join home =
    let codex_home = file_join (home ∷ codes ".codex" ∷ []) in
    record {
      version = pos 1;
      revision = 1;
      global = record {
        model = record {
          provider = codes "codex";
          id = codes "gpt-5.6";
          context_window = gpt56_context_window;
        };
        thinking = record { level = codes "medium" };
        tools = record {
          enabled = reading_tools;
          sandbox = codes "strict";
          approval = codes "on-request";
        };
        queues = record {
          steering_mode = codes "one-at-a-time";
          follow_up_mode = codes "one-at-a-time";
          max_pending = pos 64;
        };
        skills = record {
          roots =
              file_join (home ∷ codes ".agents" ∷ codes "skills" ∷ [])
              ∷ file_join (codex_home ∷ codes "skills" ∷ [])
              ∷ file_join (home ∷ codes ".pi" ∷ codes "agent" ∷ codes "skills" ∷ [])
              ∷ [];
          disabled = [];
          trust = codes "prompt";
        };
        mcp = record { servers = [] };
        extensions = record { sources = []; allow_unsigned = false };
        subagents = record {
          enabled = true;
          max_depth = pos 2;
          max_children = pos 8;
          max_concurrent = pos 4;
          allow_sibling_messages = true;
          auto_report = true;
          profiles =
              (
                codes "general",
                default_profile
                    (codes "General-purpose agent for independent implementation or research.")
                    (codes "medium"),
              )
              ∷ (
                codes "explore",
                default_profile
                    (codes "Fast read-only agent for codebase exploration and focused questions.")
                    (codes "low"),
              )
              ∷ (
                codes "review",
                default_profile
                    (codes "Read-only reviewer for correctness, security, and maintainability.")
                    (codes "high"),
              )
              ∷ [];
        };
        launchers = some default_project_launchers;
        desktop = record {
          codex_home = codex_home;
          desktop_config = file_join (codex_home ∷ codes "config.toml" ∷ []);
          sync_mode = codes "import";
          sync_skills = true;
          sync_mcp = true;
          sync_extensions = true;
          watch_for_changes = false;
        };
        standalone_chat = record {
          model = codes "gpt-5.6";
          thinking = codes "medium";
          tools = [];
          instructions = [];
          persist_history = true;
        };
      };
      projects = [];
    }
