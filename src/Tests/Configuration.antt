-- ===== src/Tests/Configuration.antt =====
-- A configuration with one server and a project that overrides it.
use dire_agent.Prelude.{
  ◌+◌, ◌≡◌, refl, sym, true, false, ◌&&◌, none, some, [], ◌∷◌, map, leb, if◌then◌else◌,
}
use mathlib.Core.Bool.{false≢true}
use dire_agent.Prelude.Text.{Text, codes, text_eq, has_prefix}
use dire_agent.Prelude.Int.{pos}
use dire_agent.Prelude.Assoc.{lookup, contains, keys, Unique}
use dire_agent.Configuration.Types.{McpServer, McpSettings, Settings}
use dire_agent.Configuration.Patch.{McpServerPatch, McpPatch, SettingsPatch, Config}
use dire_agent.Configuration.Merge.{no_server, apply_mcp_server_patch, apply_mcp_patch}
use dire_agent.Configuration.MergeLaws.{patched, apply_mcp_patch-lookup}
use dire_agent.Configuration.Redact.{
  redacted_value, looks_secret, is_secret, redact_server, redact_server_patch, public_config,
}
use dire_agent.Configuration.Restore.{restore_redacted}
use dire_agent.Configuration.RoundTrip.{IsKeyed, restore_redacted-public_config}
use dire_agent.Configuration.Hiding.{SameButSecrets, redact_server-hides, inherited_secret-shown}

-- `strings.ToLower` on ASCII.
abbrev ascii_lower : Text → Text
ascii_lower = map (λ c. if leb b'A' c && leb c b'Z' then c + 32 else c)

abbrev server : McpServer
server = record no_server {
  command = codes "serve";
  env = (codes "API_TOKEN", codes "t") ∷ (codes "FOO", codes "f") ∷ [];
  secret_env = codes "FOO" ∷ [];
  enabled = true;
}

abbrev no_server_patch : McpServerPatch
no_server_patch = record {
  transport = none;
  command = none;
  args = none;
  inherit_env = none;
  url = none;
  env = none;
  secret_env = none;
  headers = none;
  secret_headers = none;
  enabled_tools = none;
  approval = none;
  tool_approvals = none;
  enabled = none;
}

abbrev override : McpServerPatch
override = record no_server_patch {
  env = some ((codes "FOO", codes "mine") ∷ []);
  enabled = some false;
}

abbrev servers : McpSettings
servers = record { servers = (codes "main", server) ∷ [] }

abbrev server_patches : McpPatch
server_patches = record {
  servers = (codes "main", override) ∷ (codes "extra", override) ∷ [];
  remove_servers = codes "old" ∷ [];
}

server_patches-Unique : Unique server_patches.servers
unfolding contains keys text_eq
server_patches-Unique = (refl, (refl, tt))

apply_mcp_patch-lookup_example :
    lookup (codes "main") (apply_mcp_patch servers server_patches).servers ≡ (
      if contains server_patches.remove_servers (codes "main")
      then none
      else patched apply_mcp_server_patch no_server
          (lookup (codes "main") server_patches.servers)
          (lookup (codes "main") servers.servers))
apply_mcp_patch-lookup_example =
    apply_mcp_patch-lookup servers server_patches (codes "main") server_patches-Unique

abbrev settings : Settings
settings = record {
  model = record { provider = codes "p"; id = codes "m"; context_window = pos 0 };
  thinking = record { level = codes "low" };
  tools = record { enabled = []; sandbox = codes "strict"; approval = codes "never" };
  queues = record {
    steering_mode = codes "all";
    follow_up_mode = codes "all";
    max_pending = pos 9;
  };
  skills = record { roots = []; disabled = []; trust = codes "prompt" };
  mcp = servers;
  extensions = record { sources = []; allow_unsigned = false };
  subagents = record {
    enabled = true;
    max_depth = pos 2;
    max_children = pos 2;
    max_concurrent = pos 2;
    allow_sibling_messages = false;
    auto_report = true;
    profiles = [];
  };
  launchers = none;
  desktop = record {
    codex_home = [];
    desktop_config = [];
    sync_mode = codes "off";
    sync_skills = false;
    sync_mcp = false;
    sync_extensions = false;
    watch_for_changes = false;
  };
  standalone_chat = record {
    model = codes "m";
    thinking = codes "low";
    tools = [];
    instructions = [];
    persist_history = true;
  };
}

abbrev overrides : SettingsPatch
overrides = record {
  model = none;
  thinking = none;
  tools = none;
  queues = none;
  skills = none;
  mcp = some server_patches;
  extensions = none;
  subagents = none;
  launchers = none;
  desktop = none;
  standalone_chat = none;
}

abbrev config : Config
config = record {
  version = pos 1;
  revision = 4;
  global = settings;
  projects = (codes "web", record { folder = codes "/w"; settings = overrides }) ∷ [];
}

config-IsKeyed : IsKeyed config
unfolding contains keys text_eq
config-IsKeyed = (
  (((refl, tt), ((((refl, (refl, tt)), tt)), tt)), (tt, tt)),
  ((refl, tt), ((((refl, (refl, tt)), (((refl, tt), tt), (((refl, tt), tt), tt))), tt), tt)),
)

restore_redacted-public_config_example :
    restore_redacted (public_config ascii_lower config) config ≡ config
restore_redacted-public_config_example =
    restore_redacted-public_config ascii_lower config config-IsKeyed

other_env :
    SameButSecrets ascii_lower server.secret_env server.env
      ((codes "API_TOKEN", codes "other") ∷ (codes "FOO", codes "g") ∷ [])
unfolding is_secret has_prefix contains text_eq
other_env =
    (refl, (λ e. absurd (false≢true (sym e))), (refl, (λ e. absurd (false≢true (sym e))), tt))

redact_server-hides_example :
    redact_server ascii_lower (record server {
      env = (codes "API_TOKEN", codes "other") ∷ (codes "FOO", codes "g") ∷ [];
      headers = [];
    })
    ≡ redact_server ascii_lower server
redact_server-hides_example =
    redact_server-hides ascii_lower server
      ((codes "API_TOKEN", codes "other") ∷ (codes "FOO", codes "g") ∷ []) [] other_env tt

foo-listed : contains server.secret_env (codes "FOO") ≡ true
unfolding contains text_eq
foo-listed = refl

foo-plain : looks_secret ascii_lower (codes "FOO") ≡ false
unfolding looks_secret has_prefix
foo-plain = refl

inherited_secret-shown_example :
    ((redact_server ascii_lower (apply_mcp_server_patch server override)).env
      ≡ (codes "FOO", redacted_value) ∷ [])
    × ((redact_server_patch ascii_lower override).env ≡ some ((codes "FOO", codes "mine") ∷ []))
inherited_secret-shown_example =
    inherited_secret-shown ascii_lower server override (codes "FOO") (codes "mine") foo-listed
      foo-plain refl refl
