-- ===== src/Configuration/Redact.antt =====
-- configuration/redact.go: what clients are shown of a configuration, and what is put back into a
-- configuration that a client sends. `to_lower` is `strings.ToLower`. The copies that `cloneConfig`
-- makes are the values themselves here.
use dire_agent.Prelude.{
  ℕ, Bool, false, ◌||◌, Option, none, some, List, [], ◌∷◌, ◌++◌, map, ◌==◌, if◌then◌else◌,
}
use dire_agent.Prelude.Text.{Text, codes, has_prefix}
use dire_agent.Prelude.Assoc.{contains}
use dire_agent.Configuration.Types.{McpServer, ExtensionSource, Settings}
use dire_agent.Configuration.Patch.{
  McpServerPatch, McpPatch, ExtensionSourcePatch, ExtensionPatch, ProjectOverride, Config,
}

abbrev pub redacted_value : Text
redacted_value = codes "[redacted]"

-- `strings.Contains(s, marker)`.
unfoldable pub contains_text : Text → Text → Bool
unfolding has_prefix
contains_text [] marker = has_prefix marker []
contains_text (c ∷ s) marker = has_prefix marker (c ∷ s) || contains_text s marker

abbrev secret_markers : List Text
secret_markers =
    codes "authorization"
    ∷ codes "credential"
    ∷ codes "password"
    ∷ codes "passwd"
    ∷ codes "secret"
    ∷ codes "token"
    ∷ codes "api_key"
    ∷ codes "cookie"
    ∷ []

unfoldable pub contains_any : Text → List Text → Bool
unfolding contains_text
contains_any s [] = false
contains_any s (m ∷ ms) = contains_text s m || contains_any s ms

abbrev underscore : ℕ → ℕ
underscore c = if (c == b'-') || (c == b' ') then b'_' else c

unfoldable pub add_unique : List Text → Text → List Text
unfolding contains
add_unique values value = if contains values value then values else values ++ value ∷ []

-- Each entry of a map, by its name.
unfoldable pub map_entries : {V : Type 0} → (Text → V → V) → List (Text × V) → List (Text × V)
map_entries f [] = []
map_entries f ((name, v) ∷ m) = (name, f name v) ∷ map_entries f m

abbrev pub map_some : {A : Type 0} → (A → A) → Option A → Option A
map_some f none = none
map_some f (some a) = some (f a)

abbrev pub or_nil : Option (List Text) → List Text
or_nil none = []
or_nil (some xs) = xs

module _ (to_lower : Text → Text) where
  unfoldable pub looks_secret : Text → Bool
  unfolding contains_any
  looks_secret key = contains_any (map underscore (to_lower key)) secret_markers

  unfoldable pub is_secret : List Text → Text → Bool
  unfolding looks_secret contains
  is_secret explicit key = contains explicit key || looks_secret key

  unfoldable pub redact_values : List (Text × Text) → List Text → List (Text × Text)
  unfolding is_secret map_entries
  redact_values values explicit =
      map_entries (λ key value. if is_secret explicit key then redacted_value else value) values

  unfoldable pub redact_server : McpServer → McpServer
  unfolding redact_values
  redact_server s = record s {
    env = redact_values s.env s.secret_env;
    headers = redact_values s.headers s.secret_headers;
  }

  unfoldable pub redact_extension_source : ExtensionSource → ExtensionSource
  unfolding redact_values
  redact_extension_source s = record s { env = redact_values s.env s.secret_env }

  unfoldable pub redact_settings : Settings → Settings
  unfolding redact_server redact_extension_source map_entries
  redact_settings s = record s {
    mcp = record (s.mcp) { servers = map_entries (λ name. redact_server) s.mcp.servers };
    extensions = record (s.extensions) {
      sources = map_entries (λ name. redact_extension_source) s.extensions.sources;
    };
  }

  -- The values of a patch that has some.
  unfoldable pub redact_some :
      Option (List (Text × Text)) → Option (List Text) → Option (List (Text × Text))
  unfolding redact_values
  redact_some values secret = map_some (λ m. redact_values m (or_nil secret)) values

  unfoldable pub redact_server_patch : McpServerPatch → McpServerPatch
  unfolding redact_some
  redact_server_patch p = record p {
    env = redact_some p.env p.secret_env;
    headers = redact_some p.headers p.secret_headers;
  }

  unfoldable pub redact_extension_patch : ExtensionSourcePatch → ExtensionSourcePatch
  unfolding redact_some
  redact_extension_patch p = record p { env = redact_some p.env p.secret_env }

  unfoldable pub redact_mcp_patch : McpPatch → McpPatch
  unfolding redact_server_patch map_entries
  redact_mcp_patch p = record p { servers = map_entries (λ name. redact_server_patch) p.servers }

  unfoldable pub redact_sources_patch : ExtensionPatch → ExtensionPatch
  unfolding redact_extension_patch map_entries
  redact_sources_patch p = record p {
    sources = map_entries (λ name. redact_extension_patch) p.sources;
  }

  unfoldable pub redact_project : ProjectOverride → ProjectOverride
  unfolding redact_mcp_patch redact_sources_patch
  redact_project p = record p {
    settings = record (p.settings) {
      mcp = map_some redact_mcp_patch p.settings.mcp;
      extensions = map_some redact_sources_patch p.settings.extensions;
    };
  }

  -- On the copy that `cloneConfig` makes, which cannot fail: a configuration has strings, numbers,
  -- Booleans, and lists, maps and pointers of these only, all of which encoding/json writes and reads.
  unfoldable pub public_config : Config → Config
  unfolding redact_settings redact_project map_entries
  public_config c = record c {
    global = redact_settings c.global;
    projects = map_entries (λ id. redact_project) c.projects;
  }
