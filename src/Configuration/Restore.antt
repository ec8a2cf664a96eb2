-- ===== src/Configuration/Restore.antt =====
-- configuration/redact.go: `restoreRedacted`, for the secrets that a client was not shown.
use dire_agent.Prelude.{◌&&◌, not, Option, none, some, List, [], ◌∷◌, if◌then◌else◌}
use dire_agent.Prelude.Text.{Text, text_eq}
use dire_agent.Prelude.Assoc.{lookup, contains}
use dire_agent.Configuration.Types.{McpServer, ExtensionSource, Settings}
use dire_agent.Configuration.Patch.{
  McpServerPatch, McpPatch, ExtensionSourcePatch, ExtensionPatch, ProjectOverride, Config,
}
use dire_agent.Configuration.Redact.{redacted_value, add_unique, map_entries, or_nil}

abbrev pub Values : Type 0
Values = List (Text × Text)

-- A redacted value, given what the old map has of its key: the value and the secret keys.
restore_found : List Text → Text → Text → List Text → Option Text → Text × List Text
restore_found old_secret key value secret none = (value, secret)
restore_found old_secret key value secret (some old_value) =
    (old_value, (if contains old_secret key then add_unique secret key else secret))

unfoldable pub restore_entry : Values → List Text → Text → Text → List Text → Text × List Text
unfolding restore_found lookup contains add_unique
restore_entry old old_secret key value secret =
    if not (text_eq value redacted_value)
    then (value, secret)
    else restore_found old_secret key value secret (lookup key old)

-- The loop of `restoreServer` and `restoreExtensionSource` over a map of values.
unfoldable pub restore_marked : Values → List Text → Values → List Text → Values × List Text
unfolding restore_entry
restore_marked old old_secret [] secret = ([], secret)
restore_marked old old_secret ((key, value) ∷ m) secret =
    let here = restore_entry old old_secret key value secret in
    let rest = restore_marked old old_secret m here.1 in ((key, here.0) ∷ rest.0, rest.1)

unfoldable pub restore_server : McpServer → McpServer → McpServer
unfolding restore_marked
restore_server candidate old =
    let env = restore_marked old.env old.secret_env candidate.env candidate.secret_env in
    let headers =
      restore_marked old.headers old.secret_headers candidate.headers candidate.secret_headers in
    record candidate {
      env = env.0;
      secret_env = env.1;
      headers = headers.0;
      secret_headers = headers.1;
    }

unfoldable pub restore_extension_source : ExtensionSource → ExtensionSource → ExtensionSource
unfolding restore_marked
restore_extension_source candidate old =
    let env = restore_marked old.env old.secret_env candidate.env candidate.secret_env in
    record candidate { env = env.0; secret_env = env.1 }

abbrev pub restore_with : {V : Type 0} → (V → V → V) → V → Option V → V
restore_with restore candidate none = candidate
restore_with restore candidate (some old) = restore candidate old

-- The entries of a map that the old map has too.
unfoldable pub restore_entries :
    {V : Type 0} → (V → V → V) → List (Text × V) → List (Text × V) → List (Text × V)
unfolding map_entries lookup
restore_entries restore candidate old =
    map_entries (λ name v. restore_with restore v (lookup name old)) candidate

unfoldable pub restore_settings : Settings → Settings → Settings
unfolding restore_server restore_extension_source restore_entries
restore_settings candidate old = record candidate {
  mcp = record (candidate.mcp) {
    servers = restore_entries restore_server candidate.mcp.servers old.mcp.servers;
  };
  extensions = record (candidate.extensions) {
    sources =
        restore_entries restore_extension_source candidate.extensions.sources
          old.extensions.sources;
  };
}

unfoldable pub restore_value : Text → Option Text → Text
restore_value value none = value
restore_value value (some old_value) =
    if not (text_eq value redacted_value) then value else old_value

unfoldable pub restore_values : Values → Values → Values
unfolding map_entries lookup restore_value
restore_values candidate old =
    map_entries (λ key value. restore_value value (lookup key old)) candidate

-- The zero value of a missing key is the empty text.
abbrev or_empty_text : Option Text → Text
or_empty_text none = []
or_empty_text (some v) = v

-- The loop that marks the keys whose value is the old one as secret.
unfoldable pub mark_secrets : Values → List Text → Values → Option (List Text) → Option (List Text)
unfolding add_unique lookup contains
mark_secrets old old_secret [] secret = secret
mark_secrets old old_secret ((key, value) ∷ m) secret = mark_secrets old old_secret m (
    if text_eq value (or_empty_text (lookup key old)) && contains old_secret key
    then some (add_unique (or_nil secret) key)
    else secret)

-- What is marked, where the old patch lists secrets.
unfoldable pub mark_some :
    Values → Option (List Text) → Values → Option (List Text) → Option (List Text)
unfolding mark_secrets
mark_some old none values secret = secret
mark_some old (some old_secret) values secret = mark_secrets old old_secret values secret

-- The values of a patch and their secret keys, against those of the old patch.
unfoldable pub restore_some :
    Option Values
    → Option (List Text)
    → Option Values
    → Option (List Text)
    → Option Values × Option (List Text)
unfolding restore_values mark_some
restore_some (some values) secret (some old) old_secret =
    let restored = restore_values values old in
    (some restored, mark_some old old_secret restored secret)
restore_some none secret old old_secret = (none, secret)
restore_some (some values) secret none old_secret = (some values, secret)

unfoldable pub restore_server_patch : McpServerPatch → McpServerPatch → McpServerPatch
unfolding restore_some
restore_server_patch candidate old =
    let env = restore_some candidate.env candidate.secret_env old.env old.secret_env in
    let headers =
      restore_some candidate.headers candidate.secret_headers old.headers old.secret_headers in
    record candidate {
      env = env.0;
      secret_env = env.1;
      headers = headers.0;
      secret_headers = headers.1;
    }

unfoldable pub restore_extension_patch :
    ExtensionSourcePatch → ExtensionSourcePatch → ExtensionSourcePatch
unfolding restore_some
restore_extension_patch candidate old =
    let env = restore_some candidate.env candidate.secret_env old.env old.secret_env in
    record candidate { env = env.0; secret_env = env.1 }

unfoldable pub restore_mcp : McpPatch → McpPatch → McpPatch
unfolding restore_entries restore_server_patch
restore_mcp candidate old = record candidate {
  servers = restore_entries restore_server_patch candidate.servers old.servers;
}

unfoldable pub restore_sources : ExtensionPatch → ExtensionPatch → ExtensionPatch
unfolding restore_entries restore_extension_patch
restore_sources candidate old = record candidate {
  sources = restore_entries restore_extension_patch candidate.sources old.sources;
}

-- Both patches must be there.
abbrev pub restore_both : {P : Type 0} → (P → P → P) → Option P → Option P → Option P
restore_both restore (some p) (some old) = some (restore p old)
restore_both restore none old = none
restore_both restore (some p) none = some p

unfoldable pub restore_project : ProjectOverride → ProjectOverride → ProjectOverride
unfolding restore_mcp restore_sources
restore_project candidate old = record candidate {
  settings = record (candidate.settings) {
    mcp = restore_both restore_mcp candidate.settings.mcp old.settings.mcp;
    extensions = restore_both restore_sources candidate.settings.extensions old.settings.extensions;
  };
}

unfoldable pub restore_redacted : Config → Config → Config
unfolding restore_settings restore_project restore_entries
restore_redacted candidate old = record candidate {
  global = restore_settings candidate.global old.global;
  projects = restore_entries restore_project candidate.projects old.projects;
}
