-- ===== src/Configuration/RoundTrip.antt =====
-- configuration/redact.go: `restoreRedacted` behind `publicConfig`.
use dire_agent.Prelude.{◌≡◌, refl, if◌then◌else◌, Option, none, some, List, [], ◌∷◌, arith, All}
use mathlib.Core.Path.{ap₂}
use dire_agent.Prelude.Text.{Text, text_eq_refl}
use dire_agent.Prelude.Assoc.{lookup, Unique, Finds, Finds-self}
use dire_agent.Prelude.Sets.{All-map}
use dire_agent.Configuration.Types.{McpServer, ExtensionSource, Settings}
use dire_agent.Configuration.Patch.{
  McpServerPatch, McpPatch, ExtensionSourcePatch, ExtensionPatch, ProjectOverride, Config,
}
use dire_agent.Configuration.Redact.{
  redacted_value, add_unique, map_entries, map_some, or_nil, is_secret, redact_values,
  redact_server, redact_extension_source, redact_settings, redact_some, redact_server_patch,
  redact_extension_patch, redact_mcp_patch, redact_sources_patch, redact_project, public_config,
}
use dire_agent.Configuration.Restore.{
  Values, restore_entry, restore_value, restore_marked, restore_server, restore_extension_source,
  restore_entries, restore_settings, restore_values, mark_secrets, mark_some, restore_some,
  restore_server_patch, restore_extension_patch, restore_both, restore_mcp, restore_sources,
  restore_project, restore_redacted,
}

restore_entries-map_entries :
    {V : Type 0} (f : Text → V → V) (restore : V → V → V) (m es : List (Text × V))
    → Finds m es
    → All (λ e. restore (f e.0 e.1) e.1 ≡ e.1) es
    → restore_entries restore (map_entries f es) m ≡ es
unfolding restore_entries map_entries
restore_entries-map_entries f restore m [] fs h = refl
restore_entries-map_entries f restore m ((k, v) ∷ es) (fk, fs) (hv, h) =
    cc (fk, hv, restore_entries-map_entries f restore m es fs h)

module _ (to_lower : Text → Text) where
  -- What is shown of an entry.
  abbrev shown : List Text → Text → Text → Text
  shown os k v = if is_secret to_lower os k then redacted_value else v

  restore_entry-shown :
      (old : Values) (os : List Text) (k v : Text)
      → lookup k old ≡ some v
      → restore_entry old os k (shown os k v) os ≡ (v, os)
  unfolding restore_entry is_secret add_unique
  restore_entry-shown old os k v h = rw h (ground (arith, text_eq_refl redacted_value))

  restore_value-shown : (os : List Text) (k v : Text) → restore_value (shown os k v) (some v) ≡ v
  unfolding restore_value
  restore_value-shown os k v = ground (arith, text_eq_refl redacted_value)

  restore_marked-redact :
      (old : Values) (os : List Text) (es : Values)
      → Finds old es
      → restore_marked old os (redact_values to_lower es os) os ≡ (es, os)
  unfolding restore_marked redact_values map_entries
  restore_marked-redact old os [] f = refl
  restore_marked-redact old os ((k, v) ∷ es) (fk, f) =
      let here : restore_entry old os k (shown os k v) os ≡ (v, os) =
        restore_entry-shown old os k v fk in
      rw here (rw (restore_marked-redact old os es f) refl)

  restore_values-redact :
      (old : Values) (os : List Text) (es : Values)
      → Finds old es
      → restore_values (redact_values to_lower es os) old ≡ es
  unfolding restore_values redact_values map_entries
  restore_values-redact old os [] f = refl
  restore_values-redact old os ((k, v) ∷ es) (fk, f) =
      rw fk
        (ap₂ (λ w m. (k, w) ∷ m) (restore_value-shown os k v) (restore_values-redact old os es f))

mark_secrets-same : (old es : Values) (os : List Text) → mark_secrets old os es (some os) ≡ some os
unfolding mark_secrets add_unique
mark_secrets-same old [] os = refl
mark_secrets-same old ((k, v) ∷ es) os = ground (arith, mark_secrets-same old es os)

-- A map that a patch may have, with each key once.
abbrev pub UniqueSome : {V : Type 0} → Option (List (Text × V)) → Type 0
UniqueSome none = Unit
UniqueSome (some m) = Unique m

abbrev ServerUnique : McpServer → Type 0
ServerUnique s = Unique s.env × Unique s.headers

abbrev SourceUnique : ExtensionSource → Type 0
SourceUnique s = Unique s.env

abbrev ServerPatchUnique : McpServerPatch → Type 0
ServerPatchUnique p = UniqueSome p.env × UniqueSome p.headers

abbrev SourcePatchUnique : ExtensionSourcePatch → Type 0
SourcePatchUnique p = UniqueSome p.env

-- A map with each key once, whose values hold such maps.
abbrev Entries : {V : Type 0} → (V → Type 0) → List (Text × V) → Type 0
Entries P m = Unique m × All (λ e. P e.1) m

abbrev SettingsUnique : Settings → Type 0
SettingsUnique s = Entries ServerUnique s.mcp.servers × Entries SourceUnique s.extensions.sources

abbrev McpUnique : Option McpPatch → Type 0
McpUnique none = Unit
McpUnique (some p) = Entries ServerPatchUnique p.servers

abbrev SourcesUnique : Option ExtensionPatch → Type 0
SourcesUnique none = Unit
SourcesUnique (some p) = Entries SourcePatchUnique p.sources

abbrev ProjectUnique : ProjectOverride → Type 0
ProjectUnique p = McpUnique p.settings.mcp × SourcesUnique p.settings.extensions

-- Every map of the configuration has each of its keys once, as Go maps do.
abbrev pub IsKeyed : Config → Type 0
IsKeyed c = SettingsUnique c.global × Entries ProjectUnique c.projects

-- A map of values that are restored one by one.
restore_map :
    {V : Type 0} (P : V → Type 0) (f : V → V) (restore : V → V → V) (m : List (Text × V))
    → ((v : V) → P v → restore (f v) v ≡ v)
    → Entries P m
    → restore_entries restore (map_entries (λ name. f) m) m ≡ m
restore_map P f restore m h (u, all) =
    restore_entries-map_entries (λ name. f) restore m m (Finds-self m u)
      (All-map m (λ e p. h e.1 p) all)

mark_some-same : (old es : Values) (os : Option (List Text)) → mark_some old os es os ≡ os
unfolding mark_some
mark_some-same old es none = refl
mark_some-same old es (some os) = mark_secrets-same old es os

module _ (to_lower : Text → Text) where
  restore_server-redact :
      (s : McpServer) → ServerUnique s → restore_server (redact_server to_lower s) s ≡ s
  unfolding restore_server redact_server
  restore_server-redact s (e, h) =
      rw
        (
          restore_marked-redact to_lower s.env s.secret_env s.env (Finds-self s.env e),
          restore_marked-redact to_lower s.headers s.secret_headers s.headers
              (Finds-self s.headers h),
        )
        refl

  restore_extension_source-redact :
      (s : ExtensionSource)
      → SourceUnique s
      → restore_extension_source (redact_extension_source to_lower s) s ≡ s
  unfolding restore_extension_source redact_extension_source
  restore_extension_source-redact s e =
      rw (restore_marked-redact to_lower s.env s.secret_env s.env (Finds-self s.env e)) refl

  restore_some-redact :
      (values : Option Values) (secret : Option (List Text))
      → UniqueSome values
      → restore_some (redact_some to_lower values secret) secret values secret ≡ (values, secret)
  unfolding restore_some redact_some
  restore_some-redact none secret u = refl
  restore_some-redact (some m) secret u =
      rw (restore_values-redact to_lower m (or_nil secret) m (Finds-self m u))
        (rw (mark_some-same m m secret) refl)

  restore_server_patch-redact :
      (p : McpServerPatch)
      → ServerPatchUnique p
      → restore_server_patch (redact_server_patch to_lower p) p ≡ p
  unfolding restore_server_patch redact_server_patch
  restore_server_patch-redact p (e, h) =
      rw
        (restore_some-redact p.env p.secret_env e, restore_some-redact p.headers p.secret_headers h)
        refl

  restore_extension_patch-redact :
      (p : ExtensionSourcePatch)
      → SourcePatchUnique p
      → restore_extension_patch (redact_extension_patch to_lower p) p ≡ p
  unfolding restore_extension_patch redact_extension_patch
  restore_extension_patch-redact p e = rw (restore_some-redact p.env p.secret_env e) refl

  restore_settings-redact :
      (s : Settings) → SettingsUnique s → restore_settings (redact_settings to_lower s) s ≡ s
  unfolding restore_settings redact_settings
  restore_settings-redact s (servers, sources) =
      rw
        (
          restore_map ServerUnique (redact_server to_lower) restore_server s.mcp.servers
              restore_server-redact servers,
          restore_map SourceUnique (redact_extension_source to_lower) restore_extension_source
              s.extensions.sources restore_extension_source-redact sources,
        )
        refl

  restore_mcp-redact :
      (o : Option McpPatch)
      → McpUnique o
      → restore_both restore_mcp (map_some (redact_mcp_patch to_lower) o) o ≡ o
  unfolding restore_mcp redact_mcp_patch
  restore_mcp-redact none u = refl
  restore_mcp-redact (some p) u =
      rw
        (restore_map ServerPatchUnique (redact_server_patch to_lower) restore_server_patch p.servers
          restore_server_patch-redact u)
        refl

  restore_sources-redact :
      (o : Option ExtensionPatch)
      → SourcesUnique o
      → restore_both restore_sources (map_some (redact_sources_patch to_lower) o) o ≡ o
  unfolding restore_sources redact_sources_patch
  restore_sources-redact none u = refl
  restore_sources-redact (some p) u =
      rw
        (restore_map SourcePatchUnique (redact_extension_patch to_lower) restore_extension_patch
          p.sources restore_extension_patch-redact u)
        refl

  restore_project-redact :
      (p : ProjectOverride) → ProjectUnique p → restore_project (redact_project to_lower p) p ≡ p
  unfolding restore_project redact_project
  restore_project-redact p (servers, sources) =
      rw
        (
          restore_mcp-redact p.settings.mcp servers,
          restore_sources-redact p.settings.extensions sources,
        )
        refl

  -- A client that sends back the configuration that it was shown, secrets redacted, changes nothing:
  -- where every map has each key once, restoring the public view of a configuration against that
  -- configuration gives it back whole, in the global settings and in every project.
  pub restore_redacted-public_config :
      (c : Config) → IsKeyed c → restore_redacted (public_config to_lower c) c ≡ c
  unfolding restore_redacted public_config
  restore_redacted-public_config c (settings, projects) =
      rw
        (
          restore_settings-redact c.global settings,
          restore_map ProjectUnique (redact_project to_lower) restore_project c.projects
              restore_project-redact projects,
        )
        refl
