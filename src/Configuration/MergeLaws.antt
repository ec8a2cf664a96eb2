-- ===== src/Configuration/MergeLaws.antt =====
-- configuration/merge.go: the servers and sources that a project's overrides lead to.
use dire_agent.Prelude.{
  ◌≡◌, refl, ap, ◌∙◌, false, Bool-cases, inl, inr, Option, none, some, List, [], ◌∷◌, arith,
  if◌then◌else◌,
}
use mathlib.Core.Path.{subst}
use dire_agent.Prelude.Text.{Text, text_eq, text_eq_iff}
use dire_agent.Prelude.Assoc.{
  lookup, insert, delete, lookup-insert, lookup-delete, contains, keys, Unique,
}
use dire_agent.Configuration.Types.{
  McpServer, McpSettings, ExtensionSource, ExtensionSettings, Settings,
}
use dire_agent.Configuration.Patch.{McpServerPatch, McpPatch, ExtensionSourcePatch, ExtensionPatch}
use dire_agent.Configuration.Merge.{
  or_keep, or_zero, no_server, no_source, patch_entries, remove_entries, apply_mcp_server_patch,
  apply_source_patch, apply_mcp_patch, apply_extension_patch, apply_patch,
}

lookup-fresh :
    {V : Type 0} (k : Text) (m : List (Text × V)) → contains (keys m) k ≡ false → lookup k m ≡ none
unfolding lookup contains keys
lookup-fresh k [] h = refl
lookup-fresh k ((j, v) ∷ m) h = ground (arith, lookup-fresh k m)

module _ {S P : Type 0} (apply : S → P → S) (zero : S) where
  -- An entry with its patch; a patch without an entry adds one.
  abbrev pub patched : Option P → Option S → Option S
  patched none o = o
  patched (some p) o = some (apply (or_zero zero o) p)

  patch_entries-lookup :
      (name : Text) (ps : List (Text × P)) (m : List (Text × S))
      → Unique ps
      → lookup name (patch_entries apply zero ps m) ≡ patched (lookup name ps) (lookup name m)
  unfolding patch_entries lookup
  patch_entries-lookup name [] m u = refl
  patch_entries-lookup name ((k, p) ∷ ps) m (fresh, u) =
      let new = apply (or_zero zero (lookup k m)) p in
      patch_entries-lookup name ps (insert k new m) u ∙ (elim (Bool-cases (text_eq k name)) [
        | inl e ↦
            let same : k ≡ name = (text_eq_iff k name).0 e in
            let absent : lookup name ps ≡ none =
              lookup-fresh name ps (subst (λ j. contains (keys ps) j ≡ false) same fresh) in
            rw (lookup-insert k name new m, absent)
              (rw e (ap (λ j. some (apply (or_zero zero (lookup j m)) p)) same))
        | inr e ↦ rw (lookup-insert k name new m) (rw e refl)
      ])

remove_entries-lookup :
    {V : Type 0} (name : Text) (names : List Text) (m : List (Text × V))
    → lookup name (remove_entries names m) ≡ (if contains names name then none else lookup name m)
unfolding remove_entries contains
remove_entries-lookup name [] m = refl
remove_entries-lookup name (n ∷ names) m =
    remove_entries-lookup name names (delete n m) ∙ ground (arith, lookup-delete n name m)

or_keep_idem {ℓ} : {A : Type ℓ} (o : Option A) (a : A) → or_keep o (or_keep o a) ≡ or_keep o a
or_keep_idem none a = refl
or_keep_idem (some b) a = refl

apply_mcp_server_patch_idem :
    (s : McpServer) (p : McpServerPatch)
    → apply_mcp_server_patch (apply_mcp_server_patch s p) p ≡ apply_mcp_server_patch s p
unfolding apply_mcp_server_patch
apply_mcp_server_patch_idem s p = simp or_keep_idem

apply_source_patch_idem :
    (s : ExtensionSource) (p : ExtensionSourcePatch)
    → apply_source_patch (apply_source_patch s p) p ≡ apply_source_patch s p
unfolding apply_source_patch
apply_source_patch_idem s p = simp or_keep_idem

-- A server of the effective settings, by its name: none where the project removes it; otherwise the
-- inherited server, or the zero one where none is inherited, with the project's patch of that name on
-- it, or the inherited server itself where the project has no patch of that name. The order of the
-- patches does not matter, where each name has one.
pub apply_mcp_patch-lookup :
    (s : McpSettings) (p : McpPatch) (name : Text)
    → Unique p.servers
    → lookup name (apply_mcp_patch s p).servers ≡ (
        if contains p.remove_servers name
        then none
        else patched apply_mcp_server_patch no_server
            (lookup name p.servers)
            (lookup name s.servers))
unfolding apply_mcp_patch
apply_mcp_patch-lookup s p name u =
    remove_entries-lookup name p.remove_servers _
    ∙ rw (patch_entries-lookup apply_mcp_server_patch no_server name p.servers s.servers u)

-- The same of the extension sources.
pub apply_extension_patch-lookup :
    (s : ExtensionSettings) (p : ExtensionPatch) (name : Text)
    → Unique p.sources
    → lookup name (apply_extension_patch s p).sources ≡ (
        if contains p.remove_sources name
        then none
        else patched apply_source_patch no_source (lookup name p.sources) (lookup name s.sources))
unfolding apply_extension_patch
apply_extension_patch-lookup s p name u =
    remove_entries-lookup name p.remove_sources _
    ∙ rw (patch_entries-lookup apply_source_patch no_source name p.sources s.sources u)

patched_idem :
    {S P : Type 0} (apply : S → P → S) (zero : S) (o : Option P) (s : Option S)
    → ((s : S) (p : P) → apply (apply s p) p ≡ apply s p)
    → patched apply zero o (patched apply zero o s) ≡ patched apply zero o s
patched_idem apply zero none s h = refl
patched_idem apply zero (some p) s h = ap some (h (or_zero zero s) p)

-- Overrides are idempotent: applying a project's MCP overrides a second time changes no server, where
-- the overrides name each server once.
pub apply_mcp_patch_idem :
    (s : McpSettings) (p : McpPatch) (name : Text)
    → Unique p.servers
    → lookup name (apply_mcp_patch (apply_mcp_patch s p) p).servers
      ≡ lookup name (apply_mcp_patch s p).servers
apply_mcp_patch_idem s p name u =
    rw (apply_mcp_patch-lookup (apply_mcp_patch s p) p name u, apply_mcp_patch-lookup s p name u)
      (elim (Bool-cases (contains p.remove_servers name)) [
        | inl e ↦ rw e refl
        | inr e ↦ rw e (
            patched_idem apply_mcp_server_patch no_server (lookup name p.servers)
              (lookup name s.servers) apply_mcp_server_patch_idem)
      ])

-- A project without overrides sees the global settings.
pub apply_patch-none :
    (s : Settings)
    → apply_patch s (record {
      model = none;
      thinking = none;
      tools = none;
      queues = none;
      skills = none;
      mcp = none;
      extensions = none;
      subagents = none;
      launchers = none;
      desktop = none;
      standalone_chat = none;
    })
      ≡ s
unfolding apply_patch
apply_patch-none s = refl
