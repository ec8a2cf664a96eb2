-- ===== src/Configuration/Store.antt =====
-- configuration/store.go and configuration/atomic.go. The state is the content of the configuration
-- file, absent before its first use; the lock is held for the whole of an operation. The context is
-- asked where the source asks it, and each call of the operating system may fail.
pub mod File
pub mod Refines
pub mod Sandbox
pub mod Durable
pub mod Bounded
pub mod Edit
pub mod Stale
use dire_agent.Prelude.{
  ℕ, ◌+◌, ◌%◌, ◌^◌, Bool, true, false, ◌&&◌, ◌||◌, not, Option, none, some, List, [], ◌∷◌, ◌==◌,
  if◌then◌else◌,
}
use dire_agent.Prelude.Text.{Text, codes, text_eq, is_empty}
use dire_agent.Prelude.Assoc.{lookup, insert, delete, contains}
use dire_agent.Prelude.Int.{pos}
use dire_agent.Prelude.Results.{Result, ok, err, fail_if}
use dire_agent.Prelude.Results
use dire_agent.Prelude.Exec.{Exec, pure, lift, read, write_state, ◌>>=◌, ◌>>◌}
use dire_agent.Configuration.Types.{Settings}
use dire_agent.Configuration.Patch.{Config, ToolPatch, SettingsPatch, ProjectOverride}
use dire_agent.Configuration.Merge.{effective}
use dire_agent.Configuration.Redact.{public_config, redact_settings}
use dire_agent.Configuration.Restore.{restore_redacted}
use dire_agent.Configuration.Values.{
  Platform, Invalid, invalid_project_id, folder_not_absolute, invalid_sandbox_mode, config_name,
}
use dire_agent.Configuration.Validate.{validate}
use dire_agent.Configuration.Io.{
  Io, Json, StoreError, Writing, after_rename, before_rename, clone_failed, decode_failed, external,
  or_error, refused, revision_conflict, trailing_data, try, try_all, validated,
}
use dire_agent.Configuration.SandboxChange.{change_sandbox}

unfoldable pub check_mode : Option Text → Result StoreError (Unit {0})
unfolding contains
check_mode none = ok tt
check_mode (some mode) =
    fail_if (not (contains (codes "strict" ∷ codes "workspace" ∷ codes "off" ∷ []) mode))
      (refused (invalid_sandbox_mode [] mode))

-- `raw.Revision++` on a uint64.
unfoldable pub next_revision : ℕ → ℕ
next_revision revision = (revision + 1) % 2 ^ 64

-- What `Update` writes in place of the old configuration.
unfoldable pub next_config : Config → Config → Config
unfolding restore_redacted next_revision
next_config raw candidate =
    restore_redacted (record candidate { version = pos 1; revision = next_revision raw.revision })
      raw

module _ {Doc : Type 0} (p : Platform) (json : Json Doc) (defaults : Config) where
  abbrev pub Method : Type 0 → Type 0
  Method A = Exec (Option Doc) StoreError A

  unfoldable pub write_locked : Writing → Config → Method (Unit {0})
  unfolding before_rename after_rename
  write_locked w config = do
    lift (before_rename w)
    write_state (some (json.encode config))
    lift (after_rename w)

  unfoldable pub clone_config : Config → Result StoreError Config
  clone_config config = or_error clone_failed (json.unmarshal (json.marshal config))

  -- The file that is there.
  unfoldable pub read_config : Doc → Result StoreError Config
  unfolding validate
  read_config doc = Results.◌>>=◌ (or_error decode_failed (json.decode doc)) λ decoded.
      Results.◌>>◌ (fail_if (not (json.at_end decoded.1)) trailing_data)
        (Results.◌>>◌ (validated (validate p decoded.0)) (ok decoded.0))

  unfoldable pub load_file : Writing → Option Doc → Method Config
  unfolding write_locked clone_config read_config
  load_file w none = do write_locked w defaults; lift (clone_config defaults)
  load_file w (some doc) = lift (read_config doc)

  unfoldable pub load_or_create : Io → Method Config
  unfolding load_file
  load_or_create io = do lift (try io.open_file); file ← read; load_file io.create file

  unfoldable pub load : Io → Method Config
  unfolding load_or_create public_config
  load io = do lift (try io.context); raw ← load_or_create io; pure (public_config p.to_lower raw)

  unfoldable pub runtime_settings : Io → Text → Method (Settings × Bool)
  unfolding load_or_create effective
  runtime_settings io project_id = do
    lift (try io.context)
    raw ← load_or_create io
    pure (effective raw project_id)

  unfoldable pub effective_settings : Io → Text → Method (Settings × Bool)
  unfolding runtime_settings redact_settings
  effective_settings io project_id = do
    found ← runtime_settings io project_id
    pure (redact_settings p.to_lower found.0, found.1)

  -- Both writers end so.
  unfoldable pub commit : Io → Config → Method Config
  unfolding validate write_locked public_config
  commit io config = do
    lift (validated (validate p config))
    write_locked io.replace config
    pure (public_config p.to_lower config)

  unfoldable pub update : Io → ℕ → Config → Method Config
  unfolding clone_config load_or_create next_config commit
  update io expected replacement = do
    lift (try io.context)
    candidate ← lift (clone_config replacement)
    raw ← load_or_create io
    lift (fail_if (not (raw.revision == expected)) (revision_conflict expected raw.revision))
    commit io (next_config raw candidate)

  -- The tests on the arguments of `SetProjectSandbox`.
  unfoldable pub check_sandbox_request : Text → Text → Option Text → Result StoreError (Unit {0})
  unfolding config_name check_mode
  check_sandbox_request id folder mode =
      Results.◌>>◌ (fail_if (not (config_name id)) (refused (invalid_project_id id))) (
        Results.◌>>◌
          (fail_if (is_empty folder || not (p.is_abs folder)) (refused (folder_not_absolute id)))
          (check_mode mode))

  -- The projects that were changed, if any.
  unfoldable pub commit_changed : Io → Config → Option Config → Method Config
  unfolding next_revision commit public_config
  commit_changed io raw none = pure (public_config p.to_lower raw)
  commit_changed io raw (some changed) =
      commit io (record changed { revision = next_revision changed.revision })

  unfoldable pub set_project_sandbox : Io → Text → Text → Option Text → Method Config
  unfolding check_sandbox_request load_or_create change_sandbox commit_changed
  set_project_sandbox io id folder mode = do
    lift (try io.context)
    lift (check_sandbox_request id folder mode)
    raw ← load_or_create io
    commit_changed io raw (change_sandbox id folder mode raw)
