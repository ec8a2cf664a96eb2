-- ===== src/Configuration/Io.antt =====
-- configuration/store.go and configuration/atomic.go: errors, and the calls outside the repository.
use dire_agent.Prelude.{ℕ, Bool, Option, none, some, List, [], ◌∷◌}
use dire_agent.Prelude.Text.{Text}
use dire_agent.Prelude.Results.{Result, ok, err, ◌>>◌}
use dire_agent.Configuration.Patch.{Config}
use dire_agent.Configuration.Values.{Invalid}

-- The errors; those of the context, of the operating system and of encoding/json by their texts.
pub data StoreError : Type 0 where
  external : Text → StoreError
  decode_failed : StoreError
  trailing_data : StoreError
  clone_failed : StoreError
  refused : Invalid → StoreError
  revision_conflict : ℕ → ℕ → StoreError

-- What package encoding/json does with a configuration: `Encode`, `Marshal`, `Unmarshal`, and a strict
-- `Decode`, which leaves the rest of its input; `at_end` is whether a further `Decode` meets io.EOF.
pub record Json (Doc : Type 0) : Type 0 where
  pub encode : Config → Doc
  pub marshal : Config → Doc
  pub unmarshal : Doc → Option Config
  pub decode : Doc → Option (Config × Doc)
  pub at_end : Doc → Bool

-- The errors that `writeLocked` meets, `none` where a call succeeds.
pub record Writing : Type 0 where
  pub context_before : Option Text
  pub make_directory : Option Text
  pub create_temporary : Option Text
  pub secure_temporary : Option Text
  pub encode_temporary : Option Text
  pub sync_temporary : Option Text
  pub close_temporary : Option Text
  pub context_after : Option Text
  pub rename : Option Text
  pub secure_file : Option Text
  pub open_directory : Option Text
  pub sync_directory : Option Text

-- The errors that an operation meets: of the context, of opening the file, and of its writes.
pub record Io : Type 0 where
  pub context : Option Text
  pub open_file : Option Text
  pub create : Writing
  pub replace : Writing

-- `if err := call(); err != nil { return err }`.
abbrev pub try : Option Text → Result StoreError (Unit {0})
try none = ok tt
try (some error) = err (external error)

abbrev pub try_all : List (Option Text) → Result StoreError (Unit {0})
try_all [] = ok tt
try_all (call ∷ calls) = try call >> try_all calls

-- `writeLocked` up to the call of os.Rename.
unfoldable pub before_rename : Writing → Result StoreError (Unit {0})
before_rename w = try_all (
    w.context_before ∷ w.make_directory ∷ w.create_temporary ∷ w.secure_temporary
    ∷ w.encode_temporary ∷ w.sync_temporary ∷ w.close_temporary ∷ w.context_after ∷ w.rename ∷ [])

unfoldable pub after_rename : Writing → Result StoreError (Unit {0})
after_rename w = try_all (w.secure_file ∷ w.open_directory ∷ w.sync_directory ∷ [])

abbrev pub or_error : {A : Type 0} → StoreError → Option A → Result StoreError A
or_error error none = err error
or_error error (some value) = ok value

-- `Validate`, among the errors of the store.
abbrev pub validated : Result Invalid (Unit {0}) → Result StoreError (Unit {0})
validated (ok passed) = ok tt
validated (err reason) = err (refused reason)
