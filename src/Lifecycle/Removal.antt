-- ===== src/Lifecycle/Removal.antt =====
-- internal/lifecycle/runtime.go: `RemoveRuntimeIfInstance`. The state is the file under the live name;
-- another daemon may install its own file while this one stands in the quarantine.
use dire_agent.Prelude.{
  ◌≡◌, refl, inl, inr, Bool, true, false, Option, none, some, if◌then◌else◌, Bool-cases,
  Option-cases,
}
use dire_agent.Prelude.Text.{Text, text_eq, text_eq→eq, is_empty}
use dire_agent.Prelude.Results.{Result, ok, err}
use dire_agent.Lifecycle.Runtime.{
  Net, RuntimeState, LifecycleError, external, empty_instance, Stored, read_runtime,
}

-- The errors of the calls, and what another daemon installs before the quarantined file is looked at.
pub record Removal : Type 0 where
  pub directory_missing : Bool
  pub make_quarantine : Option Text
  pub secure_quarantine : Option Text
  pub rename : Option Text
  pub link : Option Text
  pub remove_quarantined : Option Text
  pub installed : Option Stored

abbrev pub Removed : Type 0
Removed = Result LifecycleError Bool × Option Stored

-- The error of a file that could not be put back comes after that of reading it.
restored : Option LifecycleError → Option Text → Option Text → Result LifecycleError Bool
restored none none none = ok false
restored none none (some e) = err (external e)
restored none (some e) removal = err (external e)
restored (some e) none none = err e
restored (some e) none (some d) = err (external d)
restored (some e) (some d) removal = err (external d)

-- The live name after another daemon installed a file, and after the old file was linked to it where it
-- is free.
live_after : Option Stored → Option Stored → Option Text → Option Stored
live_after (some new) old failed = some new
live_after none old none = old
live_after none old (some e) = none

-- `os.Link` answers os.ErrExist where the name is taken, and that is no error here.
link_error : Option Stored → Option Text → Option Text
link_error (some new) failed = none
link_error none failed = failed

-- `restoreQuarantinedRuntime`, with the error of reading the file before it.
unfoldable pub restore_quarantined : Removal → Option LifecycleError → Option Stored → Removed
unfolding restored live_after link_error
restore_quarantined r read_error old = (
  restored read_error (link_error r.installed r.link) r.remove_quarantined,
  live_after r.installed old r.link,
)

remove_error : Option Text → Result LifecycleError Bool
remove_error none = ok true
remove_error (some e) = err (external e)

-- The quarantined file, once it was read.
unfoldable pub judge_quarantined :
    Removal → Text → Option Stored → Result LifecycleError RuntimeState → Removed
unfolding restore_quarantined remove_error text_eq
judge_quarantined r id old (err e) = restore_quarantined r (some e) old
judge_quarantined r id old (ok state) =
    if text_eq state.instance_id id
    then (remove_error r.remove_quarantined, r.installed)
    else restore_quarantined r none old

-- The steps before the file is moved, and the move.
abbrev tried : Removal → Option LifecycleError
tried r = elim r.make_quarantine [
  | some e ↦ some (external e)
  | none ↦ elim r.secure_quarantine [
    | some e ↦ some (external e)
    | none ↦ elim r.rename [ some e ↦ some (external e) | none ↦ none ]
  ]
]

module _ (net : Net) where
  -- The file that there is.
  unfoldable pub quarantine : Removal → Text → Option Stored → Option LifecycleError → Removed
  unfolding judge_quarantined read_runtime
  quarantine r id file (some e) = (err e, file)
  quarantine r id none none = (ok false, none)
  quarantine r id (some file) none =
      judge_quarantined r id (some file) (read_runtime net (some file))

  unfoldable pub remove_runtime_if_instance : Removal → Text → Option Stored → Removed
  unfolding quarantine
  remove_runtime_if_instance r id file =
      if is_empty id
      then (err empty_instance, file)
      else if r.directory_missing
      then (ok false, file)
      else quarantine r id file (tried r)

-- What has become of the live name.
pub data Fate (net : Net) (r : Removal) (id : Text) (file : Option Stored) (live : Option Stored)
    : Type 0 where
  kept : live ≡ file → Fate net r id file live
  replaced : (new : Stored) → r.installed ≡ some new → live ≡ some new → Fate net r id file live
  removed :
      (state : RuntimeState)
      → read_runtime net file ≡ ok state
      → state.instance_id ≡ id
      → live ≡ none
      → Fate net r id file live
  unlinked : (e : Text) → r.link ≡ some e → live ≡ none → Fate net r id file live

restore_quarantined-Fate :
    (net : Net) (r : Removal) (id : Text) (read_error : Option LifecycleError)
    (file : Option Stored)
    → Fate net r id file (restore_quarantined r read_error file).1
unfolding restore_quarantined
restore_quarantined-Fate net r id read_error file = elim (Option-cases r.installed) [
  | inr (new, e) ↦ replaced new e (rw e refl)
  | inl e ↦ elim (Option-cases r.link) [
    | inl free ↦ kept (rw e (rw free refl))
    | inr (d, failed) ↦ unlinked d failed (rw e (rw failed refl))
  ]
]

judge_quarantined-Fate :
    (net : Net) (r : Removal) (id : Text) (file : Option Stored)
    (read : Result LifecycleError RuntimeState)
    → read_runtime net file ≡ read
    → Fate net r id file (judge_quarantined r id file read).1
unfolding judge_quarantined
judge_quarantined-Fate net r id file (err e) h = restore_quarantined-Fate net r id (some e) file
judge_quarantined-Fate net r id file (ok state) h =
    elim (Bool-cases (text_eq state.instance_id id)) [
      | inr other ↦ rw other (restore_quarantined-Fate net r id none file)
      | inl same ↦ rw same (elim (Option-cases r.installed) [
        | inl free ↦ removed state h (text_eq→eq state.instance_id id same) free
        | inr (new, e) ↦ replaced new e e
      ])
    ]

Fate-if :
    (net : Net) (r : Removal) (id : Text) (file : Option Stored) (b : Bool) (x y : Removed)
    → Fate net r id file x.1
    → Fate net r id file y.1
    → Fate net r id file (if b then x else y).1
Fate-if net r id file true x y fx fy = fx
Fate-if net r id file false x y fx fy = fy

module _ (net : Net) (r : Removal) (id : Text) where
  quarantine-Fate :
      (file : Option Stored) (tries : Option LifecycleError)
      → Fate net r id file (quarantine net r id file tries).1
  unfolding quarantine
  quarantine-Fate file (some e) = kept refl
  quarantine-Fate none none = kept refl
  quarantine-Fate (some file) none =
      judge_quarantined-Fate net r id (some file) (read_runtime net (some file)) refl

  -- Whatever fails, and whatever another daemon installs meanwhile, after RemoveRuntimeIfInstance the live
  -- name has the file that it had, or the one that the other daemon installed; or it is free, and then
  -- the file was a valid runtime state of the given instance, or linking it back failed.
  pub remove_runtime_if_instance-Fate :
      (file : Option Stored) → Fate net r id file (remove_runtime_if_instance net r id file).1
  unfolding remove_runtime_if_instance
  remove_runtime_if_instance-Fate file =
      Fate-if net r id file (is_empty id) _ _ (kept refl)
        (Fate-if net r id file r.directory_missing _ _ (kept refl) (quarantine-Fate file (tried r)))
