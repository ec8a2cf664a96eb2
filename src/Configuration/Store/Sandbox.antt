-- ===== src/Configuration/Store/Sandbox.antt =====
-- configuration/store.go: `SetProjectSandbox` and the settings that take effect after it.
use dire_agent.Prelude.{
  ℕ, ◌≡◌, refl, ap, ◌∙◌, ◌⊎◌, inl, inr, true, false, Option, none, some, arith, Bool-cases,
  Option-cases,
}
use mathlib.Core.Path.{subst}
use dire_agent.Prelude.Text.{Text, text_eq, text_eq→eq, text_eq_refl}
use dire_agent.Prelude.Assoc.{lookup, insert, delete, lookup-insert, lookup-delete}
use dire_agent.Prelude.Results.{ok}
use dire_agent.Prelude.Exec.{Leaves, Leaves-ok, Leaves-lift, Leaves-after, Leaves-map}
use dire_agent.Configuration.Patch.{Config, ToolPatch, ProjectOverride}
use dire_agent.Configuration.Types.{Settings}
use dire_agent.Configuration.Merge.{or_keep, apply_patch, apply_tool_patch, effective}
use dire_agent.Configuration.Redact.{public_config}
use dire_agent.Configuration.Values.{Platform}
use dire_agent.Configuration.Validate.{validate}
use dire_agent.Configuration.Io.{Json, Io, try}
use dire_agent.Configuration.SandboxChange.{
  overridden, clear_sandbox, write_sandbox, empty_settings_patch, or_new_project, store_project,
  clear_found, write_found, change_sandbox,
}
use dire_agent.Configuration.Store.{
  next_revision, check_sandbox_request, commit_changed, set_project_sandbox,
}
use dire_agent.Configuration.Store.File.{JsonLaws, Holds, commit-Holds, load_or_create-Holds}

-- The project has the mode, or that of the global settings; no other project's settings change.
abbrev pub Switched : Config → Text → Option Text → Config → Type 0
Switched old id mode new =
    ((effective new id).0.tools.sandbox ≡ or_keep mode old.global.tools.sandbox)
    × ((j : Text) → text_eq id j ≡ false → effective new j ≡ effective old j)

-- The sandbox mode that a project leads to.
abbrev sandbox_of : Config → Option ProjectOverride → Text
sandbox_of c none = c.global.tools.sandbox
sandbox_of c (some project) = (apply_patch c.global project.settings).tools.sandbox

effective-sandbox :
    (c : Config) (id : Text)
    → (effective c id).0.tools.sandbox ≡ sandbox_of c (lookup id c.projects)
unfolding effective
effective-sandbox c id = elim (Option-cases (lookup id c.projects)) [
  | inl e ↦ rw e refl
  | inr (project, e) ↦ rw e refl
]

apply_patch-none :
    (s : Settings) (project : ProjectOverride)
    → empty_settings_patch project.settings ≡ true
    → (apply_patch s project.settings).tools.sandbox ≡ s.tools.sandbox
unfolding apply_patch empty_settings_patch
apply_patch-none s project h = ground arith

overridden-none :
    (c : Config) (o : Option ProjectOverride)
    → overridden o ≡ none
    → sandbox_of c o ≡ c.global.tools.sandbox
unfolding overridden apply_patch apply_tool_patch
overridden-none c none h = refl
overridden-none c (some project) h = ground arith

overridden-some :
    (c : Config) (o : Option ProjectOverride) (tools : ToolPatch) (mode : Text)
    → overridden o ≡ some (tools, mode)
    → sandbox_of c o ≡ mode
unfolding overridden apply_patch apply_tool_patch
overridden-some c none tools mode h = cc
overridden-some c (some project) tools mode h = ground arith

clear_sandbox-lem :
    (c : Config) (tools : ToolPatch) (project : ProjectOverride)
    → sandbox_of c (some (clear_sandbox tools project)) ≡ c.global.tools.sandbox
unfolding clear_sandbox apply_patch apply_tool_patch
clear_sandbox-lem c tools project = ground arith

write_sandbox-lem :
    (c : Config) (mode : Text) (project : ProjectOverride)
    → sandbox_of c (some (write_sandbox mode project)) ≡ mode
unfolding write_sandbox apply_patch apply_tool_patch
write_sandbox-lem c mode project = refl

-- Other projects keep their settings.
other_effective :
    (c d : Config) (j : Text)
    → c.global ≡ d.global
    → lookup j c.projects ≡ lookup j d.projects
    → effective c j ≡ effective d j
unfolding effective
other_effective c d j same found = rw same (rw found refl)

Switched-insert :
    (raw : Config) (id : Text) (mode : Text) (project : ProjectOverride)
    → Switched raw id
        (some mode)
        (record raw { projects = insert id (write_sandbox mode project) raw.projects })
Switched-insert raw id mode project =
    let new : Config = record raw {
      projects = insert id (write_sandbox mode project) raw.projects;
    } in
    let found = lookup-insert id id (write_sandbox mode project) raw.projects in
    (
      effective-sandbox new id
          ∙ rw found (rw (text_eq_refl id) (write_sandbox-lem raw mode project)),
      λ j other.
          other_effective new raw j refl
            (lookup-insert id j (write_sandbox mode project) raw.projects ∙ rw other refl),
    )

Switched-store_project :
    (raw : Config) (id : Text) (tools : ToolPatch) (project : ProjectOverride)
    → Switched raw id none (store_project id (clear_sandbox tools project) raw)
unfolding store_project
Switched-store_project raw id tools project =
    let cleared = clear_sandbox tools project in
    elim (Bool-cases (empty_settings_patch cleared.settings)) [
      | inl empty ↦
          let new : Config = record raw { projects = delete id raw.projects } in
          rw empty (
            effective-sandbox new id
                ∙ rw (lookup-delete id id raw.projects) (rw (text_eq_refl id) refl),
            λ j other.
                other_effective new raw j refl (lookup-delete id j raw.projects ∙ rw other refl),
          )
      | inr kept ↦
          let new : Config = record raw { projects = insert id cleared raw.projects } in
          rw kept (
            effective-sandbox new id
                ∙ rw (lookup-insert id id cleared raw.projects)
                    (rw (text_eq_refl id) (clear_sandbox-lem raw tools project)),
            λ j other.
                other_effective new raw j refl
                  (lookup-insert id j cleared raw.projects ∙ rw other refl),
          )
    ]

-- What is to be written, or that nothing is to be.
abbrev Changed : Config → Text → Option Text → Option Config → Type 0
Changed raw id mode none = Switched raw id mode raw
Changed raw id mode (some changed) =
    Switched raw id mode changed × (changed.revision ≡ raw.revision)

change_sandbox-Changed :
    (id folder : Text) (mode : Option Text) (raw : Config)
    → Changed raw id mode (change_sandbox id folder mode raw)
unfolding change_sandbox clear_found store_project write_found
change_sandbox-Changed id folder none raw =
    let project = or_new_project folder (lookup id raw.projects) in
    elim (Option-cases (overridden (lookup id raw.projects))) [
      | inl e ↦
          rw (e, Changed)
            (
              effective-sandbox raw id ∙ overridden-none raw (lookup id raw.projects) e,
              λ j other. refl,
            )
      | inr (found, e) ↦ rw (e, Changed) (Switched-store_project raw id found.0 project, refl)
    ]
change_sandbox-Changed id folder (some mode) raw =
    let project = or_new_project folder (lookup id raw.projects) in
    elim (Option-cases (overridden (lookup id raw.projects))) [
      | inl e ↦ rw (e, Changed) (Switched-insert raw id mode project, refl)
      | inr (found, e) ↦ elim (Bool-cases (text_eq found.1 mode)) [
        | inl same ↦
            rw (e, Changed)
              (rw (same, Changed)
                (
                  effective-sandbox raw id
                      ∙ overridden-some raw (lookup id raw.projects) found.0 found.1 e
                      ∙ text_eq→eq found.1 mode same,
                  λ j other. refl,
                ))
        | inr differs ↦
            rw (e, Changed) (rw (differs, Changed) (Switched-insert raw id mode project, refl))
      ]
    ]

Switched-revision :
    (old : Config) (id : Text) (mode : Option Text) (changed : Config) (revision : ℕ)
    → Switched old id mode changed
    → Switched old id mode (record changed { revision = revision })
Switched-revision old id mode changed revision (here, others) =
    let new : Config = record changed { revision = revision } in
    (
      ap (λ e. e.0.tools.sandbox) (other_effective new changed id refl refl) ∙ here,
      λ j other. other_effective new changed j refl refl ∙ others j other,
    )

-- A file with the mode.
abbrev pub SwitchedFile :
    {Doc : Type 0}
    → Platform
    → Json Doc
    → Config
    → Config
    → Text
    → Option Text
    → Option Doc
    → Type 0
SwitchedFile p json defaults old id mode f =
    (new : Config) × Switched old id mode new × Holds p json defaults new f

module _ {Doc : Type 0} (p : Platform) (json : Json Doc) (defaults : Config) (laws : JsonLaws json)
    (valid : validate p defaults ≡ ok tt) (old : Config) (id folder : Text)
    (mode : Option Text) where
  commit_changed-Switches :
      (io : Io) (change : Option Config) (file : Option Doc)
      → Changed old id mode change
      → Holds p json defaults old file
      → Leaves
          (λ e f. Holds p json defaults old f ⊎ SwitchedFile p json defaults old id mode f)
          (λ shown f.
            (new : Config) × Switched old id mode new
            × Holds p json defaults new f
            × (shown ≡ public_config p.to_lower new))
          (commit_changed p json defaults io old change file)
  unfolding commit_changed
  commit_changed-Switches io none file same h = Leaves-ok _ file (old, same, h, refl)
  commit_changed-Switches io (some changed) file (switched, _) h =
      let new : Config = record changed { revision = next_revision changed.revision } in
      let done = Switched-revision old id mode changed (next_revision changed.revision) switched in
      Leaves-map _ (commit-Holds p json defaults laws io old new file h)
        (λ e f b. elim b [ inl kept ↦ inl kept | inr (_, held) ↦ inr (new, done, held) ])
        (λ shown f (_, held, public). (new, done, held, public))

  -- After SetProjectSandbox has returned a value, the effective sandbox mode of the project is the given
  -- one, or that of the global settings where none was given, and the effective settings of every other
  -- project are those before; the value is the public view of what the file then holds. After an error
  -- the file holds what it held, or a configuration with these effective settings. Assumed are valid
  -- defaults, and that encoding/json reads back what it wrote.
  pub set_project_sandbox-Switches :
      (io : Io) (file : Option Doc)
      → Holds p json defaults old file
      → Leaves
          (λ e f. Holds p json defaults old f ⊎ SwitchedFile p json defaults old id mode f)
          (λ shown f.
            (new : Config) × Switched old id mode new
            × Holds p json defaults new f
            × (shown ≡ public_config p.to_lower new))
          (set_project_sandbox p json defaults io id folder mode file)
  unfolding set_project_sandbox
  set_project_sandbox-Switches io file h =
      Leaves-lift (try io.context) _ file (λ e _. inl h)
        λ _ _.
          Leaves-lift (check_sandbox_request p json defaults id folder mode) _ file (λ e _. inl h)
            λ _ _.
              Leaves-after _ _ (load_or_create-Holds p json defaults laws io old file valid h)
                (λ e f kept. inl kept)
                (λ raw f (same, kept). rw same (
                  commit_changed-Switches io (change_sandbox id folder mode old) f
                    (change_sandbox-Changed id folder mode old) kept))

pub change_sandbox-keeps_revision :
    (id folder : Text) (mode : Option Text) (raw changed : Config)
    → change_sandbox id folder mode raw ≡ some changed
    → changed.revision ≡ raw.revision
change_sandbox-keeps_revision id folder mode raw changed h =
    (subst (Changed raw id mode) h (change_sandbox-Changed id folder mode raw)).1
