-- ===== src/Configuration/Store/Durable.antt =====
-- configuration/store.go: orders of operations on one file, each holding the lock, by any number of
-- clients and with any failures of the operating system.
use dire_agent.Prelude.{
  ℕ, ◌^◌, ◌<◌, ◌≡◌, refl, ap, ◌∙◌, sym, ◌⊎◌, inl, inr, false, not, Option, none, some, List, [],
  ◌∷◌, arith, ◌==◌,
}
use dire_agent.Prelude.Text.{Text}
use dire_agent.Prelude.Results.{Result, Result-cases, ok, fail_if}
use dire_agent.Prelude.Exec.{Leaves, Leaves-ok, Leaves-lift, Leaves-after, Leaves-map, after}
use dire_agent.Configuration.Patch.{Config}
use dire_agent.Configuration.Restore.{restore_redacted}
use dire_agent.Configuration.Values.{Platform}
use dire_agent.Configuration.Validate.{validate, validate-IsValid}
use dire_agent.Configuration.Io.{StoreError, revision_conflict, Json, Io, try}
use dire_agent.Configuration.SandboxChange.{change_sandbox}
use dire_agent.Configuration.Store.{
  next_revision, next_config, check_sandbox_request, load_or_create, load, runtime_settings,
  effective_settings, commit, update, commit_changed, set_project_sandbox,
}
use dire_agent.Configuration.Store.File.{
  JsonLaws, Holds, clone_config-ok, commit-Holds, load_or_create-Holds,
}
use dire_agent.Configuration.Store.Sandbox.{change_sandbox-keeps_revision}

-- One call of a method, with the errors that it meets.
pub data Action : Type 0 where
  loading : Io → Action
  reading : Io → Text → Action
  showing : Io → Text → Action
  updating : Io → ℕ → Config → Action
  setting_sandbox : Io → Text → Text → Option Text → Action

-- The same configuration, or a later one.
abbrev pub Later : Config → Config → Type 0
Later old new = (new ≡ old) ⊎ (old.revision < new.revision)

next_revision-later :
    (r : ℕ)
    → r < 2 ^ 64
    → (next_revision r == 0) ≡ false
    → (r < next_revision r) × (next_revision r < 2 ^ 64)
unfolding next_revision
next_revision-later r h positive = (ground arith, ground arith)

next_config-revision :
    (old replacement : Config) → (next_config old replacement).revision ≡ next_revision old.revision
unfolding next_config restore_redacted
next_config-revision old replacement = refl

left {ℓ} :
    {S E : Type 0} {A : Type ℓ} {P : S → Type 0} {m : Result E A × S}
    → Leaves (λ e s. P s) (λ a s. P s) m
    → P m.1
left {m} h = elim (Result-cases m.0) [ inl (e, r) ↦ h.at_error e r | inr (a, r) ↦ h.at_value a r ]

module _ {Doc : Type 0} (p : Platform) (json : Json Doc) (defaults : Config) where
  unfoldable pub perform : Action → Option Doc → Option Doc
  unfolding load runtime_settings effective_settings update set_project_sandbox
  perform (loading io) file = (load p json defaults io file).1
  perform (reading io id) file = (runtime_settings p json defaults io id file).1
  perform (showing io id) file = (effective_settings p json defaults io id file).1
  perform (updating io expected replacement) file =
      (update p json defaults io expected replacement file).1
  perform (setting_sandbox io id folder mode) file =
      (set_project_sandbox p json defaults io id folder mode file).1

  unfoldable pub perform_all : List Action → Option Doc → Option Doc
  unfolding perform
  perform_all [] file = file
  perform_all (action ∷ actions) file = perform_all actions (perform action file)

  -- A valid configuration that follows another.
  pub record Follows (old : Config) (file : Option Doc) : Type 0 where
    pub now : Config
    pub held : Holds p json defaults now file
    pub now_valid : validate p now ≡ ok tt
    pub later : Later old now
    pub counted : now.revision < 2 ^ 64

module _ {Doc : Type 0} (p : Platform) (json : Json Doc) (defaults : Config) (laws : JsonLaws json)
    (valid : validate p defaults ≡ ok tt) (old : Config) (below : old.revision < 2 ^ 64)
    (old_valid : validate p old ≡ ok tt) where
  abbrev Here : Option Doc → Type 0
  Here f = Follows p json defaults old f

  unchanged : (f : Option Doc) → Holds p json defaults old f → Here f
  unchanged f h = record {
    now = old;
    held = h;
    now_valid = old_valid;
    later = inl refl;
    counted = below;
  }

  -- A write of a configuration with the next revision.
  advanced :
      (f : Option Doc) (new : Config)
      → new.revision ≡ next_revision old.revision
      → validate p new ≡ ok tt
      → Holds p json defaults new f
      → Here f
  advanced f new next good h =
      let positive = (validate-IsValid p new good).positive in
      let step = next_revision-later old.revision below (rw next at positive) in
      record {
        now = new;
        held = h;
        now_valid = good;
        later = inr (rw next step.0);
        counted = rw next step.1;
      }

  commit-Follows :
      (io : Io) (new : Config) (f : Option Doc)
      → new.revision ≡ next_revision old.revision
      → Holds p json defaults old f
      → Leaves (λ e g. Here g) (λ shown g. Here g) (commit p json defaults io new f)
  commit-Follows io new f next h =
      Leaves-map _ (commit-Holds p json defaults laws io old new f h)
        (λ e g b. elim b [
          | inl kept ↦ unchanged g kept
          | inr (good, held) ↦ advanced g new next good held
        ])
        (λ shown g (good, held, public). advanced g new next good held)

  commit_changed-Follows :
      (io : Io) (change : Option Config) (f : Option Doc)
      → ((changed : Config) → change ≡ some changed → changed.revision ≡ old.revision)
      → Holds p json defaults old f
      → Leaves (λ e g. Here g) (λ shown g. Here g) (commit_changed p json defaults io old change f)
  unfolding commit_changed
  commit_changed-Follows io none f keeps h = Leaves-ok _ f (unchanged f h)
  commit_changed-Follows io (some changed) f keeps h =
      commit-Follows io (record changed { revision = next_revision changed.revision }) f
        (ap next_revision (keeps changed refl)) h

  -- Every method begins so.
  loaded-Follows {ℓ} :
      {A : Type ℓ} (io : Io) (file : Option Doc)
      (rest : Config → Option Doc → Result StoreError A × Option Doc)
      → Holds p json defaults old file
      → ((f : Option Doc)
          → Holds p json defaults old f
          → Leaves (λ e g. Here g) (λ a g. Here g) (rest old f))
      → Leaves (λ e g. Here g) (λ a g. Here g) (after rest (load_or_create p json defaults io file))
  loaded-Follows io file rest h next =
      Leaves-after _ _ (load_or_create-Holds p json defaults laws io old file valid h)
        (λ e f kept. unchanged f kept) (λ raw f (same, kept). rw same (next f kept))

  update-Follows :
      (io : Io) (expected : ℕ) (replacement : Config) (file : Option Doc)
      → Holds p json defaults old file
      → Leaves
          (λ e g. Here g)
          (λ shown g. Here g)
          (update p json defaults io expected replacement file)
  unfolding update
  update-Follows io expected replacement file h =
      rw (clone_config-ok p json defaults laws replacement) (
        Leaves-lift (try io.context) _ file (λ e _. unchanged file h)
          λ _ _. loaded-Follows io file _ h λ f kept.
            Leaves-lift
              (fail_if (not (old.revision == expected)) (revision_conflict expected old.revision)) _
              f (λ e _. unchanged f kept)
              λ _ _.
                commit-Follows io (next_config old replacement) f
                  (next_config-revision old replacement) kept)

  set_project_sandbox-Follows :
      (io : Io) (id folder : Text) (mode : Option Text) (file : Option Doc)
      → Holds p json defaults old file
      → Leaves
          (λ e g. Here g)
          (λ shown g. Here g)
          (set_project_sandbox p json defaults io id folder mode file)
  unfolding set_project_sandbox
  set_project_sandbox-Follows io id folder mode file h =
      Leaves-lift (try io.context) _ file (λ e _. unchanged file h)
        λ _ _.
          Leaves-lift (check_sandbox_request p json defaults id folder mode) _ file
            (λ e _. unchanged file h)
            λ _ _. loaded-Follows io file _ h λ f kept.
              commit_changed-Follows io (change_sandbox id folder mode old) f
                (change_sandbox-keeps_revision id folder mode old) kept

  runtime_settings-Follows :
      (io : Io) (id : Text) (file : Option Doc)
      → Holds p json defaults old file
      → Leaves (λ e g. Here g) (λ shown g. Here g) (runtime_settings p json defaults io id file)
  unfolding runtime_settings
  runtime_settings-Follows io id file h =
      Leaves-lift (try io.context) _ file (λ e _. unchanged file h)
        λ _ _. loaded-Follows io file _ h λ f kept. Leaves-ok _ f (unchanged f kept)

  pub perform-Follows :
      (action : Action) (file : Option Doc)
      → Holds p json defaults old file
      → Here (perform p json defaults action file)
  unfolding perform load effective_settings
  perform-Follows (loading io) file h = left (
      Leaves-lift (try io.context) _ file (λ e _. unchanged file h)
        λ _ _. loaded-Follows io file _ h λ f kept. Leaves-ok _ f (unchanged f kept))
  perform-Follows (reading io id) file h = left (runtime_settings-Follows io id file h)
  perform-Follows (showing io id) file h = left (
      Leaves-after _ _ (runtime_settings-Follows io id file h) (λ e f here. here)
        (λ found f here. Leaves-ok _ f here))
  perform-Follows (updating io expected replacement) file h =
      left (update-Follows io expected replacement file h)
  perform-Follows (setting_sandbox io id folder mode) file h =
      left (set_project_sandbox-Follows io id folder mode file h)

Later-trans : (a b c : Config) → Later a b → Later b c → Later a c
Later-trans a b c (inl e) (inl f) = inl (f ∙ e)
Later-trans a b c (inl e) (inr f) = inr (rw (sym e) f)
Later-trans a b c (inr e) (inl f) = inr (rw f e)
Later-trans a b c (inr e) (inr f) = inr (omega arith)

module _ {Doc : Type 0} (p : Platform) (json : Json Doc) (defaults : Config) (laws : JsonLaws json)
    (valid : validate p defaults ≡ ok tt) where
  -- From a file that holds a valid configuration, where an absent file stands for the defaults, every
  -- order of calls of the store's methods, whatever errors they meet and whatever their arguments,
  -- leaves a file that holds a valid configuration. It is the one before, or its revision is larger, so
  -- that a revision that was read twice was read with the same configuration. Assumed are valid
  -- defaults, a revision of 64 bits, and that encoding/json reads back what it wrote.
  pub perform_all-Follows :
      (actions : List Action) (old : Config) (file : Option Doc)
      → old.revision < 2 ^ 64
      → validate p old ≡ ok tt
      → Holds p json defaults old file
      → Follows p json defaults old (perform_all p json defaults actions file)
  unfolding perform_all
  perform_all-Follows [] old file below good h =
      unchanged p json defaults laws valid old below good file h
  perform_all-Follows (action ∷ actions) old file below good h =
      let first = perform-Follows p json defaults laws valid old below good action file h in
      let rest =
        perform_all-Follows actions first.now (perform p json defaults action file) first.counted
          first.now_valid first.held in
      record {
        now = rest.now;
        held = rest.held;
        now_valid = rest.now_valid;
        later = Later-trans old first.now rest.now first.later rest.later;
        counted = rest.counted;
      }
