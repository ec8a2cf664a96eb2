-- ===== src/Configuration/Store/Bounded.antt =====
-- configuration/store.go: `RuntimeSettings`, and what the validation leaves to the daemon.
use dire_agent.Prelude.{
  ℕ, ◌≤◌, ◌≡◌, ap, ◌∙◌, inl, inr, Bool, false, ◌||◌, not, Option, none, some, List, [], ◌∷◌, ◌++◌,
  All, arith, Bool-cases, Option-cases,
}
use mathlib.Core.Path.{subst}
use dire_agent.Prelude.Int.{ℤ, pos, negsuc, is_not_positive, at_most}
use dire_agent.Prelude.Text.{Text, codes, text_eq, text_eq→eq}
use dire_agent.Prelude.Assoc.{lookup}
use dire_agent.Prelude.Results.{ok, fail_if, fail_if-ok, >>-ok, >>=-eq-ok}
use dire_agent.Prelude.Exec.{Leaves, Leaves-ok, Leaves-result, Leaves-lift, Leaves-after}
use dire_agent.Configuration.Types.{SubagentSettings, Settings}
use dire_agent.Configuration.Patch.{ProjectOverride, Config}
use dire_agent.Configuration.Merge.{effective}
use dire_agent.Configuration.Values.{Platform}
use dire_agent.Configuration.Parts.{
  validate_tools, validate_skills, validate_mcp, validate_extensions, validate_subagents,
}
use dire_agent.Configuration.Validate.{
  check_model, check_queues, validate, validate_settings, check_project, validate-IsValid,
}
use dire_agent.Configuration.Io.{
  StoreError, decode_failed, trailing_data, Json, Io, Writing, try, or_error, validated,
}
use dire_agent.Configuration.Store.{read_config, load_file, load_or_create, runtime_settings}
use dire_agent.Configuration.Store.File.{
  JsonLaws, clone_config-ok, validated-ok, write_locked-Holds,
}

-- A number of the configuration between two bounds.
abbrev pub Between : ℕ → ℕ → ℤ → Type 0
Between low high (pos n) = (low ≤ n) × (n ≤ high)
Between low high (negsuc n) = ⊥

-- The limits of subagents that the daemon is handed.
pub record WithinRange (s : SubagentSettings) : Type 0 where
  pub depth : Between 1 4 s.max_depth
  pub children : Between 1 32 s.max_children
  pub concurrent : Between 1 16 s.max_concurrent

between_lem :
    (high : ℕ) (z : ℤ) → (is_not_positive z || not (at_most z high)) ≡ false → Between 1 high z
between_lem high (pos n) h = ground arith
between_lem high (negsuc n) h = cc

validate_subagents-WithinRange :
    (s : SubagentSettings) (scope : Text) → validate_subagents s scope ≡ ok tt → WithinRange s
unfolding validate_subagents
validate_subagents-WithinRange s scope h =
    let (depth, rest) = >>-ok _ _ tt h in
    let (children, rest) = >>-ok _ _ tt rest in
    let (concurrent, rest) = >>-ok _ _ tt rest in
    record {
      depth = between_lem 4 s.max_depth (fail_if-ok _ _ tt depth);
      children = between_lem 32 s.max_children (fail_if-ok _ _ tt children);
      concurrent = between_lem 16 s.max_concurrent (fail_if-ok _ _ tt concurrent);
    }

validate_settings-WithinRange :
    (p : Platform) (s : Settings) (scope : Text)
    → validate_settings p s scope ≡ ok tt
    → WithinRange s.subagents
unfolding validate_settings
validate_settings-WithinRange p s scope h =
    let (_, h) = >>-ok (check_model s.model s.thinking scope) _ tt h in
    let (_, h) = >>-ok (validate_tools s.tools scope) _ tt h in
    let (_, h) = >>-ok (check_queues s.queues scope) _ tt h in
    let (_, h) = >>-ok (validate_skills p s.skills scope) _ tt h in
    let (_, h) = >>-ok (validate_mcp p s.mcp scope) _ tt h in
    let (_, h) = >>-ok (validate_extensions p s.extensions scope) _ tt h in
    let (subagents, _) = >>-ok (validate_subagents s.subagents scope) _ tt h in
    validate_subagents-WithinRange s.subagents scope subagents

-- A value that is found is an entry.
lookup-All {ℓ} :
    {V : Type 0} (P : Text × V → Type ℓ) (m : List (Text × V)) (k : Text) (v : V)
    → All P m
    → lookup k m ≡ some v
    → P (k, v)
unfolding lookup
lookup-All P [] k v h e = cc
lookup-All P ((j, w) ∷ m) k v (here, rest) e = elim (Bool-cases (text_eq j k)) [
  | inl same ↦
      let key : j ≡ k = text_eq→eq j k same in
      let value : w ≡ v = ground arith in
      subst P (ap (λ a. (a, w)) key ∙ ap (λ b. (k, b)) value) here
  | inr other ↦ lookup-All P m k v rest (ground arith)
]

check_project-settings :
    (p : Platform) (c : Config) (id : Text) (project : ProjectOverride)
    → check_project p c (id, project) ≡ ok tt
    → validate_settings p (effective c id).0 (codes "project " ++ id) ≡ ok tt
unfolding check_project
check_project-settings p c id project h = ground arith

-- The settings of each project of a valid configuration, and of a missing one, are valid.
effective-valid :
    (p : Platform) (c : Config) (id : Text)
    → validate p c ≡ ok tt
    → (scope : Text) × (validate_settings p (effective c id).0 scope ≡ ok tt)
unfolding effective
effective-valid p c id h =
    let good = validate-IsValid p c h in
    elim (Option-cases (lookup id c.projects)) [
      | inl e ↦ (codes "global", rw e good.global_valid)
      | inr (project, e) ↦
          let here = lookup-All _ c.projects id project good.projects_valid e in
          (codes "project " ++ id, check_project-settings p c id project here)
    ]

module _ {Doc : Type 0} (p : Platform) (json : Json Doc) (defaults : Config) (laws : JsonLaws json)
    (valid : validate p defaults ≡ ok tt) where
  read_config-valid :
      (doc : Doc) (c : Config) → read_config p json defaults doc ≡ ok c → validate p c ≡ ok tt
  unfolding read_config
  read_config-valid doc c h =
      let (decoded, _, h) = >>=-eq-ok (or_error decode_failed (json.decode doc)) _ h in
      let (_, h) = >>-ok (fail_if (not (json.at_end decoded.1)) trailing_data) _ c h in
      let (good, h) = >>-ok (validated (validate p decoded.0)) (ok decoded.0) c h in
      let same : decoded.0 ≡ c = cc in
      subst (λ d. validate p d ≡ ok tt) same (validated-ok p decoded.0 tt good)

  load_file-valid :
      (w : Writing) (file : Option Doc) (f : Option Doc)
      → Leaves
          (λ e g. Unit {0})
          (λ raw g. validate p raw ≡ ok tt)
          (load_file p json defaults w file f)
  unfolding load_file
  load_file-valid w none f =
      Leaves-after _ _ (write_locked-Holds p json defaults laws w defaults f valid) (λ e g b. tt)
        (λ u g held.
          rw (clone_config-ok p json defaults laws defaults) (Leaves-ok defaults g valid))
  load_file-valid w (some doc) f =
      Leaves-result (read_config p json defaults doc) f (λ e r. tt)
        (λ c r. read_config-valid doc c r)

  -- Whatever stands in the configuration file, the settings that the daemon is handed for a project, or
  -- for one that the configuration does not have, allow subagents to a depth of 1 to 4, 1 to 32
  -- children and 1 to 16 at a time. Assumed are valid defaults, and that encoding/json reads back what
  -- it wrote.
  pub runtime_settings-WithinRange :
      (io : Io) (id : Text) (file : Option Doc) (found : Settings × Bool)
      → (runtime_settings p json defaults io id file).0 ≡ ok found
      → WithinRange found.0.subagents
  unfolding runtime_settings load_or_create
  runtime_settings-WithinRange io id file found h =
      let good : Leaves {S = Option Doc} {E = StoreError} (λ e g. Unit {0})
          (λ (a : Settings × Bool) g. WithinRange a.0.subagents)
          (runtime_settings p json defaults io id file) =
        Leaves-lift (try io.context) _ file (λ e _. tt)
          (λ _ _.
            Leaves-after _ _
              (Leaves-lift (try io.open_file) _ file (λ e _. tt)
                (λ _ _. load_file-valid io.create file file))
              (λ e g b. tt)
              (λ raw g raw_valid.
                let (scope, fine) = effective-valid p raw id raw_valid in
                Leaves-ok _ g (validate_settings-WithinRange p (effective raw id).0 scope fine))) in
      good.at_value found h
