-- ===== src/Configuration/Store/Refines.antt =====
-- configuration/store.go: `Update` against a compare-and-set on the revision of one configuration,
-- which knows nothing of files, of JSON, or of the lock.
use dire_agent.Prelude.{
  ℕ, suc, ◌^◌, ◌<◌, ◌≡◌, refl, ◌⊎◌, inl, inr, true, false, not, Option, none, arith, leb, ◌==◌,
  Bool-cases,
}
use dire_agent.Prelude.Int.{pos}
use dire_agent.Prelude.Results.{Result, ok, ◌>>◌, fail_if, fail_if-ok}
use dire_agent.Prelude.Exec.{Leaves, Leaves-lift, Leaves-after, Leaves-map}
use dire_agent.Configuration.Patch.{Config}
use dire_agent.Configuration.Redact.{public_config}
use dire_agent.Configuration.Restore.{restore_redacted}
use dire_agent.Configuration.Values.{Platform, revision_not_positive}
use dire_agent.Configuration.Validate.{validate, validate-IsValid}
use dire_agent.Configuration.Io.{
  StoreError, refused, revision_conflict, Json, Writing, Io, try, validated,
}
use dire_agent.Configuration.Store.{next_revision, next_config, commit, update}
use dire_agent.Configuration.Store.File.{
  JsonLaws, Holds, clone_config-ok, commit-Holds, load_or_create-Holds,
}

-- The configuration after an update, `old` being the one before; the revision is counted up to the
-- last number of 64 bits, and none follows that.
abbrev pub successor : Config → Config → Config
successor old replacement =
    restore_redacted (record replacement { version = pos 1; revision = suc old.revision }) old

unfoldable pub compare_and_set : Platform → Config → ℕ → Config → Result StoreError Config
compare_and_set p old expected replacement =
    fail_if (not (old.revision == expected)) (revision_conflict expected old.revision)
    >> (fail_if (leb 18446744073709551615 old.revision) (refused revision_not_positive)
        >> (validated (validate p (successor old replacement)) >> ok (successor old replacement)))

next_revision-suc : (r : ℕ) → r < 18446744073709551615 → next_revision r ≡ suc r
unfolding next_revision
next_revision-suc r h = omega arith

next_revision-wraps : (r : ℕ) → r < 2 ^ 64 → leb 18446744073709551615 r ≡ true → next_revision r ≡ 0
unfolding next_revision
next_revision-wraps r below h = ground arith

pub leb→< : (r : ℕ) → leb 18446744073709551615 r ≡ false → r < 18446744073709551615
leb→< r h = ground arith

zero-positive : (r : ℕ) → r ≡ 0 → (r == 0) ≡ false → ⊥
zero-positive r z h = ground arith

module _ (p : Platform) (old replacement : Config) where
  pub next_config-successor :
      old.revision < 18446744073709551615 → next_config old replacement ≡ successor old replacement
  unfolding next_config
  next_config-successor h = rw (next_revision-suc old.revision h) refl

  -- The last revision has no valid successor.
  next_config-counts :
      old.revision < 2 ^ 64
      → validate p (next_config old replacement) ≡ ok tt
      → leb 18446744073709551615 old.revision ≡ false
  unfolding next_config
  next_config-counts below valid = elim (Bool-cases (leb 18446744073709551615 old.revision)) [
    | inr fits ↦ fits
    | inl last ↦
        let positive = (validate-IsValid p (next_config old replacement) valid).positive in
        absurd (zero-positive _ (next_revision-wraps old.revision below last) positive)
  ]

  compare_and_set-next_config :
      (expected : ℕ)
      → old.revision < 2 ^ 64
      → not (old.revision == expected) ≡ false
      → validate p (next_config old replacement) ≡ ok tt
      → compare_and_set p old expected replacement ≡ ok (next_config old replacement)
  unfolding compare_and_set
  compare_and_set-next_config expected below matches valid =
      let fits = next_config-counts below valid in
      let same = next_config-successor (leb→< old.revision fits) in
      let valid' : validate p (successor old replacement) ≡ ok tt = rw same at valid in
      rw matches (rw fits (rw valid' (rw same refl)))

module _ {Doc : Type 0} (p : Platform) (json : Json Doc) (defaults : Config) (laws : JsonLaws json)
    (valid : validate p defaults ≡ ok tt) where
  stored :
      (old replacement : Config) (expected : ℕ) (u : Unit {0})
      → old.revision < 2 ^ 64
      → fail_if {E = StoreError}
          (not (old.revision == expected))
          (revision_conflict expected old.revision)
        ≡ ok u
      → validate p (next_config old replacement) ≡ ok tt
      → compare_and_set p old expected replacement ≡ ok (next_config old replacement)
  stored old replacement expected u below matches good =
      compare_and_set-next_config p old replacement expected below
        (fail_if-ok _ (revision_conflict expected old.revision) u matches) good

  -- `Update` refines a compare-and-set on the revision, which refuses another revision than the expected
  -- one, the last revision of 64 bits, and a configuration that is not valid. A value means that the
  -- compare-and-set accepted and that the file holds what it made, of which the public view is returned;
  -- an error means that the file holds what it held, or what the compare-and-set made. Assumed are valid
  -- defaults, a revision of 64 bits, and that encoding/json reads back what it wrote.
  pub update-refines :
      (io : Io) (old replacement : Config) (expected : ℕ) (file : Option Doc)
      → old.revision < 2 ^ 64
      → Holds p json defaults old file
      → Leaves
          (λ e f.
            Holds p json defaults old f
            ⊎ ((new : Config) × (compare_and_set p old expected replacement ≡ ok new)
                × Holds p json defaults new f))
          (λ shown f.
            (new : Config) × (compare_and_set p old expected replacement ≡ ok new)
            × Holds p json defaults new f
            × (shown ≡ public_config p.to_lower new))
          (update p json defaults io expected replacement file)
  unfolding update commit
  update-refines io old replacement expected file below h =
      rw (clone_config-ok p json defaults laws replacement) (
        Leaves-lift (try io.context) _ file (λ e _. inl h)
          λ _ _.
            Leaves-after _ _ (load_or_create-Holds p json defaults laws io old file valid h)
              (λ e f kept. inl kept)
              (λ raw f (same, kept). rw same (
                Leaves-lift
                  (fail_if (not (old.revision == expected))
                    (revision_conflict expected old.revision))
                  _ f (λ e _. inl kept)
                  (λ u matches.
                    Leaves-map _
                      (commit-Holds p json defaults laws io old (next_config old replacement) f
                        kept)
                      (λ e g b. elim b [
                        | inl unchanged ↦ inl unchanged
                        | inr (good, new) ↦ inr (
                          next_config old replacement,
                          stored old replacement expected u below matches good,
                          new,
                        )
                      ])
                      (λ shown g (good, new, public). (
                        next_config old replacement,
                        stored old replacement expected u below matches good,
                        new,
                        public,
                      ))))))

-- Calls of the operating system that succeed.
abbrev pub quiet_writing : Writing
quiet_writing = record {
  context_before = none;
  make_directory = none;
  create_temporary = none;
  secure_temporary = none;
  encode_temporary = none;
  sync_temporary = none;
  close_temporary = none;
  context_after = none;
  rename = none;
  secure_file = none;
  open_directory = none;
  sync_directory = none;
}

abbrev pub quiet : Io
quiet = record { context = none; open_file = none; create = quiet_writing; replace = quiet_writing }
