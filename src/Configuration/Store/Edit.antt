-- ===== src/Configuration/Store/Edit.antt =====
-- configuration/store.go: updates where no call of the operating system fails, and the edits of a
-- client that was shown the public view.
use dire_agent.Prelude.{
  ℕ, suc, ◌<◌, ◌≡◌, refl, ap, ◌∙◌, sym, false, not, Option, none, some, arith, leb, ◌==◌,
}
use mathlib.Core.Path.{subst}
use dire_agent.Prelude.Int.{ℤ, pos, negsuc}
use dire_agent.Prelude.Results.{ok, fail_if, fail_if-ok, >>-ok}
use dire_agent.Configuration.Patch.{Config}
use dire_agent.Configuration.Merge.{effective}
use dire_agent.Configuration.Redact.{public_config}
use dire_agent.Configuration.Restore.{restore_redacted}
use dire_agent.Configuration.RoundTrip.{IsKeyed, restore_redacted-public_config}
use dire_agent.Configuration.Values.{Platform, revision_not_positive, unsupported_version}
use dire_agent.Configuration.Validate.{is_current, check_project, validate}
use dire_agent.Configuration.Io.{Json, validated, refused, revision_conflict}
use dire_agent.Configuration.Store.{load_or_create, load_file, next_config, commit, update}
use dire_agent.Configuration.Store.File.{
  JsonLaws, view, Holds, Holds-encode, clone_config-ok, validated-ok,
}
use dire_agent.Configuration.Store.Refines.{
  compare_and_set, successor, leb→<, next_config-successor, quiet,
}

module _ {Doc : Type 0} (p : Platform) (json : Json Doc) (defaults : Config) (laws : JsonLaws json)
    (valid : validate p defaults ≡ ok tt) where
  load_or_create-quiet :
      (c : Config) (file : Option Doc)
      → Holds p json defaults c file
      → (f : Option Doc) × (load_or_create p json defaults quiet file ≡ (ok c, f))
  unfolding load_or_create load_file view
  load_or_create-quiet c none h =
      let same : defaults ≡ c = cc in
      (
        some (json.encode defaults),
        rw (clone_config-ok p json defaults laws defaults)
            (ap (λ d. (ok d, some (json.encode defaults))) same),
      )
  load_or_create-quiet c (some doc) h = (some doc, rw h refl)

  commit-quiet :
      (made new : Config) (f : Option Doc)
      → made ≡ new
      → validate p new ≡ ok tt
      → commit p json defaults quiet made f
        ≡ (ok (public_config p.to_lower new), some (json.encode new))
  unfolding commit
  commit-quiet made new f same good = rw same (rw good refl)

  -- Where no call of the operating system fails, an update that the compare-and-set accepts returns the
  -- public view of what the compare-and-set made, and the file holds it. Assumed are valid defaults, and
  -- that encoding/json reads back what it wrote.
  pub update-succeeds :
      (old replacement new : Config) (expected : ℕ) (file : Option Doc)
      → Holds p json defaults old file
      → compare_and_set p old expected replacement ≡ ok new
      → ((update p json defaults quiet expected replacement file).0
          ≡ ok (public_config p.to_lower new))
        × Holds p json defaults new (update p json defaults quiet expected replacement file).1
  unfolding update compare_and_set
  update-succeeds old replacement new expected file h accepted =
      let (matches, rest) =
        >>-ok (fail_if (not (old.revision == expected)) (revision_conflict expected old.revision)) _
          new accepted in
      let (fits, rest) =
        >>-ok (fail_if (leb 18446744073709551615 old.revision) (refused revision_not_positive)) _
          new rest in
      let (good, result) =
        >>-ok (validated (validate p (successor old replacement))) (ok (successor old replacement))
          new rest in
      let same : successor old replacement ≡ new = cc in
      let next =
        next_config-successor p old replacement
          (leb→< old.revision (fail_if-ok _ (refused revision_not_positive) tt fits))
        ∙ same in
      let new_valid =
        subst (λ c. validate p c ≡ ok tt) same
          (validated-ok p (successor old replacement) tt good) in
      let (f, loaded) = load_or_create-quiet old file h in
      let whole : update p json defaults quiet expected replacement file
          ≡ (ok (public_config p.to_lower new), some (json.encode new)) =
        rw (clone_config-ok p json defaults laws replacement) (
          rw loaded
            (rw matches (commit-quiet (next_config old replacement) new f next new_valid))) in
      (ap (λ r. r.0) whole, rw whole (Holds-encode p json defaults laws new new_valid))

suc-positive : (n : ℕ) → (suc n == 0) ≡ false
suc-positive n = ground arith

is_current-eq : (z : ℤ) → not (is_current z) ≡ false → z ≡ pos 1
unfolding is_current
is_current-eq (pos n) h = ap pos (ground arith)
is_current-eq (negsuc n) h = cc

-- The validation does not depend on which revision it is.
validate-revision :
    (p : Platform) (c : Config) (revision : ℕ)
    → validate p c ≡ ok tt
    → validate p (record c { revision = suc revision }) ≡ ok tt
unfolding validate check_project effective
validate-revision p c revision h =
    let (version, h) =
      >>-ok (fail_if (not (is_current c.version)) (unsupported_version c.version)) _ tt h in
    let (_, h) = >>-ok (fail_if (c.revision == 0) revision_not_positive) _ tt h in
    rw version (rw (suc-positive revision) h)

current_version : (p : Platform) (c : Config) → validate p c ≡ ok tt → c.version ≡ pos 1
unfolding validate
current_version p c h =
    let (version, _) =
      >>-ok (fail_if (not (is_current c.version)) (unsupported_version c.version)) _ tt h in
    is_current-eq c.version
      (fail_if-ok (not (is_current c.version)) (unsupported_version c.version) tt version)

-- The successor of a configuration to the view of it that clients have.
successor-public_config :
    (p : Platform) (c : Config)
    → IsKeyed c
    → validate p c ≡ ok tt
    → successor c (public_config p.to_lower c) ≡ record c { revision = suc c.revision }
unfolding restore_redacted
successor-public_config p c keyed good =
    ap (λ (d : Config). record d { version = pos 1; revision = suc c.revision })
      (restore_redacted-public_config p.to_lower c keyed)
    ∙ ap (λ v. record c { version = v; revision = suc c.revision }) (sym (current_version p c good))

pub compare_and_set-public_config :
    (p : Platform) (c : Config)
    → IsKeyed c
    → validate p c ≡ ok tt
    → c.revision < 18446744073709551615
    → compare_and_set p c c.revision (public_config p.to_lower c)
      ≡ ok (record c { revision = suc c.revision })
unfolding compare_and_set
compare_and_set-public_config p c keyed good counted =
    let matches : not (c.revision == c.revision) ≡ false = ground arith in
    let fits : leb 18446744073709551615 c.revision ≡ false = ground arith in
    rw (successor-public_config p c keyed good)
      (rw matches (rw fits (rw (validate-revision p c c.revision good) refl)))

module _ {Doc : Type 0} (p : Platform) (json : Json Doc) (defaults : Config) (laws : JsonLaws json)
    (valid : validate p defaults ≡ ok tt) where
  -- A client that sends back the public view of a valid configuration, with the revision in it, changes
  -- nothing but the revision: the secrets that it was not shown are kept, and it is shown the public view
  -- again. Assumed are valid defaults, that encoding/json reads back what it wrote, that each map has a
  -- key once, that the revision can be counted up, and that no call of the operating system fails.
  pub update-public_config :
      (c : Config) (file : Option Doc)
      → IsKeyed c
      → validate p c ≡ ok tt
      → c.revision < 18446744073709551615
      → Holds p json defaults c file
      → ((update p json defaults quiet c.revision (public_config p.to_lower c) file).0
          ≡ ok (public_config p.to_lower (record c { revision = suc c.revision })))
        × Holds p json defaults
            (record c { revision = suc c.revision })
            (update p json defaults quiet c.revision (public_config p.to_lower c) file).1
  update-public_config c file keyed good counted h =
      update-succeeds p json defaults laws valid c (public_config p.to_lower c)
        (record c { revision = suc c.revision }) c.revision file h
        (compare_and_set-public_config p c keyed good counted)
