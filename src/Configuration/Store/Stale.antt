-- ===== src/Configuration/Store/Stale.antt =====
-- configuration/store.go: two clients that update from the same revision.
use dire_agent.Prelude.{
  ℕ, suc, ◌^◌, ◌<◌, ◌≡◌, refl, ap, ◌∙◌, sym, inl, inr, false, not, Option, List, arith, leb, ◌==◌,
}
use mathlib.Core.Path.{subst}
use dire_agent.Prelude.Results.{Result-cases, ok, err, fail_if, fail_if-ok, >>-ok}
use dire_agent.Configuration.Patch.{Config}
use dire_agent.Configuration.Restore.{restore_redacted}
use dire_agent.Configuration.Values.{Platform, revision_not_positive}
use dire_agent.Configuration.Validate.{validate}
use dire_agent.Configuration.Io.{StoreError, Json, Io, validated, refused, revision_conflict}
use dire_agent.Configuration.Store.{update}
use dire_agent.Configuration.Store.File.{JsonLaws, Holds, validated-ok}
use dire_agent.Configuration.Store.Refines.{compare_and_set, successor, update-refines}
use dire_agent.Configuration.Store.Durable.{Action, perform_all, Later, perform_all-Follows}

-- What a compare-and-set that succeeds has made sure of.
record Swapped (p : Platform) (old : Config) (expected : ℕ) (new : Config) : Type 0 where
  matches : old.revision ≡ expected
  counted : new.revision ≡ suc expected
  below : new.revision < 2 ^ 64
  new_valid : validate p new ≡ ok tt

successor-revision :
    (old replacement : Config) → (successor old replacement).revision ≡ suc old.revision
unfolding restore_redacted
successor-revision old replacement = refl

==-eq : (a b : ℕ) → not (a == b) ≡ false → a ≡ b
==-eq a b h = ground arith

below_lem : (r : ℕ) → leb 18446744073709551615 r ≡ false → suc r < 2 ^ 64
below_lem r h = ground arith

compare_and_set-Swapped :
    (p : Platform) (old replacement new : Config) (expected : ℕ)
    → compare_and_set p old expected replacement ≡ ok new
    → Swapped p old expected new
unfolding compare_and_set
compare_and_set-Swapped p old replacement new expected h =
    let conflict : StoreError = revision_conflict expected old.revision in
    let (matches, h) = >>-ok (fail_if (not (old.revision == expected)) conflict) _ new h in
    let (fits, h) =
      >>-ok (fail_if (leb 18446744073709551615 old.revision) (refused revision_not_positive)) _ new
        h in
    let (good, h) =
      >>-ok (validated (validate p (successor old replacement))) (ok (successor old replacement))
        new h in
    let same : successor old replacement ≡ new = cc in
    let expected_now = ==-eq old.revision expected (fail_if-ok _ conflict tt matches) in
    let next = sym (ap (λ c. c.revision) same) ∙ successor-revision old replacement in
    record {
      matches = expected_now;
      counted = next ∙ ap suc expected_now;
      below =
          rw next (below_lem old.revision (fail_if-ok _ (refused revision_not_positive) tt fits));
      new_valid =
          subst (λ c. validate p c ≡ ok tt) same
            (validated-ok p (successor old replacement) tt good);
    }

no_return : (a b : Config) (r : ℕ) → Later a b → a.revision ≡ suc r → b.revision ≡ r → ⊥
no_return a b r (inl e) s t = omega (arith, ap (λ c. c.revision) e)
no_return a b r (inr e) s t = omega arith

module _ {Doc : Type 0} (p : Platform) (json : Json Doc) (defaults : Config) (laws : JsonLaws json)
    (valid : validate p defaults ≡ ok tt) where
  -- No update is lost: once an update from a revision has succeeded, and whatever calls follow it, a
  -- further update from the same revision returns an error, whatever the errors of the operating system
  -- were in any of the calls. Assumed are valid defaults, a revision of 64 bits, and that encoding/json
  -- reads back what it wrote.
  pub update-stale :
      (io later_io : Io) (old first second shown : Config) (expected : ℕ) (file : Option Doc)
      (between : List Action)
      → old.revision < 2 ^ 64
      → Holds p json defaults old file
      → (update p json defaults io expected first file).0 ≡ ok shown
      → (e : StoreError) × ((update p json defaults later_io expected second (
            perform_all p json defaults between
              (update p json defaults io expected first file).1)).0
          ≡ err e)
  update-stale io later_io old first second shown expected file between below h success =
      let middle = (update p json defaults io expected first file).1 in
      let last = perform_all p json defaults between middle in
      let (new, accepted, held, _) =
        (update-refines p json defaults laws valid io old first expected file below h).at_value
          shown success in
      let swapped = compare_and_set-Swapped p old first new expected accepted in
      let follows =
        perform_all-Follows p json defaults laws valid between new middle swapped.below
          swapped.new_valid held in
      elim (Result-cases (update p json defaults later_io expected second last).0) [
        | inl refusal ↦ refusal
        | inr (again, e) ↦
            let (newer, accepted_again, _, _) =
              (update-refines p json defaults laws valid later_io follows.now second expected last
                  follows.counted follows.held).at_value
                again e in
            absurd (
              no_return new follows.now expected follows.later swapped.counted
                (compare_and_set-Swapped p follows.now second newer expected
                  accepted_again).matches)
      ]
