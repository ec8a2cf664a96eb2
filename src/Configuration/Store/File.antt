-- ===== src/Configuration/Store/File.antt =====
-- configuration/store.go and configuration/atomic.go: what the configuration file holds, and what
-- reading and writing it does to that.
use dire_agent.Prelude.{◌≡◌, refl, ap, ◌∙◌, ◌⊎◌, inl, inr, true, Option, none, some}
use dire_agent.Prelude.Results.{Result, ok, err}
use dire_agent.Prelude.Exec.{Leaves, Leaves-ok, Leaves-result, Leaves-lift, Leaves-after}
use dire_agent.Configuration.Patch.{Config}
use dire_agent.Configuration.Values.{Platform, Invalid}
use dire_agent.Configuration.Redact.{public_config}
use dire_agent.Configuration.Validate.{validate}
use dire_agent.Configuration.Io.{
  StoreError, Json, Writing, Io, try, before_rename, after_rename, validated,
}
use dire_agent.Configuration.Store.{
  write_locked, clone_config, read_config, load_file, load_or_create, commit,
}

-- What the store relies on of encoding/json: a configuration that was written is read back, and
-- nothing is left behind it.
pub record JsonLaws {Doc : Type 0} (json : Json Doc) : Type 0 where
  pub unmarshal-marshal : (c : Config) → json.unmarshal (json.marshal c) ≡ some c
  pub rest : Config → Doc
  pub decode-encode : (c : Config) → json.decode (json.encode c) ≡ some (c, rest c)
  pub at_end-rest : (c : Config) → json.at_end (rest c) ≡ true

module _ {Doc : Type 0} (p : Platform) (json : Json Doc) (defaults : Config) where
  -- The configuration of a file; an absent file stands for the defaults.
  unfoldable pub view : Option Doc → Result StoreError Config
  unfolding read_config
  view none = ok defaults
  view (some doc) = read_config p json defaults doc

  abbrev pub Holds : Config → Option Doc → Type 0
  Holds c file = view file ≡ ok c

validated-ok_at : (r : Result Invalid (Unit {0})) (u : Unit {0}) → validated r ≡ ok u → r ≡ ok tt
validated-ok_at (ok tt) u h = refl
validated-ok_at (err e) u h = cc

pub validated-ok :
    (p : Platform) (c : Config) (u : Unit {0})
    → validated (validate p c) ≡ ok u
    → validate p c ≡ ok tt
validated-ok p c u h = validated-ok_at (validate p c) u h

module _ {Doc : Type 0} (p : Platform) (json : Json Doc) (defaults : Config)
    (laws : JsonLaws json) where
  pub clone_config-ok : (c : Config) → clone_config p json defaults c ≡ ok c
  unfolding clone_config
  clone_config-ok c = rw (laws.unmarshal-marshal c) refl

  pub Holds-encode :
      (c : Config) → validate p c ≡ ok tt → Holds p json defaults c (some (json.encode c))
  unfolding view read_config
  Holds-encode c valid = rw (laws.decode-encode c) (rw (laws.at_end-rest c) (rw valid refl))

  -- A write fails and leaves the file, or it replaces the file's content, whatever it returns.
  pub write_locked-lem :
      (w : Writing) (c : Config) (file : Option Doc)
      → Leaves
          (λ e f. (f ≡ file) ⊎ (f ≡ some (json.encode c)))
          (λ done f. f ≡ some (json.encode c))
          (write_locked p json defaults w c file)
  unfolding write_locked
  write_locked-lem w c file =
      Leaves-lift (before_rename w) _ file (λ e _. inl refl)
        λ _ _. Leaves-result (after_rename w) (some (json.encode c)) (λ e _. inr refl) λ _ _. refl

  -- What a write of `c` leaves holds `c`, or what it held.
  pub write_locked-Holds :
      (w : Writing) (c : Config) (file : Option Doc)
      → validate p c ≡ ok tt
      → Leaves
          (λ e f. (f ≡ file) ⊎ Holds p json defaults c f)
          (λ done f. Holds p json defaults c f)
          (write_locked p json defaults w c file)
  write_locked-Holds w c file valid =
      let h = write_locked-lem w c file in
      record {
        at_error = λ e r. elim (h.at_error e r) [
          | inl same ↦ inl same
          | inr new ↦ inr (rw new (Holds-encode c valid))
        ];
        at_value = λ a r. rw (h.at_value a r) (Holds-encode c valid);
      }

  load_file-Holds :
      (w : Writing) (c : Config) (file : Option Doc)
      → validate p defaults ≡ ok tt
      → Holds p json defaults c file
      → Leaves
          (λ e f. Holds p json defaults c f)
          (λ raw f. (raw ≡ c) × Holds p json defaults c f)
          (load_file p json defaults w file file)
  unfolding load_file view
  load_file-Holds w c none valid h =
      let same : defaults ≡ c = cc in
      Leaves-after _ _ (write_locked-Holds w defaults none valid)
        (λ e f b. elim b [ inl old ↦ rw old h | inr new ↦ new ∙ ap ok same ])
        (λ _ f new. rw (clone_config-ok defaults) (Leaves-ok defaults f (same, new ∙ ap ok same)))
  load_file-Holds w c (some doc) valid h = rw h (Leaves-ok c (some doc) (refl, h))

  -- Loading returns what the file holds, and writes no other configuration.
  pub load_or_create-Holds :
      (io : Io) (c : Config) (file : Option Doc)
      → validate p defaults ≡ ok tt
      → Holds p json defaults c file
      → Leaves
          (λ e f. Holds p json defaults c f)
          (λ raw f. (raw ≡ c) × Holds p json defaults c f)
          (load_or_create p json defaults io file)
  unfolding load_or_create
  load_or_create-Holds io c file valid h =
      Leaves-lift (try io.open_file) _ file (λ e _. h)
        (λ _ _. load_file-Holds io.create c file valid h)

  -- Both operations that change the configuration: what they write is valid.
  pub commit-Holds :
      (io : Io) (old config : Config) (file : Option Doc)
      → Holds p json defaults old file
      → Leaves
          (λ e f.
            Holds p json defaults old f
            ⊎ ((validate p config ≡ ok tt) × Holds p json defaults config f))
          (λ shown f.
            (validate p config ≡ ok tt)
            × Holds p json defaults config f
            × (shown ≡ public_config p.to_lower config))
          (commit p json defaults io config file)
  unfolding commit
  commit-Holds io old config file h =
      Leaves-lift (validated (validate p config)) _ file (λ e _. inl h)
        λ u good.
          let valid = validated-ok p config u good in
          Leaves-after _ _ (write_locked-Holds io.replace config file valid)
            (λ e f b. elim b [ inl same ↦ inl (rw same h) | inr new ↦ inr (valid, new) ])
            (λ _ f new. Leaves-ok _ f (valid, new, refl))
