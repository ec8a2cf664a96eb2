-- ===== src/Tests/Store.antt =====
-- A configuration file that starts with the defaults, and clients that change it.
use dire_agent.Prelude.{
  suc, ◌+◌, ◌<◌, ◌^◌, ◌≡◌, refl, ◌⊎◌, true, false, ◌&&◌, ◌||◌, Option, none, some, List, [], ◌∷◌,
  map, arith, leb, if◌then◌else◌,
}
use dire_agent.Prelude.Text.{
  codes, text_eq, has_prefix, trim_space, trim_left, is_space, is_blank, byte_len, rune_size, join,
}
use dire_agent.Prelude.Assoc.{lookup, contains, keys}
use dire_agent.Prelude.Results.{ok, err}
use dire_agent.Configuration.Patch.{Config}
use dire_agent.Configuration.Values
use dire_agent.Configuration.Values.{Platform}
use dire_agent.Configuration.Defaults.{default_config}
use dire_agent.Configuration.Validate.{validate}
use dire_agent.Prelude.Exec.{Leaves}
use dire_agent.Configuration.Redact.{public_config}
use dire_agent.Configuration.RoundTrip.{IsKeyed}
use dire_agent.Configuration.Io.{StoreError, Json}
use dire_agent.Configuration.Store.{runtime_settings, update, set_project_sandbox}
use dire_agent.Configuration.Store.File.{JsonLaws, Holds, view}
use dire_agent.Configuration.Store.Refines.{compare_and_set, quiet, update-refines}
use dire_agent.Configuration.Store.Sandbox.{Switched, SwitchedFile, set_project_sandbox-Switches}
use dire_agent.Configuration.Store.Durable.{
  Action, updating, setting_sandbox, loading, perform_all, Follows, perform_all-Follows,
}
use dire_agent.Configuration.Store.Bounded.{WithinRange, runtime_settings-WithinRange}
use dire_agent.Configuration.Store.Edit.{
  update-succeeds, compare_and_set-public_config, update-public_config,
}
use dire_agent.Configuration.Store.Stale.{update-stale}

abbrev platform : Platform
platform = record {
  is_abs = has_prefix (codes "/");
  parse_url = λ url. none;
  to_lower = map (λ c. if leb b'A' c && leb c b'Z' then c + 32 else c);
  is_control = λ c. leb c 31;
  is_letter = λ c. (leb b'a' c && leb c b'z') || (leb b'A' c && leb c b'Z');
  is_digit = λ c. leb b'0' c && leb c b'9';
}

-- A document is its configuration.
abbrev json : Json Config
json = record {
  encode = λ c. c;
  marshal = λ c. c;
  unmarshal = some;
  decode = λ c. some (c, c);
  at_end = λ rest. true;
}

json-JsonLaws : JsonLaws json
json-JsonLaws = record {
  unmarshal-marshal = λ c. refl;
  rest = λ c. c;
  decode-encode = λ c. refl;
  at_end-rest = λ c. refl;
}

unfoldable defaults : Config
unfolding default_config join
defaults = default_config (join (codes "/")) (codes "/h")

defaults-valid : validate platform defaults ≡ ok tt
unfolding defaults validate Values.config_name Values.each Values.unseen Values.unique_non_empty
    Values.contains_rune Values.validate_process_values Values.valid_thinking Values.valid_approval
    Values.valid_queue Values.valid_trust is_blank trim_space trim_left is_space text_eq contains
    lookup keys byte_len rune_size has_prefix join
defaults-valid = refl

abbrev nothing : Option Config
nothing = none

defaults-held : Holds platform json defaults defaults nothing
unfolding view
defaults-held = refl

defaults-first : defaults.revision < 2 ^ 64
unfolding defaults default_config
defaults-first = omega arith

defaults-counted : defaults.revision < 18446744073709551615
unfolding defaults default_config
defaults-counted = omega arith

defaults-IsKeyed : IsKeyed defaults
unfolding defaults default_config
defaults-IsKeyed = (((tt, tt), (tt, tt)), (tt, tt))

abbrev actions : List Action
actions =
    updating quiet 1 defaults
    ∷ setting_sandbox quiet (codes "web") (codes "/w") (some (codes "off"))
    ∷ loading quiet
    ∷ []

perform_all-Follows_example :
    Follows platform json defaults defaults (perform_all platform json defaults actions nothing)
perform_all-Follows_example =
    perform_all-Follows platform json defaults json-JsonLaws defaults-valid actions defaults nothing
      defaults-first defaults-valid defaults-held

update-refines_example :
    Leaves
      (λ e f.
        Holds platform json defaults defaults f
        ⊎ ((new : Config) × (compare_and_set platform defaults 1 defaults ≡ ok new)
            × Holds platform json defaults new f))
      (λ shown f.
        (new : Config) × (compare_and_set platform defaults 1 defaults ≡ ok new)
        × Holds platform json defaults new f
        × (shown ≡ public_config platform.to_lower new))
      (update platform json defaults quiet 1 defaults nothing)
update-refines_example =
    update-refines platform json defaults json-JsonLaws defaults-valid quiet defaults defaults 1
      nothing defaults-first defaults-held

set_project_sandbox-Switches_example :
    Leaves
      (λ e f.
        Holds platform json defaults defaults f
        ⊎ SwitchedFile platform json defaults defaults (codes "web") (some (codes "off")) f)
      (λ shown f.
        (new : Config) × Switched defaults (codes "web") (some (codes "off")) new
        × Holds platform json defaults new f
        × (shown ≡ public_config platform.to_lower new))
      (set_project_sandbox platform json defaults quiet
        (codes "web")
        (codes "/w")
        (some (codes "off"))
        nothing)
set_project_sandbox-Switches_example =
    set_project_sandbox-Switches platform json defaults json-JsonLaws defaults-valid defaults
      (codes "web") (codes "/w") (some (codes "off")) quiet nothing defaults-held

web_settings :
    (runtime_settings platform json defaults quiet (codes "web") nothing).0
    ≡ ok (defaults.global, false)
unfolding runtime_settings defaults default_config
web_settings = refl

runtime_settings-WithinRange_example : WithinRange defaults.global.subagents
runtime_settings-WithinRange_example =
    runtime_settings-WithinRange platform json defaults json-JsonLaws defaults-valid quiet
      (codes "web") nothing (defaults.global, false) web_settings

abbrev second : Config
second = record defaults { revision = suc defaults.revision }

update-public_config_example :
    ((update platform json defaults quiet defaults.revision
        (public_config platform.to_lower defaults)
        nothing).0
      ≡ ok (public_config platform.to_lower second))
    × Holds platform json defaults second
        (update platform json defaults quiet defaults.revision
          (public_config platform.to_lower defaults)
          nothing).1
update-public_config_example =
    update-public_config platform json defaults json-JsonLaws defaults-valid defaults nothing
      defaults-IsKeyed defaults-valid defaults-counted defaults-held

first_update :
    (update platform json defaults quiet defaults.revision
      (public_config platform.to_lower defaults)
      nothing).0
    ≡ ok (public_config platform.to_lower second)
first_update = update-public_config_example.0

update-stale_example :
    (e : StoreError) × ((update platform json defaults quiet defaults.revision defaults (
        perform_all platform json defaults actions
          (update platform json defaults quiet defaults.revision
            (public_config platform.to_lower defaults)
            nothing).1)).0
      ≡ err e)
update-stale_example =
    update-stale platform json defaults json-JsonLaws defaults-valid quiet quiet defaults
      (public_config platform.to_lower defaults) defaults (public_config platform.to_lower second)
      defaults.revision nothing actions defaults-first defaults-held first_update

accepted :
    compare_and_set platform defaults defaults.revision (public_config platform.to_lower defaults)
    ≡ ok second
accepted =
    compare_and_set-public_config platform defaults defaults-IsKeyed defaults-valid defaults-counted

update-succeeds_example :
    ((update platform json defaults quiet defaults.revision
        (public_config platform.to_lower defaults)
        nothing).0
      ≡ ok (public_config platform.to_lower second))
    × Holds platform json defaults second
        (update platform json defaults quiet defaults.revision
          (public_config platform.to_lower defaults)
          nothing).1
update-succeeds_example =
    update-succeeds platform json defaults json-JsonLaws defaults-valid defaults
      (public_config platform.to_lower defaults) second defaults.revision nothing defaults-held
      accepted
