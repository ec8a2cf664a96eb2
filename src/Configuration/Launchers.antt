-- ===== src/Configuration/Launchers.antt =====
-- configuration/defaults.go, the built-in launchers, and configuration/validate_values.go,
-- `validateLaunchers`.
use dire_agent.Prelude.{
  Bool, false, ◌&&◌, ◌||◌, not, Option, none, some, List, [], ◌∷◌, ltb, length, if◌then◌else◌,
}
use dire_agent.Prelude.Text.{Text, codes, text_eq, trim_space, is_empty, is_blank, byte_len}
use dire_agent.Prelude.Assoc.{lookup, contains}
use dire_agent.Prelude.Results.{Result, ok, err, fail_if, ◌>>=◌, ◌>>◌}
use dire_agent.Configuration.Types.{ProjectLauncher}
use dire_agent.Configuration.Values.{
  Platform, Invalid, too_many_launchers, invalid_name, invalid_launcher, duplicate_launcher,
  same_shortcut, Check, each, config_name, validate_process_values,
}
use dire_agent.Configuration.Shortcut.{ShortcutError, normalize_launcher_shortcut}

abbrev terminal_launcher : Text → Text → Text → List Text → Text → ProjectLauncher
terminal_launcher id label command args shortcut = record {
  id = id;
  label = label;
  kind = codes "terminal";
  icon = [];
  command = command;
  args = args;
  shortcut = shortcut;
}

abbrev pub default_project_launchers : List ProjectLauncher
default_project_launchers =
    terminal_launcher (codes "shell") (codes "Terminal") [] [] (codes "mod+backquote")
    ∷ terminal_launcher (codes "lazygit") (codes "lazygit") (codes "lazygit") []
        (codes "mod+shift+g")
    ∷ terminal_launcher (codes "nvim") (codes "nvim") (codes "nvim") (codes "." ∷ [])
        (codes "mod+shift+e")
    ∷ []

unfoldable pub resolve_project_launchers : Option (List ProjectLauncher) → List ProjectLauncher
resolve_project_launchers none = default_project_launchers
resolve_project_launchers (some configured) = configured

valid_icon : Text → Bool
unfolding contains
valid_icon = contains ([] ∷ codes "tool" ∷ codes "run" ∷ codes "debug" ∷ codes "test" ∷ [])

check_kind : Text → ProjectLauncher → Check
unfolding text_eq is_blank
check_kind scope l =
    if text_eq l.kind (codes "terminal")
    then fail_if (is_blank l.command && ltb 0 (length l.args)) (invalid_launcher scope l.id)
    else if text_eq l.kind (codes "desktop")
    then fail_if (is_blank l.command) (invalid_launcher scope l.id)
    else err (invalid_launcher scope l.id)

-- The identifiers that were seen, and the shortcuts with the launchers that have them.
abbrev pub Taken : Type 0
Taken = List Text × List (Text × Text)

module _ (p : Platform) where
  contains_control : Text → Bool
  contains_control [] = false
  contains_control (c ∷ s) = p.is_control c || contains_control s

  -- The tests on a launcher but those of its shortcut.
  unfoldable pub check_launcher : Text → List Text → ProjectLauncher → Check
  unfolding config_name contains valid_icon is_blank byte_len contains_control each check_kind
      validate_process_values
  check_launcher scope ids l = do
    fail_if (not (config_name l.id)) (invalid_name scope l.id)
    fail_if (contains ids l.id) (duplicate_launcher scope l.id)
    fail_if (not (valid_icon l.icon)) (invalid_launcher scope l.id)
    fail_if (is_blank l.label || ltb 128 (byte_len l.label) || contains_control l.label)
        (invalid_launcher scope l.id)
    fail_if (ltb 4096 (byte_len l.command) || ltb 128 (length l.args)) (invalid_launcher scope l.id)
    validate_process_values l.command l.args [] l.id
    each (λ argument. fail_if (ltb 4096 (byte_len argument)) (invalid_launcher scope l.id)) l.args
    check_kind scope l

  unshared : Text → ProjectLauncher → Text → Option Text → Result Invalid (Unit {0})
  unshared scope l shortcut none = ok tt
  unshared scope l shortcut (some other) = err (same_shortcut scope other l.id)

  -- A shortcut that is not empty, where it can be normalised.
  add_normalized :
      Text
      → ProjectLauncher
      → List (Text × Text)
      → Result ShortcutError Text
      → Result Invalid (List (Text × Text))
  unfolding lookup unshared
  add_normalized scope l shortcuts (err e) = err (invalid_launcher scope l.id)
  add_normalized scope l shortcuts (ok shortcut) = do
    unshared scope l shortcut (lookup shortcut shortcuts)
    ok ((shortcut, l.id) ∷ shortcuts)

  unfoldable pub add_shortcut :
      Text → ProjectLauncher → List (Text × Text) → Result Invalid (List (Text × Text))
  unfolding trim_space byte_len contains_control normalize_launcher_shortcut add_normalized
  add_shortcut scope l shortcuts =
      let shortcut = p.to_lower (trim_space l.shortcut) in
      if is_empty shortcut
      then ok shortcuts
      else if ltb 128 (byte_len shortcut) || contains_control shortcut
      then err (invalid_launcher scope l.id)
      else add_normalized scope l shortcuts (normalize_launcher_shortcut p shortcut)

  -- The loop.
  unfoldable pub check_launchers : Text → Taken → List ProjectLauncher → Result Invalid Taken
  unfolding check_launcher add_shortcut
  check_launchers scope seen [] = ok seen
  check_launchers scope seen (l ∷ ls) = do
    check_launcher scope seen.0 l
    shortcuts ← add_shortcut scope l seen.1
    check_launchers scope (l.id ∷ seen.0, shortcuts) ls

  unfoldable pub validate_launchers : Option (List ProjectLauncher) → Text → Check
  unfolding resolve_project_launchers check_launchers
  validate_launchers configured scope =
      let launchers = resolve_project_launchers configured in
      do
        fail_if (ltb 64 (length launchers)) (too_many_launchers scope)
        taken ← check_launchers scope ([], []) launchers
        ok tt
