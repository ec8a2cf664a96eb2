-- ===== src/Configuration/Shortcut.antt =====
-- configuration/validate_values.go: `normalizeLauncherShortcut`.
use Prim.Native.Nat.{ℕ}
use dire_agent.Prelude.{
  Bool, true, false, ◌&&◌, ◌||◌, not, Option, none, some, List, [], ◌∷◌, ◌++◌, ◌==◌, if◌then◌else◌,
}
use dire_agent.Prelude.Text.{Text, codes, text_eq, trim_space, is_empty, join}
use dire_agent.Prelude.Results.{Result, ok, fail_if, ◌>>=◌, ◌>>◌}
use dire_agent.Configuration.Values.{Platform}

pub data ShortcutError : Type 0 where
  duplicate_modifier : ShortcutError
  one_key_required : ShortcutError
  invalid_shortcut_key : ShortcutError
  modifier_and_key_required : ShortcutError
  mod_combined : ShortcutError

pub data Modifier : Type 0 where
  mod_key : Modifier
  meta : Modifier
  control : Modifier
  shift : Modifier
  alt : Modifier

-- The map `modifiers`.
pub record Modifiers : Type 0 where
  pub has_mod : Bool
  pub has_meta : Bool
  pub has_control : Bool
  pub has_shift : Bool
  pub has_alt : Bool

abbrev pub no_modifiers : Modifiers
no_modifiers = record {
  has_mod = false;
  has_meta = false;
  has_control = false;
  has_shift = false;
  has_alt = false;
}

unfoldable pub has_modifier : Modifiers → Modifier → Bool
has_modifier m mod_key = m.has_mod
has_modifier m meta = m.has_meta
has_modifier m control = m.has_control
has_modifier m shift = m.has_shift
has_modifier m alt = m.has_alt

unfoldable pub set_modifier : Modifiers → Modifier → Modifiers
set_modifier m mod_key = record m { has_mod = true }
set_modifier m meta = record m { has_meta = true }
set_modifier m control = record m { has_control = true }
set_modifier m shift = record m { has_shift = true }
set_modifier m alt = record m { has_alt = true }

unfoldable pub modifier_name : Modifier → Text
modifier_name mod_key = codes "mod"
modifier_name meta = codes "meta"
modifier_name control = codes "control"
modifier_name shift = codes "shift"
modifier_name alt = codes "alt"

unfoldable pub modifier_of : Text → Option Modifier
unfolding text_eq
modifier_of part =
    if text_eq part (codes "mod")
    then some mod_key
    else if text_eq part (codes "meta")
    then some meta
    else if text_eq part (codes "control")
    then some control
    else if text_eq part (codes "shift")
    then some shift
    else if text_eq part (codes "alt")
    then some alt
    else none

-- The map `aliases`; a part without one is itself.
unfoldable pub unalias : Text → Text
unfolding text_eq
unalias part =
    if text_eq part (codes "cmd") || text_eq part (codes "command")
    then codes "meta"
    else if text_eq part (codes "ctrl")
    then codes "control"
    else if text_eq part (codes "option")
    then codes "alt"
    else if text_eq part (codes "grave") || text_eq part (codes "`")
    then codes "backquote"
    else part

-- One more character before the first part.
prepend : ℕ → List Text → List Text
prepend c [] = (c ∷ []) ∷ []
prepend c (part ∷ parts) = (c ∷ part) ∷ parts

-- `strings.Split(s, sep)` for a separator of one character.
unfoldable pub split : ℕ → Text → List Text
unfolding prepend
split sep [] = [] ∷ []
split sep (c ∷ s) = if c == sep then [] ∷ split sep s else prepend c (split sep s)

unfoldable pub ordered : Modifiers → List Modifier → List Text
unfolding has_modifier modifier_name
ordered m [] = []
ordered m (modifier ∷ rest) =
    if has_modifier m modifier then modifier_name modifier ∷ ordered m rest else ordered m rest

-- The tests after the loop, and the text of the shortcut.
unfoldable pub close_shortcut : Modifiers → Text → Result ShortcutError Text
unfolding ordered join
close_shortcut m key = do
  fail_if (is_empty key || (not m.has_mod && not m.has_meta && not m.has_control && not m.has_alt))
      modifier_and_key_required
  fail_if (m.has_mod && (m.has_meta || m.has_control)) mod_combined
  ok (join (codes "+") (ordered m (mod_key ∷ meta ∷ control ∷ shift ∷ alt ∷ []) ++ (key ∷ [])))

module _ (p : Platform) where
  key_characters : Text → Bool
  key_characters [] = true
  key_characters (c ∷ s) =
      (p.is_letter c || p.is_digit c || (c == b'_') || (c == b'-')) && key_characters s

  -- A part that is no modifier.
  unfoldable pub take_key : Modifiers → Text → Text → Result ShortcutError (Modifiers × Text)
  unfolding key_characters
  take_key m key part = do
    fail_if (is_empty part || not (is_empty key)) one_key_required
    fail_if (not (key_characters part)) invalid_shortcut_key
    ok (m, part)

  unfoldable pub take_modifier :
      Modifiers → Text → Modifier → Result ShortcutError (Modifiers × Text)
  unfolding has_modifier set_modifier
  take_modifier m key modifier = do
    fail_if (has_modifier m modifier) duplicate_modifier
    ok (set_modifier m modifier, key)

  unfoldable pub take_part : Modifiers → Text → Text → Result ShortcutError (Modifiers × Text)
  unfolding modifier_of take_key take_modifier
  take_part m key part = elim (modifier_of part) [
    | none ↦ take_key m key part
    | some modifier ↦ take_modifier m key modifier
  ]

  -- The loop over the parts.
  unfoldable pub take_parts : Modifiers → Text → List Text → Result ShortcutError (Modifiers × Text)
  unfolding take_part unalias trim_space
  take_parts m key [] = ok (m, key)
  take_parts m key (raw ∷ parts) = do
    taken ← take_part m key (unalias (trim_space raw))
    take_parts taken.0 taken.1 parts

  unfoldable pub normalize_launcher_shortcut : Text → Result ShortcutError Text
  unfolding take_parts split trim_space close_shortcut
  normalize_launcher_shortcut value = do
    taken ← take_parts no_modifiers [] (split b'+' (p.to_lower (trim_space value)))
    close_shortcut taken.0 taken.1
