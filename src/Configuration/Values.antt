-- ===== src/Configuration/Values.antt =====
-- configuration/validate.go and configuration/validate_values.go: why a configuration is refused, and
-- the tests on single values that the validation shares.
use Prim.Native.Nat.{ℕ}
use dire_agent.Prelude.{
  ◌≡◌, All, Bool, true, false, ◌&&◌, ◌||◌, Option, List, [], ◌∷◌, leb, ◌==◌, length,
}
use dire_agent.Prelude.Text.{Text, codes, text_eq, is_blank}
use dire_agent.Prelude.Assoc.{contains}
use dire_agent.Prelude.Int.{ℤ}
use dire_agent.Prelude.Results.{Result, ok, fail_if, ◌>>◌, >>-ok}

-- What the validation calls of packages path/filepath, net/url, strings and unicode.
pub record Platform : Type 0 where
  pub is_abs : Text → Bool
  -- The scheme and the host of a URL that can be parsed.
  pub parse_url : Text → Option (Text × Text)
  pub to_lower : Text → Text
  pub is_control : ℕ → Bool
  pub is_letter : ℕ → Bool
  pub is_digit : ℕ → Bool

-- The errors, with the names that their messages quote; the scope is that of the settings.
pub data Invalid : Type 0 where
  unsupported_version : ℤ → Invalid
  revision_not_positive : Invalid
  invalid_project_id : Text → Invalid
  folder_not_absolute : Text → Invalid
  patched_and_removed_server : Text → Text → Invalid
  patched_and_removed_extension : Text → Text → Invalid
  empty_value : Text → Invalid
  duplicate_value : Text → Text → Invalid
  invalid_name : Text → Text → Invalid
  model_required : Text → Invalid
  negative_context_window : Text → Invalid
  invalid_thinking : Text → Text → Invalid
  invalid_sandbox_mode : Text → Text → Invalid
  invalid_tool_approval : Text → Text → Invalid
  invalid_queue_mode : Text → Invalid
  max_pending_not_positive : Text → Invalid
  skill_root_required : Text → Invalid
  skill_root_not_absolute : Text → Invalid
  invalid_skill_trust : Text → Text → Invalid
  invalid_server_approval : Text → Text → Invalid
  secret_not_configured : Text → Text → Text → Invalid
  has_nul : Text → Invalid
  invalid_environment_entry : Text → Text → Invalid
  server_command_required : Text → Invalid
  stdio_sets_url : Text → Invalid
  http_url_required : Text → Invalid
  http_sets_command : Text → Invalid
  http_sets_process_options : Text → Invalid
  invalid_transport : Text → Text → Invalid
  location_required : Text → Invalid
  invalid_extension_trust : Text → Invalid
  location_not_absolute : Text → Invalid
  remote_sets_process_options : Text → Invalid
  invalid_source_kind : Text → Text → Invalid
  depth_out_of_range : Text → Invalid
  children_out_of_range : Text → Invalid
  concurrent_out_of_range : Text → Invalid
  profile_required : Text → Invalid
  description_required : Text → Text → Invalid
  invalid_profile_thinking : Text → Text → Invalid
  codex_home_not_absolute : Text → Invalid
  desktop_config_not_absolute : Text → Invalid
  invalid_sync_mode : Text → Text → Invalid
  too_many_launchers : Text → Invalid
  invalid_launcher : Text → Text → Invalid
  duplicate_launcher : Text → Text → Invalid
  same_shortcut : Text → Text → Text → Invalid
  chat_model_required : Text → Invalid
  invalid_chat_thinking : Text → Invalid

abbrev pub Check : Type 0
Check = Result Invalid (Unit {0})

-- `for _, x := range xs { … return err … }`.
unfoldable pub each {ℓ} : {A : Type ℓ} → (A → Check) → List A → Check
each check [] = ok tt
each check (x ∷ xs) = check x >> each check xs

pub each-All {ℓ} :
    {A : Type ℓ} (check : A → Check) (xs : List A)
    → each check xs ≡ ok tt
    → All (λ x. check x ≡ ok tt) xs
unfolding each
each-All check [] h = tt
each-All check (x ∷ xs) h =
    let parts = >>-ok (check x) (each check xs) tt h in (parts.0, each-All check xs parts.1)

name_start : ℕ → Bool
name_start c =
    (leb b'A' c && leb c b'Z') || (leb b'a' c && leb c b'z') || (leb b'0' c && leb c b'9')

name_rest : Text → Bool
unfolding name_start
name_rest [] = true
name_rest (c ∷ s) = (name_start c || (c == b'_') || (c == b'.') || (c == b'-')) && name_rest s

-- `configName`, the expression ^[A-Za-z0-9][A-Za-z0-9_.-]{0,127}$.
unfoldable pub config_name : Text → Bool
unfolding name_start name_rest
config_name [] = false
config_name (c ∷ s) = name_start c && name_rest s && leb (length s) 127

-- The loop, with the values that it has seen.
unfoldable pub unseen : List Text → List Text → Text → Check
unfolding is_blank contains
unseen [] seen label = ok tt
unseen (value ∷ values) seen label = do
  fail_if (is_blank value) (empty_value label)
  fail_if (contains seen value) (duplicate_value label value)
  unseen values (value ∷ seen) label

unfoldable pub unique_non_empty : List Text → Text → Check
unfolding unseen
unique_non_empty values label = unseen values [] label

-- `strings.ContainsRune(s, r)`.
unfoldable pub contains_rune : ℕ → Text → Bool
contains_rune r [] = false
contains_rune r (c ∷ s) = (c == r) || contains_rune r s

check_environment : Text → Text × Text → Check
unfolding contains_rune text_eq
check_environment label (key, value) =
    fail_if
      (text_eq key [] || contains_rune b'=' key || contains_rune 0 key || contains_rune 0 value)
      (invalid_environment_entry label key)

unfoldable pub validate_process_values : Text → List Text → List (Text × Text) → Text → Check
unfolding contains_rune each check_environment
validate_process_values command args env label = do
  fail_if (contains_rune 0 command) (has_nul label)
  each (λ argument. fail_if (contains_rune 0 argument) (has_nul label)) args
  each (check_environment label) env

unfoldable pub valid_thinking : Text → Bool
unfolding contains
valid_thinking = contains (
    codes "none" ∷ codes "minimal" ∷ codes "low" ∷ codes "medium" ∷ codes "high" ∷ codes "max" ∷ [])

unfoldable pub valid_approval : Text → Bool
unfolding contains
valid_approval = contains (codes "never" ∷ codes "on-request" ∷ codes "always" ∷ [])

unfoldable pub valid_queue : Text → Bool
unfolding contains
valid_queue = contains (codes "one-at-a-time" ∷ codes "all" ∷ [])

unfoldable pub valid_trust : Text → Bool
unfolding contains
valid_trust = contains (codes "denied" ∷ codes "prompt" ∷ codes "trusted" ∷ [])
