-- ===== src/Skills/Rules.antt =====
-- skills/rules.go: the rules on paths, and whether they enable a skill.
use dire_agent.Prelude.{
  ℕ, ltb, ◌==◌, Bool, true, false, ◌&&◌, ◌||◌, not, Option, none, some, List, [], ◌∷◌, ◌++◌,
  if◌then◌else◌, length,
}
use dire_agent.Prelude.Text.{Text, codes, text_eq, is_empty, byte_len, trim_space, has_prefix}

-- Package path/filepath, on the file system at the time of the discovery; an error is none.
pub record Filepath : Type 0 where
  pub abs : Text → Option Text
  pub eval_symlinks : Text → Option Text
  pub clean : Text → Text
  pub rel : Text → Text → Option Text
  pub separator : Text

pub record PathRule : Type 0 where
  pub path : Text
  pub enabled : Bool

-- What the rules are made of.
pub record Config : Type 0 where
  pub path_rules : List PathRule
  pub enabled_paths : List Text
  pub disabled_paths : List Text

pub record CompiledRule : Type 0 where
  pub path : Text
  pub enabled : Bool
  pub order : ℕ

unfoldable pub beats : CompiledRule → CompiledRule → Bool
beats rule winner =
    ltb (byte_len winner.path) (byte_len rule.path)
    || ((byte_len rule.path == byte_len winner.path) && ltb winner.order rule.order)

unfoldable pub verdict : Option CompiledRule → Bool × Text
verdict none = (true, [])
verdict (some winner) =
    if winner.enabled then (true, []) else (false, codes "disabled by path rule " ++ winner.path)

module _ (files : Filepath) where
  unfoldable pub or_same : (Text → Option Text) → Text → Text
  or_same f path = elim (f path) [ none ↦ path | some found ↦ found ]

  unfoldable pub canonical : Text → Text
  canonical path =
      let trimmed = trim_space path in
      if is_empty trimmed
      then []
      else files.clean (or_same files.eval_symlinks (or_same files.abs trimmed))

  unfoldable pub add_rule : Text → Bool → List CompiledRule → List CompiledRule
  add_rule path enabled rules =
      let normalized = canonical path in
      if is_empty normalized
      then rules
      else rules ++ (record { path = normalized; enabled = enabled; order = length rules }) ∷ []

  unfoldable pub add_paths : List Text → Bool → List CompiledRule → List CompiledRule
  add_paths [] enabled rules = rules
  add_paths (path ∷ paths) enabled rules = add_paths paths enabled (add_rule path enabled rules)

  unfoldable pub add_path_rules : List PathRule → List CompiledRule → List CompiledRule
  add_path_rules [] rules = rules
  add_path_rules (rule ∷ rest) rules = add_path_rules rest (add_rule rule.path rule.enabled rules)

  unfoldable pub compile_rules : Config → List CompiledRule
  compile_rules config =
      add_path_rules config.path_rules
        (add_paths config.disabled_paths false (add_paths config.enabled_paths true []))

  unfoldable pub same_path : Text → Text → Bool
  same_path a b = text_eq (files.clean a) (files.clean b)

  unfoldable pub is_inside : Option Text → Bool
  is_inside none = false
  is_inside (some relative) =
      not (text_eq relative (codes ".."))
      && not (has_prefix (codes ".." ++ files.separator) relative)

  unfoldable pub contains_path : Text → Text → Bool
  contains_path parent child = same_path parent child || is_inside (files.rel parent child)

  module _ (path directory : Text) where
    unfoldable pub applies : CompiledRule → Bool
    applies rule = contains_path rule.path path || contains_path rule.path directory

    -- One round of the loop over the rules.
    unfoldable pub challenge : CompiledRule → Option CompiledRule → Option CompiledRule
    challenge rule none = if applies rule then some rule else none
    challenge rule (some winner) =
        if applies rule && beats rule winner then some rule else some winner

    unfoldable pub find_winner : List CompiledRule → Option CompiledRule → Option CompiledRule
    find_winner [] winner = winner
    find_winner (rule ∷ rules) winner = find_winner rules (challenge rule winner)

    unfoldable pub is_enabled : List CompiledRule → Bool × Text
    is_enabled rules = verdict (find_winner rules none)
