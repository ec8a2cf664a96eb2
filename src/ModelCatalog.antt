-- ===== src/ModelCatalog.antt =====
-- modelcatalog/catalog.go: the context windows of known models.
use dire_agent.Prelude.{Bool, ◌&&◌, ◌||◌, not, [], ◌∷◌, if◌then◌else◌}
use dire_agent.Prelude.Text.{Text, codes, trim_space, has_prefix}
use dire_agent.Prelude.Int.{ℤ, pos}

-- `strings.TrimPrefix(s, p)`, the prefix first.
unfoldable pub after_prefix : Text → Text → Text
after_prefix [] s = s
after_prefix (c ∷ p) [] = []
after_prefix (c ∷ p) (d ∷ s) = after_prefix p s

unfoldable pub trim_prefix : Text → Text → Text
unfolding has_prefix after_prefix
trim_prefix p s = if has_prefix p s then after_prefix p s else s

-- `strings.Contains(s, p)`, the part first.
unfoldable pub has_part : Text → Text → Bool
unfolding has_prefix
has_part p [] = has_prefix p []
has_part p (c ∷ s) = has_prefix p (c ∷ s) || has_part p s

abbrev pub gpt56_context_window : ℤ
gpt56_context_window = pos 372000

abbrev pub gpt54_context_window : ℤ
gpt54_context_window = pos 272000

unfoldable pub window_of : Text → ℤ
unfolding has_prefix has_part
window_of model =
    if has_prefix (codes "gpt-5.6") model
    then gpt56_context_window
    else if (has_prefix (codes "gpt-5.5") model || has_prefix (codes "gpt-5.4") model)
        && not (has_part (codes "mini") model)
        && not (has_part (codes "nano") model)
    then gpt54_context_window
    else pos 0

unfoldable pub context_window : (Text → Text) → Text → ℤ
unfolding window_of trim_prefix trim_space
context_window to_lower model =
    window_of
      (trim_prefix (codes "openai/") (trim_prefix (codes "openai.") (to_lower (trim_space model))))
