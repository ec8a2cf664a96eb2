-- ===== src/Tests/Skills.antt =====
-- skills/rules.go: a folder that is enabled inside a disabled one.
use dire_agent.Prelude.{◌≡◌, refl, true, false, none, some, [], ◌∷◌, if◌then◌else◌}
use dire_agent.Prelude.Text.{
  codes, text_eq, has_prefix, is_space, rune_size, byte_len, trim_space, trim_left,
}
use dire_agent.Skills.Rules.{
  Filepath, Config, canonical, or_same, add_rule, add_paths, add_path_rules, compile_rules,
  same_path, is_inside, contains_path, applies, beats, challenge, find_winner, verdict, is_enabled,
}
use dire_agent.Skills.Winner.{Judged, is_enabled-Judged}

abbrev files : Filepath
files = record {
  abs = λ path. some path;
  eval_symlinks = λ path. none;
  clean = λ path. path;
  rel = λ parent child. some (if has_prefix parent child then codes "in" else codes "../out");
  separator = codes "/";
}

abbrev config : Config
config = record {
  path_rules = record { path = codes "/s/c"; enabled = false } ∷ [];
  enabled_paths = codes "/s/b" ∷ codes "/s/c" ∷ [];
  disabled_paths = codes "/s" ∷ [];
}

inner_enabled :
    is_enabled files (codes "/s/b/x") (codes "/s/b") (compile_rules files config) ≡ (true, [])
unfolding is_enabled or_same canonical add_rule add_paths add_path_rules compile_rules same_path
    is_inside contains_path applies beats challenge find_winner verdict text_eq has_prefix is_space
    rune_size byte_len trim_left trim_space
inner_enabled = refl

later_rule_wins :
    is_enabled files (codes "/s/c/x") (codes "/s/c") (compile_rules files config)
    ≡ (false, codes "disabled by path rule /s/c")
unfolding is_enabled or_same canonical add_rule add_paths add_path_rules compile_rules same_path
    is_inside contains_path applies beats challenge find_winner verdict text_eq has_prefix is_space
    rune_size byte_len trim_left trim_space
later_rule_wins = refl

is_enabled-Judged_example :
    Judged files
      (codes "/s/b/x")
      (codes "/s/b")
      (compile_rules files config)
      (is_enabled files (codes "/s/b/x") (codes "/s/b") (compile_rules files config))
is_enabled-Judged_example = is_enabled-Judged files (codes "/s/b/x") (codes "/s/b") config
