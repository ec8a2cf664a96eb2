-- ===== src/Skills/Winner.antt =====
-- skills/rules.go: which of the rules decides.
use dire_agent.Prelude.{
  if◌then◌else◌, ℕ, suc, ◌+◌, ◌≤◌, ◌<◌, ◌≡◌, refl, sym, ap, ◌∙◌, ◌⊎◌, inl, inr, Bool, true, false,
  Bool-cases, Option, none, some, List, [], ◌∷◌, ◌++◌, arith, All, All-append, length,
  length-append,
}
use mathlib.Core.List.{append_assoc, append-nil}
use dire_agent.Prelude.Sets.{All-map}
use dire_agent.Prelude.Text.{Text, codes, is_empty, byte_len}
use dire_agent.Skills.Rules.{
  Filepath, PathRule, Config, CompiledRule, canonical, add_rule, add_paths, add_path_rules,
  compile_rules, applies, beats, challenge, find_winner, verdict, is_enabled,
}

-- The number of each rule is its place in the list.
abbrev Numbered : ℕ → List CompiledRule → Type 0
Numbered n [] = Unit
Numbered n (rule ∷ rules) = (rule.order ≡ n) × Numbered (suc n) rules

Numbered-snoc :
    (n : ℕ) (rules : List CompiledRule) (rule : CompiledRule)
    → Numbered n rules
    → rule.order ≡ n + length rules
    → Numbered n (rules ++ rule ∷ [])
Numbered-snoc n [] rule h e = (omega (arith, e), tt)
Numbered-snoc n (r ∷ rules) rule (first, h) e =
    (first, Numbered-snoc (suc n) rules rule h (omega (arith, e)))

length-snoc :
    (seen : List CompiledRule) (rule : CompiledRule)
    → length (seen ++ rule ∷ []) ≡ suc (length seen)
length-snoc seen rule = omega (arith, length-append seen (rule ∷ []))

beats_longest :
    (rule winner : CompiledRule)
    → beats rule winner ≡ true
    → (other : CompiledRule) → byte_len other.path ≤ byte_len winner.path
    → byte_len other.path ≤ byte_len rule.path
unfolding beats
beats_longest rule winner h other longest = ground arith

not_beats_shorter :
    (rule winner : CompiledRule)
    → beats rule winner ≡ false
    → winner.order < rule.order
    → byte_len rule.path < byte_len winner.path
unfolding beats
not_beats_shorter rule winner h low = ground arith

module _ (files : Filepath) where
  add_rule-Numbered :
      (path : Text) (enabled : Bool) (rules : List CompiledRule)
      → Numbered 0 rules
      → Numbered 0 (add_rule files path enabled rules)
  unfolding add_rule
  add_rule-Numbered path enabled rules h = elim (Bool-cases (is_empty (canonical files path))) [
    | inl empty ↦ rw empty h
    | inr named ↦ rw named (
        Numbered-snoc 0 rules
          (record { path = canonical files path; enabled = enabled; order = length rules }) h
          (omega arith))
  ]

  add_paths-Numbered :
      (paths : List Text) (enabled : Bool) (rules : List CompiledRule)
      → Numbered 0 rules
      → Numbered 0 (add_paths files paths enabled rules)
  unfolding add_paths
  add_paths-Numbered [] enabled rules h = h
  add_paths-Numbered (path ∷ paths) enabled rules h =
      add_paths-Numbered paths enabled _ (add_rule-Numbered path enabled rules h)

  add_path_rules-Numbered :
      (path_rules : List PathRule) (rules : List CompiledRule)
      → Numbered 0 rules
      → Numbered 0 (add_path_rules files path_rules rules)
  unfolding add_path_rules
  add_path_rules-Numbered [] rules h = h
  add_path_rules-Numbered (rule ∷ rest) rules h =
      add_path_rules-Numbered rest _ (add_rule-Numbered rule.path rule.enabled rules h)

  compile_rules-Numbered : (config : Config) → Numbered 0 (compile_rules files config)
  unfolding compile_rules
  compile_rules-Numbered config = add_path_rules-Numbered config.path_rules _ (
      add_paths-Numbered config.disabled_paths false _
        (add_paths-Numbered config.enabled_paths true [] tt))

  module _ (path directory : Text) where
    -- No rule that applies has a longer path, and those of the same length come before.
    pub record Decides (rules : List CompiledRule) (winner : CompiledRule) : Type 0 where
      pub before : List CompiledRule
      pub after : List CompiledRule
      pub place : rules ≡ before ++ winner ∷ after
      pub matches : applies files path directory winner ≡ true
      pub no_longer :
          All
            (λ rule.
              applies files path directory rule ≡ true → byte_len rule.path ≤ byte_len winner.path)
            before
      pub shorter :
          All
            (λ rule.
              applies files path directory rule ≡ true → byte_len rule.path < byte_len winner.path)
            after

    -- After some of the rules.
    abbrev Settled : List CompiledRule → Option CompiledRule → Type 0
    Settled seen none = All (λ rule. applies files path directory rule ≡ false) seen
    Settled seen (some winner) = Decides seen winner × (winner.order < length seen)

    keep-Settled :
        (seen : List CompiledRule) (rule winner : CompiledRule)
        → Settled seen (some winner)
        → (applies files path directory rule ≡ true → byte_len rule.path < byte_len winner.path)
        → Settled (seen ++ rule ∷ []) (some winner)
    keep-Settled seen rule winner (d, low) h = (
      record {
        before = d.before;
        after = d.after ++ rule ∷ [];
        place =
            ap (λ s. s ++ rule ∷ []) d.place ∙ append_assoc d.before (winner ∷ d.after) (rule ∷ []);
        matches = d.matches;
        no_longer = d.no_longer;
        shorter = All-append _ d.after (rule ∷ []) d.shorter (h, tt);
      },
      omega (arith, low, length-append seen (rule ∷ [])),
    )

    take-Settled :
        (seen : List CompiledRule) (rule : CompiledRule)
        → rule.order ≡ length seen
        → applies files path directory rule ≡ true
        → All
            (λ other.
              applies files path directory other ≡ true → byte_len other.path ≤ byte_len rule.path)
            seen
        → Settled (seen ++ rule ∷ []) (some rule)
    take-Settled seen rule at match longest = (
      record {
        before = seen;
        after = [];
        place = refl;
        matches = match;
        no_longer = longest;
        shorter = tt;
      },
      omega (arith, at, length-append seen (rule ∷ [])),
    )

    -- The winner so far is no shorter than the rules seen.
    Decides-longest :
        (seen : List CompiledRule) (winner : CompiledRule)
        → Decides seen winner
        → All
            (λ other.
              applies files path directory other ≡ true
              → byte_len other.path ≤ byte_len winner.path)
            seen
    Decides-longest seen winner d = rw d.place (
        All-append _ d.before (winner ∷ d.after) d.no_longer
          (λ m. omega arith, All-map d.after (λ r h m. omega (arith, h m)) d.shorter))

    challenge-Settled :
        (seen : List CompiledRule) (rule : CompiledRule) (w : Option CompiledRule)
        → rule.order ≡ length seen
        → Settled seen w
        → Settled (seen ++ rule ∷ []) (challenge files path directory rule w)
    unfolding challenge
    challenge-Settled seen rule none at h = elim (Bool-cases (applies files path directory rule)) [
      | inl match ↦
          rw match (take-Settled seen rule at match (All-map seen (λ r away here. ground arith) h))
      | inr away ↦ rw away (All-append _ seen (rule ∷ []) h (away, tt))
    ]
    challenge-Settled seen rule (some winner) at (d, low) =
        elim (Bool-cases (applies files path directory rule)) [
          | inr away ↦ rw away (keep-Settled seen rule winner (d, low) (λ here. ground arith))
          | inl match ↦ elim (Bool-cases (beats rule winner)) [
            | inl better ↦
                rw (match, better)
                  (take-Settled seen rule at match (
                    All-map seen (λ r h m. beats_longest rule winner better r (h m))
                      (Decides-longest seen winner d)))
            | inr worse ↦
                rw (match, worse)
                  (keep-Settled seen rule winner (d, low)
                    (λ _. not_beats_shorter rule winner worse (omega (arith, low, at))))
          ]
        ]

    find_winner-Settled :
        (seen rules : List CompiledRule) (w : Option CompiledRule)
        → Numbered (length seen) rules
        → Settled seen w
        → Settled (seen ++ rules) (find_winner files path directory rules w)
    unfolding find_winner
    find_winner-Settled seen [] w numbered h = rw (append-nil seen) h
    find_winner-Settled seen (rule ∷ rules) w (at, numbered) h =
        let more : Numbered (length (seen ++ rule ∷ [])) rules =
          rw (length-snoc seen rule) numbered in
        rw (sym (append_assoc seen (rule ∷ []) rules)) (
          find_winner-Settled (seen ++ rule ∷ []) rules _ more (challenge-Settled seen rule w at h))

    -- What the rules say: every skill is enabled where no rule applies, and otherwise the rule that
    -- decides is followed.
    abbrev pub Judged : List CompiledRule → Bool × Text → Type 0
    Judged rules answer =
        (All (λ rule. applies files path directory rule ≡ false) rules × (answer ≡ (true, [])))
        ⊎ ((winner : CompiledRule) × Decides rules winner
            × (answer ≡ (
              winner.enabled,
              if winner.enabled then [] else codes "disabled by path rule " ++ winner.path,
            )))

    verdict-Judged :
        (rules : List CompiledRule) (w : Option CompiledRule)
        → Settled rules w
        → Judged rules (verdict w)
    unfolding verdict
    verdict-Judged rules none h = inl (h, refl)
    verdict-Judged rules (some winner) (d, low) = inr (
      winner,
      d,
      elim (Bool-cases winner.enabled) [ inl on ↦ rw on refl | inr off ↦ rw off refl ],
    )

    -- Whether the rules of a configuration enable a skill is decided by one rule, or by none where no
    -- rule applies to its path or its directory, and then it is enabled. The rule that decides applies,
    -- and of the rules that apply none has a longer path, and none of an equally long path comes after
    -- it, in the order of the enabled paths, the disabled paths and the path rules.
    pub is_enabled-Judged :
        (config : Config)
        → Judged
            (compile_rules files config)
            (is_enabled files path directory (compile_rules files config))
    unfolding is_enabled
    is_enabled-Judged config =
        let rules = compile_rules files config in
        verdict-Judged rules _
          (find_winner-Settled [] rules none (compile_rules-Numbered config) tt)
