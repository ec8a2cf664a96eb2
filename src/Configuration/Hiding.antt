-- ===== src/Configuration/Hiding.antt =====
-- configuration/redact.go: the public view and the values of secret keys.
use dire_agent.Prelude.{
  ◌≡◌, refl, true, false, Bool-cases, inl, inr, none, some, List, [], ◌∷◌, if◌then◌else◌,
}
use mathlib.Core.Path.{ap₂}
use dire_agent.Prelude.Text.{Text}
use dire_agent.Prelude.Assoc.{contains}
use dire_agent.Configuration.Types.{McpServer}
use dire_agent.Configuration.Patch.{McpServerPatch}
use dire_agent.Configuration.Merge.{apply_mcp_server_patch}
use dire_agent.Configuration.Redact.{
  redacted_value, map_entries, looks_secret, is_secret, redact_values, redact_server,
  redact_server_patch,
}
use dire_agent.Configuration.Restore.{Values}

module _ (to_lower : Text → Text) where
  -- Two maps with the same keys, which differ in the values of secret keys at most.
  abbrev pub SameButSecrets : List Text → Values → Values → Type 0
  SameButSecrets explicit [] [] = Unit
  SameButSecrets explicit [] (y ∷ ys) = ⊥
  SameButSecrets explicit (x ∷ xs) [] = ⊥
  SameButSecrets explicit ((k, v) ∷ xs) ((j, w) ∷ ys) =
      (k ≡ j) × (is_secret to_lower explicit k ≡ false → v ≡ w) × SameButSecrets explicit xs ys

  shown-same :
      (explicit : List Text) (k j v w : Text)
      → k ≡ j
      → (is_secret to_lower explicit k ≡ false → v ≡ w)
      → (if is_secret to_lower explicit k then redacted_value else v)
        ≡ (if is_secret to_lower explicit j then redacted_value else w)
  shown-same explicit k j v w same h = elim (Bool-cases (is_secret to_lower explicit k)) [
    | inl e ↦ rw (← same) (rw e refl)
    | inr e ↦ rw (← same) (rw e (h e))
  ]

  redact_values-same :
      (explicit : List Text) (xs ys : Values)
      → SameButSecrets explicit xs ys
      → redact_values to_lower xs explicit ≡ redact_values to_lower ys explicit
  unfolding redact_values map_entries
  redact_values-same explicit [] [] h = refl
  redact_values-same explicit [] (y ∷ ys) h = absurd h
  redact_values-same explicit (x ∷ xs) [] h = absurd h
  redact_values-same explicit ((k, v) ∷ xs) ((j, w) ∷ ys) (same, h, hs) =
      ap₂ ◌∷◌ (ap₂ (λ a b. (a, b)) same (shown-same explicit k j v w same h))
        (redact_values-same explicit xs ys hs)

  -- The public view of an MCP server tells nothing of its secrets: two servers that differ at most in
  -- the values of secret environment variables and secret headers have the same view. A key is secret
  -- where the server lists it or where it looks like one.
  pub redact_server-hides :
      (s : McpServer) (env headers : Values)
      → SameButSecrets s.secret_env s.env env
      → SameButSecrets s.secret_headers s.headers headers
      → redact_server to_lower (record s { env = env; headers = headers })
        ≡ redact_server to_lower s
  unfolding redact_server
  redact_server-hides s env headers e h =
      rw
        (
          redact_values-same s.secret_env s.env env e,
          redact_values-same s.secret_headers s.headers headers h,
        )
        refl

  -- A key that does not look secret and is listed as secret by the inherited server only: where a
  -- project overrides the environment of that server and does not list secrets of its own, the key is
  -- secret in the effective server, whose view hides the value, but the public view of the project's
  -- override shows it.
  pub inherited_secret-shown :
      (s : McpServer) (p : McpServerPatch) (k v : Text)
      → contains s.secret_env k ≡ true
      → looks_secret to_lower k ≡ false
      → p.env ≡ some ((k, v) ∷ [])
      → p.secret_env ≡ none
      → ((redact_server to_lower (apply_mcp_server_patch s p)).env ≡ (k, redacted_value) ∷ [])
        × ((redact_server_patch to_lower p).env ≡ some ((k, v) ∷ []))
  unfolding redact_server apply_mcp_server_patch redact_server_patch is_secret contains
  inherited_secret-shown s p k v listed plain env none_listed =
      rw (env, none_listed) (unfold redact_values map_entries in (rw listed refl, rw plain refl))
