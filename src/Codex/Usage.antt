-- ===== src/Codex/Usage.antt =====
-- provider/codex/response_usage.go and provider/codex/response_types.go: the token counts of a response.
-- An int64 is its bit pattern, as in Usage.
use dire_agent.Prelude.{ℕ, not, List, [], ◌∷◌, ◌==◌, if◌then◌else◌}
use dire_agent.Agent.{Usage}
use dire_agent.Usage.{add64}

pub record CacheCreationUsage : Type 0 where
  pub value : ℕ
  pub tokens : ℕ
  pub input_tokens : ℕ
  pub ephemeral_5m_input_tokens : ℕ
  pub ephemeral_1h_input_tokens : ℕ

pub record UsageTokenDetails : Type 0 where
  pub cached_tokens : ℕ
  pub cached_input_tokens : ℕ
  pub cache_read_tokens : ℕ
  pub cache_read_input_tokens : ℕ
  pub cache_write_tokens : ℕ
  pub cache_creation_tokens : ℕ
  pub cache_creation_input_tokens : ℕ
  pub cache_creation : CacheCreationUsage

pub record ResponsesUsage : Type 0 where
  pub input_tokens : ℕ
  pub output_tokens : ℕ
  pub total_tokens : ℕ
  pub context_window : ℕ
  pub cached_tokens : ℕ
  pub cached_input_tokens : ℕ
  pub cache_read_tokens : ℕ
  pub cache_read_input_tokens : ℕ
  pub cache_write_tokens : ℕ
  pub cache_creation_tokens : ℕ
  pub cache_creation_input_tokens : ℕ
  pub cache_creation : CacheCreationUsage
  pub input_tokens_details : UsageTokenDetails

unfoldable pub first_non_zero : List ℕ → ℕ
first_non_zero [] = 0
first_non_zero (value ∷ values) = if not (value == 0) then value else first_non_zero values

unfoldable pub cache_creation_total : CacheCreationUsage → ℕ
unfolding first_non_zero
cache_creation_total u =
    let total = add64 u.ephemeral_5m_input_tokens u.ephemeral_1h_input_tokens in
    if not (total == 0) then total else first_non_zero (u.value ∷ u.tokens ∷ u.input_tokens ∷ [])

unfoldable pub agent_usage : ResponsesUsage → ℕ → Usage
unfolding first_non_zero cache_creation_total
agent_usage u context_window =
    let details = u.input_tokens_details in
    record {
      input_tokens = u.input_tokens;
      output_tokens = u.output_tokens;
      cache_read_tokens = first_non_zero (
          details.cached_tokens ∷ u.cached_tokens ∷ details.cached_input_tokens
          ∷ u.cached_input_tokens ∷ details.cache_read_tokens ∷ u.cache_read_tokens
          ∷ details.cache_read_input_tokens ∷ u.cache_read_input_tokens ∷ []);
      cache_write_tokens = first_non_zero (
          details.cache_write_tokens
          ∷ u.cache_write_tokens
          ∷ details.cache_creation_input_tokens
          ∷ u.cache_creation_input_tokens
          ∷ details.cache_creation_tokens
          ∷ u.cache_creation_tokens
          ∷ cache_creation_total details.cache_creation
          ∷ cache_creation_total u.cache_creation
          ∷ []);
      total_tokens =
          (if u.total_tokens == 0 then add64 u.input_tokens u.output_tokens else u.total_tokens);
      context_tokens = add64 u.input_tokens u.output_tokens;
      context_window = context_window;
    }
