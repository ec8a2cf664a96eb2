-- ===== src/Team/Policy.antt =====
-- daemon/subagents.go: `validateSpawnPolicy` and `enforceTeamLimits`.
use dire_agent.Prelude.{
  ℕ, ◌+◌, Bool, true, false, ◌&&◌, not, Option, none, some, List, [], ◌∷◌, leb,
}
use dire_agent.Prelude.Text.{Text, text_eq}
use dire_agent.Prelude.Assoc.{lookup}
use dire_agent.Prelude.Results.{Result, fail_if, ◌>>◌}
use dire_agent.Team.Types.{Thread, AgentProfile, SubagentSettings, is_subagent, is_running}

-- Why a spawn, a route or a wait is refused; the daemon wraps each in a text.
pub data Refusal : Type 0 where
  parent_required invalid_name invalid_task role_too_long invalid_thinking : Refusal
  unknown_thread unknown_profile : Text → Refusal
  subagents_disabled depth_limit profile_cannot_spawn : Refusal
  children_limit concurrent_limit : Refusal
  chat_has_no_tools : Refusal
  invalid_tool ungranted_tool : Text → Refusal
  call_failed not_created prompt_failed : Text → Refusal
  ids_required targets_itself cross_team siblings_disabled : Refusal
  ancestry_too_deep ancestry_cycle : Refusal
  waits_on_itself : Refusal
  not_in_team : Text → Refusal

abbrev may_spawn : Option AgentProfile → Bool
may_spawn none = false
may_spawn (some p) = p.can_spawn

unfoldable pub validate_spawn_policy : Thread → SubagentSettings → Result Refusal (Unit {0})
validate_spawn_policy parent policy = do
  fail_if (not policy.enabled) subagents_disabled
  fail_if (leb policy.max_depth parent.depth) depth_limit
  fail_if (is_subagent parent && not (may_spawn (lookup parent.agent_profile policy.profiles)))
      profile_cannot_spawn

abbrev pub bit : Bool → ℕ
bit true = 1
bit false = 0

unfoldable pub count_children : Text → List Thread → ℕ
count_children parent [] = 0
count_children parent (t ∷ team) = bit (text_eq t.parent_id parent) + count_children parent team

unfoldable pub count_running : List Thread → ℕ
count_running [] = 0
count_running (t ∷ team) = bit (is_subagent t && is_running t.status) + count_running team

unfoldable pub enforce_team_limits :
    List Thread → Text → SubagentSettings → Result Refusal (Unit {0})
unfolding count_children count_running
enforce_team_limits team parent policy = do
  fail_if (leb policy.max_children (count_children parent team)) children_limit
  fail_if (leb policy.max_concurrent (count_running team)) concurrent_limit
