-- ===== src/Team/Tools.antt =====
-- daemon/subagents.go: `narrowAgentTools`, what a child is granted; and `isTeamTool`.
use dire_agent.Prelude.{
  Bool, true, false, ◌||◌, not, Option, none, some, List, [], ◌∷◌, if◌then◌else◌,
}
use dire_agent.Prelude.Text.{Text, codes, trim_space, is_empty}
use dire_agent.Prelude.Assoc.{contains}
use dire_agent.Prelude.Sets.{select}
use dire_agent.Prelude.Sort.{sort_strings}
use dire_agent.Prelude.Results.{Result, ok, err, ◌>>=◌}
use dire_agent.Team.Types.{Thread, AgentProfile, Kind, project, chat}
use dire_agent.Team.Policy.{Refusal, chat_has_no_tools, invalid_tool, ungranted_tool}

abbrev pub team_tools : List Text
team_tools =
    codes "spawn_agent"
    ∷ codes "list_agents"
    ∷ codes "send_agent_message"
    ∷ codes "wait_agents"
    ∷ codes "interrupt_agent"
    ∷ []

unfoldable pub is_team_tool : Text → Bool
unfolding contains
is_team_tool name = contains team_tools name

unfoldable pub base_tools : List Text → Option (List Text) → List Text
unfolding select
base_tools parent_tools none = sort_strings parent_tools
base_tools parent_tools (some names) = select (contains parent_tools) names

-- `seen` holds the names that were already taken.
unfoldable pub take_requested : List Text → List Text → List Text → Result Refusal (List Text)
take_requested granted seen [] = ok []
take_requested granted seen (name ∷ names) =
    let trimmed = trim_space name in
    let rest = take_requested granted (trimmed ∷ seen) names in
    if is_empty trimmed || contains seen trimmed
    then err (invalid_tool trimmed)
    else if not (contains granted trimmed)
    then err (ungranted_tool trimmed)
    else (rest >>= λ taken. ok (trimmed ∷ taken))

unfoldable pub restrict : List Text → Option (List Text) → Result Refusal (List Text)
unfolding take_requested
restrict base none = ok base
restrict base (some requested) = take_requested base [] requested

-- `len(requested) != 0`.
abbrev requests_some : Option (List Text) → Bool
requests_some none = false
requests_some (some names) = not (is_nil names)
  where
    is_nil : List Text → Bool
    is_nil [] = true
    is_nil (_ ∷ _) = false

unfoldable pub narrow_for :
    Kind → List Text → AgentProfile → Option (List Text) → Result Refusal (List Text)
unfolding base_tools restrict
narrow_for chat parent_tools profile requested =
    if requests_some requested then err chat_has_no_tools else ok []
narrow_for project parent_tools profile requested =
    restrict (base_tools parent_tools profile.tools) requested

unfoldable pub narrow_agent_tools :
    Thread → List Text → AgentProfile → Option (List Text) → Result Refusal (List Text)
unfolding narrow_for
narrow_agent_tools parent = narrow_for parent.kind
