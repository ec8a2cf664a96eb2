-- ===== src/Team/Wait.antt =====
-- daemon/subagent_messages.go: `selectWaitAgents` and `agentsReady`. An agent is read off its thread.
use dire_agent.Prelude.{
  Bool, true, false, ◌||◌, not, Option, none, some, List, [], ◌∷◌, if◌then◌else◌,
}
use mathlib.Core.Option
use dire_agent.Prelude.Text.{Text, text_eq}
use dire_agent.Prelude.Assoc.{lookup, contains}
use dire_agent.Prelude.Results.{Result, ok, err, ◌>>=◌}
use dire_agent.Team.Types.{Thread, is_running}
use dire_agent.Team.Policy.{Refusal, waits_on_itself, not_in_team}
use dire_agent.Team.Route.{by_id, is_ancestor}

-- Without IDs, the agents below the caller.
keep_if : Option Bool → Thread → Option (List Thread) → Option (List Thread)
keep_if none t rest = none
keep_if (some true) t rest = Option.map (λ ts. t ∷ ts) rest
keep_if (some false) t rest = rest

-- `none` where a loop of `isAncestor` has not ended.
select_below : Text → List (Text × Thread) → List Thread → Option (List Thread)
unfolding keep_if
select_below caller members [] = some []
select_below caller members (t ∷ ts) =
    let below = is_ancestor caller t.id members in
    keep_if (if text_eq t.id caller then some false else below) t (select_below caller members ts)

unfoldable pub or_outside : Option Thread → Text → Result Refusal Thread
or_outside none id = err (not_in_team id)
or_outside (some t) id = ok t

-- The named agents, each once.
unfoldable pub select_named :
    Text → List (Text × Thread) → List Text → List Text → Result Refusal (List Thread)
unfolding or_outside lookup contains
select_named caller members seen [] = ok []
select_named caller members seen (id ∷ ids) =
    let rest = select_named caller members (id ∷ seen) ids in
    if text_eq id caller
    then err waits_on_itself
    else (or_outside (lookup id members) id >>= λ t.
        if contains seen id then rest else (rest >>= λ ts. ok (t ∷ ts)))

unfoldable pub select_wait_agents :
    Text → List Thread → List Text → Option (Result Refusal (List Thread))
unfolding select_below select_named by_id
select_wait_agents caller agents [] =
    Option.map (λ ts. ok ts) (select_below caller (by_id agents) agents)
select_wait_agents caller agents (id ∷ ids) =
    some (select_named caller (by_id agents) [] (id ∷ ids))

unfoldable pub some_settled : List Thread → Bool
some_settled [] = false
some_settled (t ∷ ts) = not (is_running t.status) || some_settled ts

unfoldable pub agents_ready : List Thread → Bool
unfolding some_settled
agents_ready [] = true
agents_ready (t ∷ ts) = some_settled (t ∷ ts)
