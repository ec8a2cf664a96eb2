-- ===== src/Team/Route.antt =====
-- daemon/subagent_messages.go: `isAncestor` and `authorizeTeamRoute`, who may send to whom.
use dire_agent.Prelude.{
  ℕ, zero, suc, Bool, true, false, ◌||◌, not, Option, none, some, List, [], ◌∷◌, if◌then◌else◌,
}
use dire_agent.Prelude.Text.{Text, text_eq, is_empty}
use dire_agent.Prelude.Assoc.{lookup, insert}
use dire_agent.Prelude.Results.{Result, ok, err, fail_if, ◌>>=◌, ◌>>◌}
use dire_agent.Team.Types.{Thread, SubagentSettings, team_root_id}
use dire_agent.Team.Policy.{
  Refusal, unknown_thread, ids_required, targets_itself, cross_team, siblings_disabled,
}
use dire_agent.Team.Spawn.{find_thread, or_refuse, passed, team_of}

-- The map from IDs to threads; a later thread replaces an earlier one.
add_all : List Thread → List (Text × Thread) → List (Text × Thread)
add_all [] m = m
add_all (t ∷ ts) m = add_all ts (insert t.id t m)

unfoldable pub by_id : List Thread → List (Text × Thread)
unfolding add_all insert
by_id team = add_all team []

-- The loop of `isAncestor` from a thread; `none` if the fuel runs out.
unfoldable pub ancestor_loop : ℕ → Text → Thread → List (Text × Thread) → Option Bool
ancestor_loop zero ancestor current members = none
ancestor_loop (suc fuel) ancestor current members =
    let rest : Option Bool = elim (lookup current.parent_id members) [
      | none ↦ some false
      | some parent ↦
          let further = ancestor_loop fuel ancestor parent members in
          if text_eq parent.id current.id then some false else further
    ] in
    if is_empty current.parent_id
    then some false
    else if text_eq current.parent_id ancestor
    then some true
    else rest

unfoldable pub start_loop : Text → Option Thread → List (Text × Thread) → Option Bool
unfolding ancestor_loop
start_loop ancestor none members = some false
start_loop ancestor (some t) members = ancestor_loop (suc t.depth) ancestor t members

-- A missing descendant is the zero thread, which has no parent. A thread's depth bounds the rounds
-- where each parent is less deep, as spawning makes it; elsewhere the loop may not end, and `none` says
-- that it has not ended within these rounds.
unfoldable pub is_ancestor : Text → Text → List (Text × Thread) → Option Bool
unfolding start_loop lookup
is_ancestor ancestor descendant members = start_loop ancestor (lookup descendant members) members

-- `||` of calls that may not return; the second call is made where the first returns false.
unfoldable pub or_else : Option Bool → Option Bool → Option Bool
or_else none second = none
or_else (some true) second = some true
or_else (some false) second = second

-- The last check of a route.
unfoldable pub route_open : Thread → Thread → List (Text × Thread) → SubagentSettings → Option Bool
unfolding is_ancestor or_else
route_open from to members policy =
    let root = team_root_id from in
    let below = or_else (is_ancestor to.id from.id members) (some policy.allow_sibling_messages) in
    or_else (some (text_eq from.id root || text_eq to.id root))
      (or_else (is_ancestor from.id to.id members) below)

-- The settings of the root, and the errors of reading them and of listing the team.
pub record RouteCalls : Type 0 where
  pub policy : SubagentSettings
  pub settings_error : Option Text
  pub list_error : Option Text

-- The threads of a route, once they are found in one team, whose settings and members can be read.
unfoldable pub route_ends :
    RouteCalls → List Thread → Text → Text → Result Refusal (Thread × Thread)
unfolding find_thread or_refuse
route_ends calls store from_id to_id = do
  fail_if (is_empty from_id || is_empty to_id) ids_required
  fail_if (text_eq from_id to_id) targets_itself
  from ← or_refuse (find_thread from_id store) (unknown_thread from_id)
  to ← or_refuse (find_thread to_id store) (unknown_thread to_id)
  fail_if (not (text_eq (team_root_id from) (team_root_id to))) cross_team
  passed calls.settings_error
  passed calls.list_error
  ok (from, to)

unfoldable pub decide_route :
    Thread × Thread → Option Bool → Option (Result Refusal (Thread × Thread))
decide_route ends none = none
decide_route ends (some true) = some (ok ends)
decide_route ends (some false) = some (err siblings_disabled)

-- `none` where a loop of `isAncestor` has not ended.
unfoldable pub authorize_team_route :
    RouteCalls → List Thread → Text → Text → Option (Result Refusal (Thread × Thread))
unfolding route_ends team_of by_id route_open decide_route
authorize_team_route calls store from_id to_id = elim (route_ends calls store from_id to_id) [
  | err e ↦ some (err e)
  | ok (from, to) ↦
      decide_route (from, to)
        (route_open from to (by_id (team_of (team_root_id from) store)) calls.policy)
]
