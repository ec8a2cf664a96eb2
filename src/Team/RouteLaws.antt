-- ===== src/Team/RouteLaws.antt =====
-- daemon/subagent_messages.go: the routes that `authorizeTeamRoute` opens.
use dire_agent.Prelude.{
  ◌≡◌, refl, ap, sym, ◌∙◌, Bool, true, false, ◌||◌, not, Option, none, some, List, arith,
}
use mathlib.Core.Path.{subst₂, subst}
use dire_agent.Prelude.Text.{Text, text_eq, text_eq_iff, is_empty}
use dire_agent.Prelude.Results.{Result, ok, err, fail_if, >>=-eq-ok}
use dire_agent.Team.Types.{Thread, SubagentSettings, team_root_id}
use dire_agent.Team.Policy.{Refusal, unknown_thread, ids_required, targets_itself, cross_team}
use dire_agent.Team.Spawn.{find_thread, or_refuse, passed, team_of}
use dire_agent.Team.Route.{
  RouteCalls, by_id, or_else, route_open, route_ends, decide_route, authorize_team_route,
}
use dire_agent.Team.Ancestry.{IsTeam, is_ancestor-returns}

-- What was checked on the way to a route.
pub record Ends (calls : RouteCalls) (store : List Thread) (from_id to_id : Text) (from to : Thread)
    : Type 0 where
  pub source : find_thread from_id store ≡ some from
  pub target : find_thread to_id store ≡ some to
  pub named : (is_empty from_id || is_empty to_id) ≡ false
  pub distinct : text_eq from_id to_id ≡ false
  pub same_team : team_root_id from ≡ team_root_id to
  pub settings : passed calls.settings_error ≡ ok tt
  pub members : passed calls.list_error ≡ ok tt

fail_if-ok : (b : Bool) (e : Refusal) → fail_if b e ≡ ok tt → b ≡ false
fail_if-ok b e h = ground arith

or_refuse-some :
    {A : Type 0} (o : Option A) (e : Refusal) (a : A) → or_refuse o e ≡ ok a → o ≡ some a
unfolding or_refuse
or_refuse-some o e a h = ground arith

route_ends-Ends :
    (calls : RouteCalls) (store : List Thread) (a b : Text) (from to : Thread)
    → route_ends calls store a b ≡ ok (from, to)
    → Ends calls store a b from to
unfolding route_ends
route_ends-Ends calls store a b from to h =
    let (u₁, e₁, h₁) = >>=-eq-ok (fail_if (is_empty a || is_empty b) ids_required) _ h in
    let (u₂, e₂, h₂) = >>=-eq-ok (fail_if (text_eq a b) targets_itself) _ h₁ in
    let (f, e₃, h₃) = >>=-eq-ok (or_refuse (find_thread a store) (unknown_thread a)) _ h₂ in
    let (t, e₄, h₄) = >>=-eq-ok (or_refuse (find_thread b store) (unknown_thread b)) _ h₃ in
    let (u₅, e₅, h₅) =
      >>=-eq-ok (fail_if (not (text_eq (team_root_id f) (team_root_id t))) cross_team) _ h₄ in
    let (u₆, e₆, h₆) = >>=-eq-ok (passed calls.settings_error) _ h₅ in
    let (u₇, e₇, h₇) = >>=-eq-ok (passed calls.list_error) _ h₆ in
    let parts : (f ≡ from) × (t ≡ to) = (cc h₇, cc h₇) in
    let found : Ends calls store a b f t = record {
      source = or_refuse-some (find_thread a store) _ f e₃;
      target = or_refuse-some (find_thread b store) _ t e₄;
      named = fail_if-ok _ _ e₁;
      distinct = fail_if-ok _ _ e₂;
      same_team = ground (arith, fail_if-ok _ _ e₅, text_eq_iff (team_root_id f) (team_root_id t));
      settings = e₆;
      members = e₇;
    } in
    subst₂ (Ends calls store a b) parts.0 parts.1 found

-- What was checked is enough for the route.
Ends-ok :
    (calls : RouteCalls) (store : List Thread) (a b : Text) (from to : Thread)
    → Ends calls store a b from to
    → route_ends calls store a b ≡ ok (from, to)
unfolding route_ends or_refuse
Ends-ok calls store a b from to h =
    ground (arith, text_eq_iff (team_root_id from) (team_root_id to))

route_ends_sym :
    (calls : RouteCalls) (store : List Thread) (a b : Text) (from to : Thread)
    → Ends calls store a b from to
    → route_ends calls store b a ≡ ok (to, from)
route_ends_sym calls store a b from to h = Ends-ok calls store b a to from (record {
  source = h.target;
  target = h.source;
  named = ground arith;
  distinct = ground (arith, text_eq_iff a b, text_eq_iff b a);
  same_team = sym h.same_team;
  settings = h.settings;
  members = h.members;
})

decide_route-ok :
    (ends : Thread × Thread) (o : Option Bool) (from to : Thread)
    → decide_route ends o ≡ some (ok (from, to))
    → (ends ≡ (from, to)) × (o ≡ some true)
unfolding decide_route
decide_route-ok ends none from to h = cc
decide_route-ok ends (some true) from to h = (cc h, refl)
decide_route-ok ends (some false) from to h = cc

-- A route that was authorized has its ends, and is open.
pub authorize_team_route-Ends :
    (calls : RouteCalls) (store : List Thread) (a b : Text) (from to : Thread)
    → authorize_team_route calls store a b ≡ some (ok (from, to))
    → Ends calls store a b from to
      × (route_open from to (by_id (team_of (team_root_id from) store)) calls.policy ≡ some true)
unfolding authorize_team_route
authorize_team_route-Ends calls store a b from to h = found (route_ends calls store a b) refl
  where
    found :
        (r : Result Refusal (Thread × Thread))
        → route_ends calls store a b ≡ r
        → Ends calls store a b from to
          × (route_open from to (by_id (team_of (team_root_id from) store)) calls.policy
              ≡ some true)
    found (err e) at =
        let refused : authorize_team_route calls store a b ≡ some (err e) =
          rw (at, authorize_team_route) refl in
        cc (sym refused ∙ h)
    found (ok (f, t)) at =
        let decided : decide_route (f, t)
              (route_open f t (by_id (team_of (team_root_id f) store)) calls.policy)
            ≡ some (ok (from, to)) =
          sym (rw (at, authorize_team_route) refl) ∙ h in
        let (same, open_still) = decide_route-ok (f, t) _ from to decided in
        let parts : (f ≡ from) × (t ≡ to) = (ap (λ e. e.0) same, ap (λ e. e.1) same) in
        subst₂
          (λ x y.
            Ends calls store a b x y
            × (route_open x y (by_id (team_of (team_root_id x) store)) calls.policy ≡ some true))
          parts.0 parts.1 (route_ends-Ends calls store a b f t at, open_still)

or_else_comm :
    (x y z : Bool)
    → or_else (some x) (or_else (some y) (some z)) ≡ or_else (some y) (or_else (some x) (some z))
unfolding or_else
or_else_comm true true z = refl
or_else_comm true false z = refl
or_else_comm false true z = refl
or_else_comm false false z = refl

||_comm : (x y : Bool) → (x || y) ≡ (y || x)
||_comm x y = ground arith

route_open_sym :
    (from to : Thread) (members : List (Text × Thread)) (policy : SubagentSettings)
    → IsTeam members
    → team_root_id from ≡ team_root_id to
    → route_open from to members policy ≡ route_open to from members policy
unfolding route_open
route_open_sym from to members policy team e =
    let (x, up) = is_ancestor-returns members from.id to.id team in
    let (y, down) = is_ancestor-returns members to.id from.id team in
    rw (up, down, e, ||_comm (text_eq from.id (team_root_id to)) (text_eq to.id (team_root_id to)))
      (ap (or_else (some (text_eq to.id (team_root_id to) || text_eq from.id (team_root_id to))))
        (or_else_comm x y policy.allow_sibling_messages))

-- In a team in which each thread stands under its ID and each parent is less deep, a route is open in
-- both directions or in none: who may send to an agent may be answered by it.
pub authorize_team_route_sym :
    (calls : RouteCalls) (store : List Thread) (a b : Text) (from to : Thread)
    → IsTeam (by_id (team_of (team_root_id from) store))
    → authorize_team_route calls store a b ≡ some (ok (from, to))
    → authorize_team_route calls store b a ≡ some (ok (to, from))
unfolding authorize_team_route decide_route
authorize_team_route_sym calls store a b from to team h =
    let (ends, open_there) = authorize_team_route-Ends calls store a b from to h in
    let open_back : route_open to from (by_id (team_of (team_root_id to) store)) calls.policy
        ≡ some true =
      subst (λ root. route_open to from (by_id (team_of root store)) calls.policy ≡ some true)
        ends.same_team
        (sym (route_open_sym from to _ calls.policy team ends.same_team) ∙ open_there) in
    rw (route_ends_sym calls store a b from to ends, authorize_team_route)
      (ap (decide_route (to, from)) open_back)
