-- ===== src/Team/Limits.antt =====
-- daemon/subagents.go: `SpawnAgent` and the limits of a team.
use dire_agent.Prelude.{
  ◌+◌, ◌≤◌, ◌<◌, ◌≡◌, refl, not, Option, none, some, List, [], ◌∷◌, arith, All,
}
use mathlib.Core.Path.{subst₃}
use dire_agent.Prelude.Text.{Text, text_eq_iff}
use dire_agent.Prelude.Assoc.{lookup}
use dire_agent.Prelude.Results.{Result, ok, err, >>=-eq-ok}
use dire_agent.Team.Types.{Thread, SpawnRequest, AgentProfile, SubagentSettings, team_root_id}
use dire_agent.Team.Policy.{
  Refusal, unknown_thread, unknown_profile, validate_spawn_policy, enforce_team_limits,
  count_children, count_running,
}
use dire_agent.Team.Tools.{narrow_agent_tools, is_team_tool}
use dire_agent.Prelude.Sets.{select}
use dire_agent.Team.Spawn.{
  Surroundings, find_thread, team_of, admit_child, created, passed, new_child_thread, spawn_agent,
  check_request, or_refuse, start_child, default_profile, trim_request,
}

-- What an admission has checked.
pub record Admitted (s : Surroundings) (store : List Thread) (r : SpawnRequest) (parent : Thread)
    (profile : AgentProfile) (allowed : List Text) : Type 0 where
  pub parent_found : find_thread r.parent_id store ≡ some parent
  pub profile_found : lookup r.profile s.policy.profiles ≡ some profile
  pub may_spawn : validate_spawn_policy parent s.policy ≡ ok tt
  pub granted :
      narrow_agent_tools parent
        (select (λ name. not (is_team_tool name)) s.runtime_tools)
        profile
        r.tools
      ≡ ok allowed
  pub within : enforce_team_limits (team_of (team_root_id parent) store) parent.id s.policy ≡ ok tt

or_refuse-ok : {A : Type 0} (o : Option A) (e : Refusal) (a : A) → or_refuse o e ≡ ok a → o ≡ some a
unfolding or_refuse
or_refuse-ok o e a h = ground arith

admitted_parts :
    {p parent : Thread} {f profile : AgentProfile} {a allowed : List Text}
    → ◌≡◌ {A = Result Refusal (Thread × AgentProfile × List Text)}
        (ok (p, f, a))
        (ok (parent, profile, allowed))
    → (p ≡ parent) × (f ≡ profile) × (a ≡ allowed)
admitted_parts h = (cc h, cc h, cc h)

pub admit_child-Admitted :
    (s : Surroundings) (store : List Thread) (r : SpawnRequest) (parent : Thread)
    (profile : AgentProfile) (allowed : List Text)
    → admit_child s store r ≡ ok (parent, profile, allowed)
    → Admitted s store r parent profile allowed
unfolding admit_child
admit_child-Admitted s store r parent profile allowed h =
    let (u₁, e₁, h₁) = >>=-eq-ok (check_request r) _ h in
    let (p, e₂, h₂) =
      >>=-eq-ok (or_refuse (find_thread r.parent_id store) (unknown_thread r.parent_id)) _ h₁ in
    let (v₁, d₁, k₁) = >>=-eq-ok (passed s.capabilities_error) _ h₂ in
    let (v₂, d₂, k₂) = >>=-eq-ok (passed s.settings_error) _ k₁ in
    let (f, e₃, h₃) =
      >>=-eq-ok (or_refuse (lookup r.profile s.policy.profiles) (unknown_profile r.profile)) _ k₂ in
    let (u₄, e₄, h₄) = >>=-eq-ok (validate_spawn_policy p s.policy) _ h₃ in
    let (a, e₅, h₅) = >>=-eq-ok (narrow_agent_tools p _ f r.tools) _ h₄ in
    let (v₃, d₃, k₃) = >>=-eq-ok (passed s.list_error) _ h₅ in
    let (u₆, e₆, h₆) =
      >>=-eq-ok (enforce_team_limits (team_of (team_root_id p) store) p.id s.policy) _ k₃ in
    let (u₇, e₇, h₇) = >>=-eq-ok (created s.create_error) _ h₆ in
    let parts : (p ≡ parent) × (f ≡ profile) × (a ≡ allowed) = admitted_parts h₇ in
    let found : Admitted s store r p f a = record {
      parent_found = or_refuse-ok (find_thread r.parent_id store) _ p e₂;
      profile_found = or_refuse-ok (lookup r.profile s.policy.profiles) _ f e₃;
      may_spawn = e₄;
      granted = e₅;
      within = e₆;
    } in
    subst₃ (Admitted s store r) parts.0 parts.1 parts.2 found

-- The limits, in every team.
pub record WithinLimits (policy : SubagentSettings) (store : List Thread) : Type 0 where
  pub children :
      (root parent : Text) → count_children parent (team_of root store) ≤ policy.max_children
  pub running : (root : Text) → count_running (team_of root store) ≤ policy.max_concurrent
  pub deep : All (λ t. t.depth ≤ policy.max_depth) store

enforce-room :
    (team : List Thread) (parent : Text) (policy : SubagentSettings)
    → enforce_team_limits team parent policy ≡ ok tt
    → (count_children parent team < policy.max_children)
      × (count_running team < policy.max_concurrent)
unfolding enforce_team_limits
enforce-room team parent policy h = ground arith

policy-depth :
    (parent : Thread) (policy : SubagentSettings)
    → validate_spawn_policy parent policy ≡ ok tt
    → parent.depth < policy.max_depth
unfolding validate_spawn_policy
policy-depth parent policy h = ground arith

-- A child in its parent's team, under an ID that no thread uses, where there is room for it.
module _ (policy : SubagentSettings) (store : List Thread) (child parent : Thread)
    (below : child.parent_id ≡ parent.id) (member : child.root_id ≡ team_root_id parent)
    (fresh : team_of child.id store ≡ [])
    (room : (count_children parent.id (team_of (team_root_id parent) store) < policy.max_children)
      × (count_running (team_of (team_root_id parent) store) < policy.max_concurrent))
    (limits : WithinLimits policy store) where
  grown-children :
      (root p : Text) → count_children p (team_of root (child ∷ store)) ≤ policy.max_children
  unfolding team_of count_children
  grown-children root p = ground (
    arith,
    limits.children root p,
    text_eq_iff child.id root,
    text_eq_iff child.root_id root,
    text_eq_iff child.parent_id p,
  )

  grown-running :
      (root : Text) → count_running (team_of root (child ∷ store)) ≤ policy.max_concurrent
  unfolding team_of count_running
  grown-running root =
      ground (arith, limits.running root, text_eq_iff child.id root, text_eq_iff child.root_id root)

-- The child that a spawn stores, with the prompt's outcome.
start_child-WithinLimits :
    (s : Surroundings) (store : List Thread) (r : SpawnRequest) (id : Text) (parent : Thread)
    (profile : AgentProfile) (allowed : List Text)
    → Admitted s store r parent profile allowed
    → team_of id store ≡ []
    → WithinLimits s.policy store
    → WithinLimits s.policy
        (start_child s.prompt_error s.thread_error
          (new_child_thread s id parent r profile allowed)
          store).0
unfolding new_child_thread
start_child-WithinLimits s store r id parent profile allowed a fresh limits =
    let room = enforce-room (team_of (team_root_id parent) store) parent.id s.policy a.within in
    let deep : parent.depth + 1 ≤ s.policy.max_depth =
      omega (arith, policy-depth parent s.policy a.may_spawn) in
    settle s.prompt_error s.thread_error room deep
  where
    settle :
        (e f : Option Text)
        → (count_children parent.id (team_of (team_root_id parent) store) < s.policy.max_children)
          × (count_running (team_of (team_root_id parent) store) < s.policy.max_concurrent)
        → parent.depth + 1 ≤ s.policy.max_depth
        → WithinLimits s.policy
            (start_child e f (new_child_thread s id parent r profile allowed) store).0
    settle none none room deep = record {
      children = grown-children s.policy store _ parent refl refl fresh room limits;
      running = grown-running s.policy store _ parent refl refl fresh room limits;
      deep = (deep, limits.deep);
    }
    settle none (some e) room deep = record {
      children = grown-children s.policy store _ parent refl refl fresh room limits;
      running = grown-running s.policy store _ parent refl refl fresh room limits;
      deep = (deep, limits.deep);
    }
    settle (some e) f room deep = record {
      children = grown-children s.policy store _ parent refl refl fresh room limits;
      running = grown-running s.policy store _ parent refl refl fresh room limits;
      deep = (deep, limits.deep);
    }

-- A spawn under an ID that no thread has or names as its root keeps every team within the limits of
-- the settings, whether it succeeds or fails: the children of each agent, the running subagents and
-- the depth.
pub spawn_agent-WithinLimits :
    (s : Surroundings) (store : List Thread) (request : SpawnRequest) (id : Text)
    → team_of id store ≡ []
    → WithinLimits s.policy store
    → WithinLimits s.policy (spawn_agent s store request id).0
unfolding spawn_agent
spawn_agent-WithinLimits s store request id fresh limits =
    admitted (admit_child s store (default_profile (trim_request request))) refl
  where
    admitted :
        (o : Result Refusal (Thread × AgentProfile × List Text))
        → admit_child s store (default_profile (trim_request request)) ≡ o
        → WithinLimits s.policy (spawn_agent s store request id).0
    admitted (err e) h = rw (h, spawn_agent) limits
    admitted (ok (parent, profile, allowed)) h =
        rw (h, spawn_agent)
          (start_child-WithinLimits s store (default_profile (trim_request request)) id parent
            profile allowed
            (admit_child-Admitted s store (default_profile (trim_request request)) parent profile
              allowed h)
            fresh limits)
