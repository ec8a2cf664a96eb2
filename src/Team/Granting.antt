-- ===== src/Team/Granting.antt =====
-- daemon/subagents.go: the tools of the child that `SpawnAgent` stores.
use dire_agent.Prelude.{
  ◌≡◌, refl, sym, ap, ◌∙◌, false, not, Option, none, some, List, ◌∷◌, All, arith,
}
use dire_agent.Prelude.Text.{Text}
use dire_agent.Prelude.Assoc.{lookup, contains}
use dire_agent.Prelude.Sets.{Sub-trans, All-map, All-Sub, select, select-All, select-Sub}
use dire_agent.Prelude.Results.{Result, ok, err}
use dire_agent.Team.Types.{Thread, SpawnRequest, AgentProfile, running}
use dire_agent.Team.Policy.{Refusal}
use dire_agent.Team.Tools.{is_team_tool}
use dire_agent.Team.Spawn.{
  Surroundings, find_thread, admit_child, new_child_thread, start_child, builtin_names,
  default_profile, trim_request, spawn_agent,
}
use dire_agent.Team.Limits.{Admitted, admit_child-Admitted}
use dire_agent.Team.Narrowing.{Granted, narrow_agent_tools-Granted}

-- A child with its grant, behind the threads that there were.
pub record Endowed (s : Surroundings) (store : List Thread) (request : SpawnRequest)
    (after : List Thread) (child : Thread) : Type 0 where
  pub parent : Thread
  pub profile : AgentProfile
  pub parent_found : find_thread request.parent_id store ≡ some parent
  pub profile_found :
      lookup (default_profile (trim_request request)).profile s.policy.profiles ≡ some profile
  pub below : child.parent_id ≡ parent.id
  pub granted : Granted s.runtime_tools profile request.tools child.agent_tools
  pub no_team_tool : All (λ name. is_team_tool name ≡ false) child.agent_tools
  pub builtin : child.tools ≡ select (contains builtin_names) child.agent_tools
  pub stored : after ≡ child ∷ store

start_child-ok :
    (prompt_error thread_error : Option Text) (fresh child : Thread) (store : List Thread)
    → (start_child prompt_error thread_error fresh store).1 ≡ ok child
    → (child ≡ record fresh { status = running })
      × ((start_child prompt_error thread_error fresh store).0 ≡ child ∷ store)
start_child-ok none none fresh child store h =
    let same : record fresh { status = running } ≡ child = cc h in
    (sym same, ap (λ c. c ∷ store) same)
start_child-ok none (some e) fresh child store h = cc
start_child-ok (some e) thread_error fresh child store h = cc

module _ (s : Surroundings) (store : List Thread) (request : SpawnRequest) (id : Text) where
  started-Endowed :
      (parent : Thread) (profile : AgentProfile) (allowed : List Text)
      → Admitted s store (default_profile (trim_request request)) parent profile allowed
      → let fresh =
          new_child_thread s id parent (default_profile (trim_request request)) profile allowed in
        Endowed s store request
          (record fresh { status = running } ∷ store)
          (record fresh { status = running })
  unfolding new_child_thread trim_request
  started-Endowed parent profile allowed a =
      let offered = select (λ name. not (is_team_tool name)) s.runtime_tools in
      let (sub, limits, grants) =
        narrow_agent_tools-Granted parent offered profile request.tools allowed a.granted in
      record {
        parent = parent;
        profile = profile;
        parent_found = a.parent_found;
        profile_found = a.profile_found;
        below = refl;
        granted = (
          Sub-trans allowed offered s.runtime_tools sub (select-Sub _ s.runtime_tools),
          limits,
          grants,
        );
        no_team_tool =
            All-Sub (λ name. is_team_tool name ≡ false) allowed offered sub
              (All-map offered (λ name kept. ground arith) (select-All _ s.runtime_tools));
        builtin = refl;
        stored = refl;
      }

  -- A spawn that succeeds returns a child of the thread that the request names, and stores it in front
  -- of the threads that there were. The child is granted a subset of the tools that the parent's
  -- runtime offers, none of which is a team tool; where the profile of the request (`general` where it
  -- names none) lists tools, a subset of those; and where the request lists tools, exactly these,
  -- trimmed and each once. Its built-in tools are the built-in ones that it is granted.
  pub spawn_agent-Endowed :
      (child : Thread)
      → (spawn_agent s store request id).1 ≡ ok child
      → Endowed s store request (spawn_agent s store request id).0 child
  unfolding spawn_agent
  spawn_agent-Endowed child h =
      admitted (admit_child s store (default_profile (trim_request request))) refl
    where
      admitted :
          (o : Result Refusal (Thread × AgentProfile × List Text))
          → admit_child s store (default_profile (trim_request request)) ≡ o
          → Endowed s store request (spawn_agent s store request id).0 child
      admitted (err e) at =
          let refused : (spawn_agent s store request id).1 ≡ err e = rw (at, spawn_agent) refl in
          cc (sym refused ∙ h)
      admitted (ok (parent, profile, allowed)) at =
          let fresh =
            new_child_thread s id parent (default_profile (trim_request request)) profile allowed in
          let spawned : spawn_agent s store request id
              ≡ start_child s.prompt_error s.thread_error fresh store =
            rw (at, spawn_agent) refl in
          let (same, stored) =
            start_child-ok s.prompt_error s.thread_error fresh child store
              (sym (ap (λ r. r.1) spawned) ∙ h) in
          rw (spawned, stored, same)
            (started-Endowed parent profile allowed (
              admit_child-Admitted s store (default_profile (trim_request request)) parent profile
                allowed at))
