-- ===== src/Loop/Calls.antt =====
-- agentloop/loop.go: the results of the tool calls of a step, and the tools that it is offered.
use dire_agent.Prelude.{ℕ, ◌≡◌, refl, ap, sym, ◌∙◌, Option, some, List, [], ◌∷◌, map, arith, All}
use mathlib.Core.Option
use mathlib.Core.List.{Perm, filter_map, filter_map-cons-some}
use mathlib.Core.List.Perm
use mathlib.Core.Path.{subst, subst₂}
use dire_agent.Prelude.Text.{Text}
use dire_agent.Prelude.Assoc.{lookup, keys, Unique, Finds, Finds-self}
use dire_agent.Prelude.Sort.{
  sort_strings, sort_strings-perm, sort_strings-IsSorted, sort_strings-All, IsSorted,
}
use dire_agent.Prelude.Results.{Result, ok, err}
use dire_agent.Agent.{ToolCall, ToolResult}
use dire_agent.Loop.Event.{Event}
use dire_agent.Loop.Outcome.{Failure, M, pure, continue}
use dire_agent.Loop.Config.{Tool, Loop}
use dire_agent.Loop.Tools.{
  append_error, with_error, before_tool, after_tool, dispatch, run_hooked, run_call, run_calls,
  tool_definitions, fresh_result,
}

with_error-call_id : (r : ToolResult) (e : Option Text) → (with_error r e).call_id ≡ r.call_id
unfolding append_error
with_error-call_id r e = ground arith

module _ {W : Type 0} where
  -- An after-tool hook that does not touch the call ID of the result.
  abbrev pub KeepsId : (W → ToolCall → ToolResult → W × ToolResult × Option Text) → Type 0
  KeepsId hook = (w : W) (c : ToolCall) (r : ToolResult) → (hook w c r).1.call_id ≡ r.call_id

  after_tool-call_id :
      (hooks : List (W → ToolCall → ToolResult → W × ToolResult × Option Text)) (w : W)
      (c : ToolCall) (r : ToolResult)
      → All KeepsId hooks
      → (after_tool hooks w c r).1.call_id ≡ r.call_id
  unfolding after_tool
  after_tool-call_id [] w c r h = refl
  after_tool-call_id (hook ∷ hooks) w c r (h, hs) =
      after_tool-call_id hooks _ c _ hs ∙ with_error-call_id _ (hook w c r).2 ∙ h w c r

  dispatch-call_id :
      (l : Loop W) (w : W) (c : ToolCall) (r : ToolResult) (e : Option Text)
      → (dispatch l w c r e).1.call_id ≡ r.call_id
  unfolding dispatch append_error
  dispatch-call_id l w c r e = ground arith

  -- The results of the calls of a step, one after another.
  unfoldable pub results : Loop W → List ToolCall → W → List ToolResult
  results l [] w = []
  results l (call ∷ calls) w = (run_hooked l call w).1.1 ∷ results l calls (run_hooked l call w).0

  continue-value :
      {A B : Type 0} (w : W) (log : List Event) (v : Result Failure A) (f : A → M W B) (a : A)
      → v ≡ ok a
      → (continue w log v f).value ≡ (f a w).value
  continue-value w log (ok b) f a h = ground arith
  continue-value w log (err e) f a h = cc

  -- Executing calls never stops the run: a veto, an unknown tool and an error are results.
  pub run_calls-results :
      (l : Loop W) (n : ℕ) (calls : List ToolCall) (w : W)
      → (run_calls l n calls w).value ≡ ok (results l calls w)
  unfolding run_calls run_call results
  run_calls-results l n [] w = refl
  run_calls-results l n (call ∷ calls) w =
      let (w', done) = run_hooked l call w in
      continue-value _ _ _ (λ rs. pure (done.1 ∷ rs)) _ (run_calls-results l n calls w')

  pub run_hooked-call_id :
      (l : Loop W) (call : ToolCall) (w : W)
      → All KeepsId l.hooks.after_tool
      → (run_hooked l call w).1.1.call_id ≡ call.id
  unfolding run_hooked
  run_hooked-call_id l call w h =
      let (w', call', veto) = before_tool l.hooks.before_tool w call in
      let (w'', r) = dispatch l w' call' (fresh_result call) veto in
      after_tool-call_id l.hooks.after_tool w'' call' r h
      ∙ dispatch-call_id l w' call' (fresh_result call) veto

  results-ids :
      (l : Loop W) (calls : List ToolCall) (w : W)
      → All KeepsId l.hooks.after_tool
      → map (λ r. r.call_id) (results l calls w) ≡ map (λ c. c.id) calls
  unfolding results
  results-ids l [] w h = refl
  results-ids l (call ∷ calls) w h =
      cc (run_hooked-call_id l call w h, results-ids l calls (run_hooked l call w).0 h)

  -- Where no after-tool hook changes the call ID of a result, executing the calls of a step succeeds
  -- whatever the tools and the hooks do and whatever errors they return, those of after-tool hooks
  -- included, with one result for each call, in the order of the calls and under the ID that the model
  -- gave the call.
  pub run_calls-answers_each :
      (l : Loop W) (n : ℕ) (calls : List ToolCall) (w : W)
      → All KeepsId l.hooks.after_tool
      → (rs : List ToolResult) × ((run_calls l n calls w).value ≡ ok rs)
        × (map (λ r. r.call_id) rs ≡ map (λ c. c.id) calls)
  run_calls-answers_each l n calls w h =
      (results l calls w, run_calls-results l n calls w, results-ids l calls w h)

  -- A call that a before-tool hook vetoes executes no tool: its result and the world after it are the
  -- same whatever tools there are.
  pub run_hooked-veto :
      (l : Loop W) (tools : List (Text × Tool W)) (call : ToolCall) (w : W) (m : Text)
      → (before_tool l.hooks.before_tool w call).2 ≡ some m
      → run_hooked (record l { tools = tools }) call w ≡ run_hooked l call w
  unfolding run_hooked dispatch
  run_hooked-veto l tools call w m h = rw h

  -- The tools behind a list of names.
  abbrev Held : List (Text × Tool W) → Text → Type 0
  Held m name = (t : Tool W) × (lookup name m ≡ some t)

  -- What the names of a list lead to.
  record Collected (m : List (Text × Tool W)) (names : List Text) : Type 0 where
    pub entries : List (Text × Tool W)
    pub named : keys entries ≡ names
    pub paired : filter_map (λ name. Option.map (λ t. (name, t)) (lookup name m)) names ≡ entries
    pub defined :
        filter_map (λ name. Option.map (λ t. t.definition) (lookup name m)) names
        ≡ map (λ e. e.1.definition) entries

  collect : (m : List (Text × Tool W)) (names : List Text) → All (Held m) names → Collected m names
  unfolding keys filter_map
  collect m [] h = record { entries = []; named = refl; paired = refl; defined = refl }
  collect m (n ∷ names) ((t, e), h) =
      let rest = collect m names h in
      record {
        entries = (n, t) ∷ rest.entries;
        named = ap (◌∷◌ n) rest.named;
        paired = filter_map-cons-some _ n names (rw e) ∙ ap (◌∷◌ (n, t)) rest.paired;
        defined = filter_map-cons-some _ n names (rw e) ∙ ap (◌∷◌ t.definition) rest.defined;
      }

  Finds-Held : (m es : List (Text × Tool W)) → Finds m es → All (Held m) (keys es)
  unfolding keys
  Finds-Held m [] f = tt
  Finds-Held m ((k, t) ∷ es) (e, f) = ((t, e), Finds-Held m es f)

  Finds-paired :
      (m es : List (Text × Tool W))
      → Finds m es
      → filter_map (λ name. Option.map (λ t. (name, t)) (lookup name m)) (keys es) ≡ es
  unfolding keys filter_map
  Finds-paired m [] f = refl
  Finds-paired m ((k, t) ∷ es) (e, f) =
      filter_map-cons-some _ k (keys es) (rw e) ∙ ap (◌∷◌ (k, t)) (Finds-paired m es f)

  -- Where each tool has one name, the model is offered the definitions of all the tools, each once and
  -- no other, in the ascending order of the tools' names.
  pub tool_definitions-perm :
      (l : Loop W)
      → Unique l.tools
      → (es : List (Text × Tool W)) × (tool_definitions l ≡ map (λ e. e.1.definition) es)
        × Perm es l.tools
        × IsSorted (keys es)
  unfolding tool_definitions
  tool_definitions-perm l u =
      let found = Finds-self l.tools u in
      let names = sort_strings (keys l.tools) in
      let c =
        collect l.tools names
          (sort_strings-All (Held l.tools) (keys l.tools) (Finds-Held l.tools l.tools found)) in
      let paired =
        Perm.filter_map (λ name. Option.map (λ t. (name, t)) (lookup name l.tools))
          (sort_strings-perm (keys l.tools)) in
      (
        c.entries,
        c.defined,
        subst₂ Perm c.paired (Finds-paired l.tools l.tools found) paired,
        subst IsSorted (sym c.named) (sort_strings-IsSorted (keys l.tools)),
      )
