-- ===== src/Runs/Alone.antt =====
-- daemon/manager_runs.go: how many runs a conversation has at a time.
use dire_agent.Prelude.{
  ℕ, ◌≡◌, refl, sym, ◌∙◌, true, false, Bool-cases, some, List, [], ◌∷◌, arith, inl, inr, ◌==◌,
  if◌then◌else◌,
}
use dire_agent.Prelude.Text.{Text, codes, is_empty, join}
use dire_agent.Runs.State.{
  Runtime, Prompt, Reply, started, queued, refused, finished, prompt_with_attachments, take_queue,
  take_steering, take_follow_up_or_settle, clear_queues, finish, release, enqueue, launch,
  settle_if,
}
use dire_agent.Runs.Steps.{
  Stage, looping, leaving, releasing, System, Action, prompts, steers, continues, fails,
  loses_state, finishes, releases, set_stage, drop_run, perform, perform_all, start_run,
  continue_run,
}
use mathlib.Core.Bool.{false≢true}

-- The runs that have not returned, and what the runtime says of them.
abbrev pub Alone : Runtime → List (ℕ × Stage) → Type 0
Alone r [] = (r.busy ≡ false) × (r.finishing ≡ false)
Alone r ((id, looping) ∷ []) = (r.busy ≡ true) × (r.finishing ≡ false) × (r.cancel ≡ some id)
Alone r ((id, leaving e) ∷ []) = r.finishing ≡ false
Alone r ((id, releasing) ∷ []) = (r.busy ≡ false) × (r.finishing ≡ true)
Alone r (x ∷ y ∷ live) = ⊥

abbrev NotLeaving : List (ℕ × Stage) → Type 0
NotLeaving [] = Unit
NotLeaving ((id, leaving e) ∷ live) = ⊥
NotLeaving ((id, looping) ∷ live) = NotLeaving live
NotLeaving ((id, releasing) ∷ live) = NotLeaving live

abbrev Waits : System → Action → Type 0
Waits s (prompts p) = NotLeaving s.live
Waits s a = Unit

-- No prompt comes while a run is between its loop and the section that sets `finishing`.
abbrev pub Calm : System → List Action → Type 0
Calm s [] = Unit
Calm s (a ∷ rest) = Waits s a × Calm (perform s a) rest

-- What a prompt does to the fields that say whether the conversation runs.
Prompted : Runtime → ℕ → Runtime × Reply → Type 0
Prompted r id (r', started) =
    (r.busy ≡ false)
    × (r.finishing ≡ false)
    × (r'.busy ≡ true)
    × (r'.finishing ≡ false)
    × (r'.cancel ≡ some id)
Prompted r id (r', queued a b) =
    (r'.busy ≡ r.busy) × (r'.finishing ≡ r.finishing) × (r'.cancel ≡ r.cancel)
Prompted r id (r', refused e) =
    (r'.busy ≡ r.busy) × (r'.finishing ≡ r.finishing) × (r'.cancel ≡ r.cancel)

prompted_lem : (r : Runtime) (p : Prompt) (id : ℕ) → Prompted r id (prompt_with_attachments r p id)
unfolding prompt_with_attachments Prompted enqueue launch
prompted_lem r p id = ground arith

prompt_none :
    (r : Runtime) (n : ℕ) (x : Runtime × Reply)
    → let t = start_run (record { runtime = r; live = []; fresh = n }) x in
      Prompted r n x → Alone r [] → Alone t.runtime t.live
unfolding start_run Prompted
prompt_none r n (r', started) h al = (h.2, h.3, h.4)
prompt_none r n (r', queued a b) h al = (h.0 ∙ al.0, h.1 ∙ al.1)
prompt_none r n (r', refused e) h al = (h.0 ∙ al.0, h.1 ∙ al.1)

prompt_looping :
    (r : Runtime) (id n : ℕ) (x : Runtime × Reply)
    → let t = start_run (record { runtime = r; live = (id, looping) ∷ []; fresh = n }) x in
      Prompted r n x → Alone r ((id, looping) ∷ []) → Alone t.runtime t.live
unfolding start_run Prompted
prompt_looping r id n (r', started) h al = absurd (false≢true (sym h.0 ∙ al.0))
prompt_looping r id n (r', queued a b) h al = (h.0 ∙ al.0, h.1 ∙ al.1, h.2 ∙ al.2)
prompt_looping r id n (r', refused e) h al = (h.0 ∙ al.0, h.1 ∙ al.1, h.2 ∙ al.2)

prompt_releasing :
    (r : Runtime) (id n : ℕ) (x : Runtime × Reply)
    → let t = start_run (record { runtime = r; live = (id, releasing) ∷ []; fresh = n }) x in
      Prompted r n x → Alone r ((id, releasing) ∷ []) → Alone t.runtime t.live
unfolding start_run Prompted
prompt_releasing r id n (r', started) h al = absurd (false≢true (sym h.1 ∙ al.1))
prompt_releasing r id n (r', queued a b) h al = (h.0 ∙ al.0, h.1 ∙ al.1)
prompt_releasing r id n (r', refused e) h al = (h.0 ∙ al.0, h.1 ∙ al.1)

continue-Alone :
    (r : Runtime) (id : ℕ) (taken : List Text)
    → Alone r ((id, looping) ∷ [])
    → Alone
        (settle_if taken r)
        ((id, if is_empty (join (codes "\n\n") taken) then leaving finished else looping) ∷ [])
continue-Alone r id [] al = unfold join in al.1
continue-Alone r id (m ∷ ms) al = ground arith

round-Alone :
    (r : Runtime) (j id n : ℕ)
    → let s : System = record { runtime = r; live = (j, looping) ∷ []; fresh = n } in
      let t = continue_run s id (take_follow_up_or_settle r) in
      (j == id) ≡ true → Alone r ((j, looping) ∷ []) → Alone t.runtime t.live
unfolding continue_run set_stage take_follow_up_or_settle
round-Alone r j id n e h =
    let taken = take_queue r.follow_ups r.follow_up_mode in
    rw e (continue-Alone (record r { follow_ups = taken.1 }) j taken.0 h)

alone_lem :
    (r : Runtime) (live : List (ℕ × Stage)) (n : ℕ) (a : Action)
    → let s : System = record { runtime = r; live = live; fresh = n } in
      Waits s a → Alone r live → Alone (perform s a).runtime (perform s a).live
unfolding perform take_steering take_follow_up_or_settle finish release clear_queues set_stage
    drop_run
alone_lem r [] n (prompts p) w h = prompt_none r n _ (prompted_lem r p n) h
alone_lem r [] n (steers id) w h = h
alone_lem r [] n (continues id) w h = h
alone_lem r [] n (fails id e) w h = h
alone_lem r [] n (loses_state id) w h = h
alone_lem r [] n (finishes id b) w h = h
alone_lem r [] n (releases id) w h = h
alone_lem r ((j, t) ∷ x ∷ live) n a w h = absurd h
alone_lem r ((j, looping) ∷ []) n (prompts p) w h = prompt_looping r j n _ (prompted_lem r p n) h
alone_lem r ((j, looping) ∷ []) n (steers id) w h = elim (Bool-cases (j == id)) [
  | inl e₁ ↦ rw e₁ (h)
  | inr e₁ ↦ rw e₁ h
]
alone_lem r ((j, looping) ∷ []) n (continues id) w h = elim (Bool-cases (j == id)) [
  | inl e₁ ↦ rw e₁ (round-Alone r j id n e₁ h)
  | inr e₁ ↦ rw e₁ h
]
alone_lem r ((j, looping) ∷ []) n (fails id e) w h = elim (Bool-cases (j == id)) [
  | inl e₁ ↦ rw e₁ (rw e₁ (h.1))
  | inr e₁ ↦ rw e₁ h
]
alone_lem r ((j, looping) ∷ []) n (loses_state id) w h = elim (Bool-cases (j == id)) [
  | inl e₁ ↦ rw e₁ (rw e₁ (h.1))
  | inr e₁ ↦ rw e₁ h
]
alone_lem r ((j, looping) ∷ []) n (finishes id b) w h = elim (Bool-cases (j == id)) [
  | inl e₁ ↦ rw e₁ (h)
  | inr e₁ ↦ rw e₁ h
]
alone_lem r ((j, looping) ∷ []) n (releases id) w h = elim (Bool-cases (j == id)) [
  | inl e₁ ↦ rw e₁ (h)
  | inr e₁ ↦ rw e₁ h
]
alone_lem r ((j, leaving e) ∷ []) n (prompts p) w h = absurd w
alone_lem r ((j, leaving e) ∷ []) n (steers id) w h = elim (Bool-cases (j == id)) [
  | inl e₁ ↦ rw e₁ (h)
  | inr e₁ ↦ rw e₁ h
]
alone_lem r ((j, leaving e) ∷ []) n (continues id) w h = elim (Bool-cases (j == id)) [
  | inl e₁ ↦ rw e₁ (h)
  | inr e₁ ↦ rw e₁ h
]
alone_lem r ((j, leaving e) ∷ []) n (fails id f) w h = elim (Bool-cases (j == id)) [
  | inl e₁ ↦ rw e₁ (h)
  | inr e₁ ↦ rw e₁ h
]
alone_lem r ((j, leaving e) ∷ []) n (loses_state id) w h = elim (Bool-cases (j == id)) [
  | inl e₁ ↦ rw e₁ (h)
  | inr e₁ ↦ rw e₁ h
]
alone_lem r ((j, leaving e) ∷ []) n (finishes id b) w h = elim (Bool-cases (j == id)) [
  | inl e₁ ↦ rw e₁ (rw e₁ ((refl, refl)))
  | inr e₁ ↦ rw e₁ h
]
alone_lem r ((j, leaving e) ∷ []) n (releases id) w h = elim (Bool-cases (j == id)) [
  | inl e₁ ↦ rw e₁ (h)
  | inr e₁ ↦ rw e₁ h
]
alone_lem r ((j, releasing) ∷ []) n (prompts p) w h =
    prompt_releasing r j n _ (prompted_lem r p n) h
alone_lem r ((j, releasing) ∷ []) n (steers id) w h = elim (Bool-cases (j == id)) [
  | inl e₁ ↦ rw e₁ (h)
  | inr e₁ ↦ rw e₁ h
]
alone_lem r ((j, releasing) ∷ []) n (continues id) w h = elim (Bool-cases (j == id)) [
  | inl e₁ ↦ rw e₁ (h)
  | inr e₁ ↦ rw e₁ h
]
alone_lem r ((j, releasing) ∷ []) n (fails id f) w h = elim (Bool-cases (j == id)) [
  | inl e₁ ↦ rw e₁ (h)
  | inr e₁ ↦ rw e₁ h
]
alone_lem r ((j, releasing) ∷ []) n (loses_state id) w h = elim (Bool-cases (j == id)) [
  | inl e₁ ↦ rw e₁ (h)
  | inr e₁ ↦ rw e₁ h
]
alone_lem r ((j, releasing) ∷ []) n (finishes id b) w h = elim (Bool-cases (j == id)) [
  | inl e₁ ↦ rw e₁ (h)
  | inr e₁ ↦ rw e₁ h
]
alone_lem r ((j, releasing) ∷ []) n (releases id) w h = elim (Bool-cases (j == id)) [
  | inl e₁ ↦ rw e₁ (rw e₁ ((h.0, refl)))
  | inr e₁ ↦ rw e₁ h
]

perform-Alone :
    (s : System) (a : Action)
    → Waits s a
    → Alone s.runtime s.live
    → Alone (perform s a).runtime (perform s a).live
unfolding perform
perform-Alone s a w h = alone_lem s.runtime s.live s.fresh a w h

-- In a conversation with at most one run, actions of any number and order leave at most one run,
-- provided that no prompt comes while a run is between its loop and the section that sets `finishing`.
-- At the end a run in its loop is the one that `Abort` cancels, and the conversation is running; with a
-- run behind the section, or with none, it is not running; and `finishing` is set exactly with a run
-- behind the section.
pub perform_all-Alone :
    (s : System) (actions : List Action)
    → Calm s actions
    → Alone s.runtime s.live
    → Alone (perform_all s actions).runtime (perform_all s actions).live
unfolding perform_all
perform_all-Alone s [] c h = h
perform_all-Alone s (a ∷ rest) (w, c) h =
    perform_all-Alone (perform s a) rest c (perform-Alone s a w h)
