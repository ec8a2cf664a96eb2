-- ===== src/Runs/Race.antt =====
-- A prompt between the sections of a settling run: `takeFollowUpOrSettle` gives up the conversation,
-- and `finishing` is set in a later section.
use dire_agent.Prelude.{
  Bool, ℕ, suc, ◌<◌, ◌≡◌, refl, true, false, none, some, [], ◌∷◌, arith, ◌==◌, if◌then◌else◌,
}
use dire_agent.Prelude.Text.{is_blank, join}
use dire_agent.Team.Types.{idle, running}
use dire_agent.Runs.State.{
  Runtime, Prompt, started, finished, cancelled, prompt_with_attachments, take_queue,
  take_follow_up_or_settle, finish, abort,
}
use dire_agent.Runs.Steps.{
  looping, leaving, releasing, System, prompts, continues, finishes, stage_of, perform, perform_all,
}

-- A prompt that nothing refuses.
pub record Startable (p : Prompt) : Type 0 where
  pub text : is_blank p.message ≡ false
  pub decoded : p.decode_error ≡ none
  pub opened : p.runtime_error ≡ none
  pub persisted : p.persist_error ≡ none

-- One run is in its loop, and no follow-up is waiting.
pub record AboutToSettle (s : System) (id : ℕ) : Type 0 where
  pub alone : s.live ≡ (id, looping) ∷ []
  pub open_to_prompts : s.runtime.finishing ≡ false
  pub drained : s.runtime.follow_ups ≡ []
  pub older : id < s.fresh

settle_lem :
    (s : System) (id : ℕ)
    → AboutToSettle s id
    → perform s (continues id) ≡ record s {
      runtime = record (s.runtime) { busy = false; cancel = none; status = idle };
      live = (id, leaving finished) ∷ [];
    }
unfolding perform take_follow_up_or_settle take_queue join
settle_lem s id h = rw (h.alone, h.drained) (ground arith)

launch_lem :
    (r : Runtime) (p : Prompt) (n : ℕ)
    → Startable p
    → r.busy ≡ false
    → r.finishing ≡ false
    → prompt_with_attachments r p n
      ≡ (record r { busy = true; status = running; cancel = some n }, started)
unfolding prompt_with_attachments
launch_lem r p n ok b f = ground (arith, ok.text, ok.decoded, ok.opened, ok.persisted)

finish_behind_lem :
    (r : Runtime) (new old : ℕ) (aborted : Bool)
    → old < new
    → perform
        (record {
          runtime = r;
          live = (new, looping) ∷ (old, leaving finished) ∷ [];
          fresh = suc new;
        })
        (finishes old aborted)
      ≡ record {
        runtime = finish r (if aborted then cancelled else finished);
        live = (new, looping) ∷ (old, releasing) ∷ [];
        fresh = suc new;
      }
unfolding perform
finish_behind_lem r new old aborted lt = ground arith

if_refl {ℓ} : (n : ℕ) {A : Type ℓ} (a b : A) → (if n == n then a else b) ≡ a
if_refl n a b = ground arith

-- When one run is about to settle and a prompt that nothing refuses comes between
-- `takeFollowUpOrSettle` and the section that sets `finishing`, then behind that section the run of the
-- prompt is still in its loop, though the conversation says it is not running and has no run to cancel.
pub settle_race-uncancellable :
    (s : System) (id : ℕ) (p : Prompt) (aborted : Bool)
    → AboutToSettle s id
    → Startable p
    → let t = perform_all s (continues id ∷ prompts p ∷ finishes id aborted ∷ []) in
      (stage_of s.fresh t.live ≡ some looping) × (t.runtime.busy ≡ false) × (abort t.runtime ≡ none)
unfolding perform_all abort finish
settle_race-uncancellable s id p aborted h ok =
    let opened : Runtime = record (s.runtime) { busy = false; cancel = none; status = idle } in
    let resumed : Runtime = record opened {
      busy = true;
      status = running;
      cancel = some s.fresh;
    } in
    let settled : perform s (continues id)
        ≡ record s { runtime = opened; live = (id, leaving finished) ∷ [] } =
      settle_lem s id h in
    let begun : prompt_with_attachments opened p s.fresh ≡ (resumed, started) =
      launch_lem opened p s.fresh ok refl h.open_to_prompts in
    let ended = finish_behind_lem resumed s.fresh id aborted h.older in
    rw (settled, begun, ended) (if_refl s.fresh _ _, refl, refl)
