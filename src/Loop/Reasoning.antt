-- ===== src/Loop/Reasoning.antt =====
-- agentloop/loop.go: the OnEvent callback of one model step, and the end of a summary that the model
-- left open.
use dire_agent.Prelude.{ℕ, Bool, true, false, ◌&&◌, not, List, [], ◌∷◌, ◌++◌, if◌then◌else◌}
use dire_agent.Prelude.Text.{Text, is_blank}
use dire_agent.Agent.{ModelEvent, text_delta, reasoning_delta, reasoning_done, item_done}
use dire_agent.Loop.Event.{Event, message_update, reasoning_start, reasoning_update, reasoning_end}

-- The variables that the callback closes over.
pub record Reasoning : Type 0 where
  pub text : Text
  pub started : Bool
  pub ended : Bool

abbrev pub no_reasoning : Reasoning
no_reasoning = record { text = []; started = false; ended = false }

-- `if !reasoningStarted { … }`.
start_once : ℕ → Text → Bool → List Event
start_once n id true = []
start_once n id false = reasoning_start n id ∷ []

unfoldable pub on_event : ℕ → Text → Text → Reasoning → ModelEvent → List Event × Reasoning
unfolding start_once
on_event n message_id reasoning_id r (text_delta d) = (message_update n message_id d ∷ [], r)
on_event n message_id reasoning_id r (reasoning_delta d) = (
  start_once n reasoning_id r.started ++ reasoning_update n reasoning_id d ∷ [],
  record r { text = r.text ++ d; started = true },
)
on_event n message_id reasoning_id r (reasoning_done t) =
    let full = if not (is_blank t) then t else r.text in
    if not (is_blank full)
    then (
      start_once n reasoning_id r.started ++ reasoning_end n reasoning_id full ∷ [],
      record { text = full; started = true; ended = true },
    )
    else ([], record r { text = full })
on_event n message_id reasoning_id r (item_done i) = ([], r)

unfoldable pub relay : ℕ → Text → Text → Reasoning → List ModelEvent → List Event × Reasoning
relay n message_id reasoning_id r [] = ([], r)
relay n message_id reasoning_id r (e ∷ es) =
    let here = on_event n message_id reasoning_id r e in
    let rest = relay n message_id reasoning_id here.1 es in (here.0 ++ rest.0, rest.1)

-- After a step that succeeded.
unfoldable pub close_reasoning : ℕ → Text → Reasoning → List Event
close_reasoning n reasoning_id r =
    if r.started && not r.ended && not (is_blank r.text)
    then reasoning_end n reasoning_id r.text ∷ []
    else []
