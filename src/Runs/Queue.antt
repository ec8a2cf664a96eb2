-- ===== src/Runs/Queue.antt =====
-- daemon/manager_runs.go: the queues of a conversation, and settling.
use dire_agent.Prelude.{
  ℕ, ◌≡◌, ◌≢◌, ◌↔◌, refl, sym, false, ◌&&◌, ◌||◌, Bool-cases, none, List, [], ◌∷◌, ◌++◌, arith, All,
  All-append, inl, inr, ◌==◌,
}
use mathlib.Core.List.{append-nil}
use mathlib.Core.Bool.{false≢true}
use dire_agent.Prelude.Text.{Text, codes, text_eq, is_blank, trim_space, join}
use dire_agent.Team.Types.{idle}
use dire_agent.Runs.State.{
  Runtime, Prompt, take_queue, enqueue, launch, prompt_with_attachments, settle_if, take_steering,
  take_follow_up_or_settle, clear_queues, Ending, finish, release,
}

-- Taking from a queue splits it: what is taken, followed by what is left, is the queue, in every mode.
pub take_queue-append :
    (queue : List Text) (mode : Text)
    → (take_queue queue mode).0 ++ (take_queue queue mode).1 ≡ queue
unfolding take_queue
take_queue-append [] mode = refl
take_queue-append (m ∷ ms) mode = ground (arith, append-nil ms)

-- Messages that are queued are not blank, and a run is cancellable exactly while it runs.
pub record IsSound (r : Runtime) : Type 0 where
  pub steering_text : All (λ m. is_blank m ≡ false) r.steering
  pub follow_text : All (λ m. is_blank m ≡ false) r.follow_ups
  pub cancellable : (r.busy ≡ false) ↔ (r.cancel ≡ none)

join-ne-nil :
    (sep : Text) (ms : List Text) → ms ≢ [] → All (λ m. is_blank m ≡ false) ms → join sep ms ≢ []
unfolding join is_blank trim_space
join-ne-nil sep [] ne h e = ne refl
join-ne-nil sep ([] ∷ []) ne (h, hs) e = false≢true (sym h)
join-ne-nil sep ((c ∷ m) ∷ []) ne h e = cc
join-ne-nil sep ([] ∷ n ∷ ms) ne (h, hs) e = false≢true (sym h)
join-ne-nil sep ((c ∷ m) ∷ n ∷ ms) ne h e = cc

-- A part of a sound queue is sound.
take_queue-All :
    (P : Text → Type 0) (queue : List Text) (mode : Text)
    → All P queue
    → All P (take_queue queue mode).0 × All P (take_queue queue mode).1
unfolding take_queue
take_queue-All P [] mode h = (tt, tt)
take_queue-All P (m ∷ ms) mode (h, hs) = elim (Bool-cases (text_eq mode (codes "all"))) [
  | inl e ↦ rw e ((h, hs), tt)
  | inr e ↦ rw e ((h, tt), hs)
]

-- How the end of a round of `run` goes, by the follow-ups that are waiting.
abbrev pub Settles : List Text → Runtime → Runtime × Text → Type 0
Settles [] r (r', text) = (r'.busy ≡ false) × (r'.cancel ≡ none) × (r'.status ≡ idle) × (text ≡ [])
Settles (m ∷ ms) r (r', text) =
    (r'.busy ≡ r.busy) × (r'.cancel ≡ r.cancel) × (r'.status ≡ r.status) × (text ≢ [])

settle-Settles :
    (r : Runtime) (queue : List Text)
    → All (λ m. is_blank m ≡ false) queue
    → Settles queue r (take_follow_up_or_settle (record r { follow_ups = queue }))
unfolding take_follow_up_or_settle take_queue
settle-Settles r [] h = unfold join in (refl, refl, refl, refl)
settle-Settles r (m ∷ ms) (h, hs) = elim (Bool-cases (text_eq r.follow_up_mode (codes "all"))) [
  | inl e ↦ rw e (refl, refl, refl, join-ne-nil (codes "\n\n") (m ∷ ms) (λ c. cc) (h, hs))
  | inr e ↦ rw e (refl, refl, refl, join-ne-nil (codes "\n\n") (m ∷ []) (λ c. cc) (h, tt))
]

-- A conversation settles exactly when no follow-up is waiting: with one in the queue, a sound
-- conversation stays busy and the loop is given a text that is not empty; with none it is idle, no run
-- can be cancelled any more, and the loop is given the empty text that ends it.
pub take_follow_up_or_settle-Settles :
    (r : Runtime) → IsSound r → Settles r.follow_ups r (take_follow_up_or_settle r)
take_follow_up_or_settle-Settles r s = settle-Settles r r.follow_ups s.follow_text

abbrev Nonblank : Text → Type 0
Nonblank m = is_blank m ≡ false

push-All : (m : Text) (ms : List Text) → Nonblank m → All Nonblank ms → All Nonblank (ms ++ m ∷ [])
push-All m ms h hs = All-append Nonblank ms (m ∷ []) hs (h, tt)

enqueue-IsSound :
    (r : Runtime) (p : Prompt)
    → (is_blank p.message && (p.attachments == 0)) ≡ false
    → IsSound r
    → IsSound (enqueue r p).0
unfolding enqueue
enqueue-IsSound r p h s = elim (Bool-cases (p.attachments == 0)) [
  | inr e ↦ rw e s
  | inl e ↦
      let text : Nonblank p.message = ground arith in
      rw e (elim (Bool-cases (text_eq p.behavior (codes "steer"))) [
        | inl e₁ ↦ rw e₁ (record {
          steering_text = push-All p.message r.steering text s.steering_text;
          follow_text = s.follow_text;
          cancellable = s.cancellable;
        })
        | inr e₁ ↦
            rw e₁
              (elim (Bool-cases
                (text_eq p.behavior (codes "followUp") || text_eq p.behavior (codes "follow_up"))) [
                  | inl e₂ ↦ rw e₂ (record {
                    steering_text = s.steering_text;
                    follow_text = push-All p.message r.follow_ups text s.follow_text;
                    cancellable = s.cancellable;
                  })
                  | inr e₂ ↦ rw e₂ s
                ])
      ])
]

launch-IsSound : (r : Runtime) (p : Prompt) (id : ℕ) → IsSound r → IsSound (launch r p id).0
unfolding launch
launch-IsSound r p id s = ground arith

pub prompt_with_attachments-IsSound :
    (r : Runtime) (p : Prompt) (id : ℕ) → IsSound r → IsSound (prompt_with_attachments r p id).0
unfolding prompt_with_attachments
prompt_with_attachments-IsSound r p id s =
    ground (arith, enqueue-IsSound r p, launch-IsSound r p id)

pub take_steering-IsSound : (r : Runtime) → IsSound r → IsSound (take_steering r).0
unfolding take_steering
take_steering-IsSound r s = record {
  steering_text = (take_queue-All Nonblank r.steering r.steering_mode s.steering_text).1;
  follow_text = s.follow_text;
  cancellable = s.cancellable;
}

settle_if-IsSound : (taken : List Text) (r : Runtime) → IsSound r → IsSound (settle_if taken r)
settle_if-IsSound [] r s = ground arith
settle_if-IsSound (m ∷ ms) r s = s

pub take_follow_up_or_settle-IsSound :
    (r : Runtime) → IsSound r → IsSound (take_follow_up_or_settle r).0
unfolding take_follow_up_or_settle
take_follow_up_or_settle-IsSound r s =
    settle_if-IsSound (take_queue r.follow_ups r.follow_up_mode).0 _ (record {
      steering_text = s.steering_text;
      follow_text = (take_queue-All Nonblank r.follow_ups r.follow_up_mode s.follow_text).1;
      cancellable = s.cancellable;
    })

pub clear_queues-IsSound : (r : Runtime) → IsSound r → IsSound (clear_queues r)
unfolding clear_queues
clear_queues-IsSound r s = record {
  steering_text = tt;
  follow_text = tt;
  cancellable = s.cancellable;
}

pub finish-IsSound : (r : Runtime) (e : Ending) → IsSound r → IsSound (finish r e)
unfolding finish
finish-IsSound r e s = record {
  steering_text = s.steering_text;
  follow_text = s.follow_text;
  cancellable = (λ _. refl, λ _. refl);
}

pub release-IsSound : (r : Runtime) → IsSound r → IsSound (release r)
unfolding release
release-IsSound r s = record {
  steering_text = s.steering_text;
  follow_text = s.follow_text;
  cancellable = s.cancellable;
}
