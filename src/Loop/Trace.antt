-- ===== src/Loop/Trace.antt =====
-- Logs read by an automaton: what the events of a part do to its state, and the rules for a part
-- followed by another and for a part that emits nothing.
use dire_agent.Prelude.{◌≡◌, refl, Option, none, some, List, [], ◌∷◌, ◌++◌, arith}
use dire_agent.Prelude.Results.{Result, ok, err}
use dire_agent.Loop.Event.{Event}
use dire_agent.Loop.Outcome.{Failure, Outcome, M, continue, resume}

abbrev accept_rest : {S : Type 0} → Option S → (S → Option S) → Option S
accept_rest none f = none
accept_rest (some q) f = f q

accepts_rest :
    {S : Type 0} (q : S) (t : Option S) (o : Option S) (f g : S → Option S)
    → ((r : S) → f r ≡ some q → g r ≡ t)
    → accept_rest o f ≡ some q
    → accept_rest o g ≡ t
accepts_rest q t none f g h e = cc
accepts_rest q t (some r) f g h e = h r e

abbrev pub Post : {A S : Type 0} → (A → S → Type 0) → Result Failure A → S → Type 0
Post Q (ok a) q = Q a q
Post Q (err e) q = Unit

-- A part that emits nothing.
abbrev pub Stays : {W A : Type 0} → Outcome W A → Type 0
Stays o = o.log ≡ []

module _ {S : Type 0} (next : S → Event → Option S) where
  -- The phase that a list of events leads to, if their order is right.
  abbrev pub accepts : S → List Event → Option S
  accepts p [] = some p
  accepts p (e ∷ es) = accept_rest (next p e) (λ q. accepts q es)

  pub accepts-append :
      (p q : S) (xs ys : List Event) → accepts p xs ≡ some q → accepts p (xs ++ ys) ≡ accepts q ys
  accepts-append p q [] ys h = ground arith
  accepts-append p q (x ∷ xs) ys h =
      accepts_rest q (accepts q ys) (next p x) _ _ (λ r. accepts-append r q xs ys) h

  module _ {W : Type 0} where
    -- The events are in order, and a part that succeeds leaves its value and phase as `Q` says.
    pub record Follows {A : Type 0} (p : S) (Q : A → S → Type 0) (o : Outcome W A) : Type 0 where
      pub reached : S
      pub in_order : accepts p o.log ≡ some reached
      pub post : Post Q o.value reached

    pub Follows-resume :
        {A : Type 0} {p : S} (q : S) {Q : A → S → Type 0} (log : List Event) {o : Outcome W A}
        → accepts p log ≡ some q
        → Follows q Q o
        → Follows p Q (resume log o)
    Follows-resume {p = p} q log {o} h f = record {
      reached = f.reached;
      in_order = rw (accepts-append p q log o.log h) f.in_order;
      post = f.post;
    }

    pub Follows-continue :
        {A B : Type 0} {p : S} {Q : A → S → Type 0} {R : B → S → Type 0} (w : W) (log : List Event)
        (v : Result Failure A) (f : A → M W B) (q : S)
        → accepts p log ≡ some q
        → Post Q v q
        → ((a : A) (w' : W) (r : S) → Q a r → Follows r R (f a w'))
        → Follows p R (continue w log v f)
    Follows-continue w log (ok a) f q h post rest = Follows-resume q log h (rest a w q post)
    Follows-continue w log (err e) f q h post rest = record { reached = q; in_order = h; post = tt }

    -- A part followed by another.
    pub Follows-bind :
        {A B : Type 0} {p : S} {Q : A → S → Type 0} {R : B → S → Type 0} (o : Outcome W A)
        (f : A → M W B)
        → Follows p Q o
        → ((a : A) (w' : W) (r : S) → Q a r → Follows r R (f a w'))
        → Follows p R (continue o.world o.log o.value f)
    Follows-bind o f h rest =
        Follows-continue o.world o.log o.value f h.reached h.in_order h.post rest

    pub Stays-Follows :
        {A : Type 0} (p : S) (o : Outcome W A) → Stays o → Follows p (λ a q. q ≡ p) o
    Stays-Follows {A} p o h = record { reached = p; in_order = rw h; post = kept o.value }
      where
        kept : (v : Result Failure A) → Post (λ a q. q ≡ p) v p
        kept (ok a) = refl
        kept (err e) = tt
