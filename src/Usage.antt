-- ===== src/Usage.antt =====
-- Token accounting: `aggregateUsage` (agentloop/loop.go), `accumulateUsage` and `usagePresent`
-- (daemon/manager_events.go). Sums are int64 sums, which wrap.
use dire_agent.Prelude.{
  ℕ, ◌+◌, ◌%◌, ◌^◌, ◌<◌, ◌≡◌, refl, ◌∙◌, Bool, false, ◌||◌, not, arith, List, [], ◌∷◌, ◌==◌,
  if◌then◌else◌,
}
use dire_agent.Agent.{Usage}

abbrev pub int64_mod : ℕ
int64_mod = 2 ^ 64

abbrev pub add64 : ℕ → ℕ → ℕ
add64 a b = (a + b) % int64_mod

abbrev pub no_usage : Usage
no_usage = record {
  input_tokens = 0;
  output_tokens = 0;
  cache_read_tokens = 0;
  cache_write_tokens = 0;
  total_tokens = 0;
  context_tokens = 0;
  context_window = 0;
}

-- The reported total, or input plus output where the provider reported none.
abbrev or_sum : ℕ → Usage → ℕ
or_sum reported u = if reported == 0 then add64 u.input_tokens u.output_tokens else reported

unfoldable pub aggregate_usage : Usage → Usage → Usage
aggregate_usage total current = record {
  input_tokens = add64 total.input_tokens current.input_tokens;
  output_tokens = add64 total.output_tokens current.output_tokens;
  cache_read_tokens = add64 total.cache_read_tokens current.cache_read_tokens;
  cache_write_tokens = add64 total.cache_write_tokens current.cache_write_tokens;
  total_tokens = add64 total.total_tokens (or_sum current.total_tokens current);
  context_tokens =
      (let context = or_sum current.context_tokens current in
        if not (context == 0) then context else total.context_tokens);
  context_window =
      (if not (current.context_window == 0) then current.context_window else total.context_window);
}

unfoldable pub accumulate_usage : Usage → Usage → Usage
accumulate_usage total current = record {
  input_tokens = add64 total.input_tokens current.input_tokens;
  output_tokens = add64 total.output_tokens current.output_tokens;
  cache_read_tokens = add64 total.cache_read_tokens current.cache_read_tokens;
  cache_write_tokens = add64 total.cache_write_tokens current.cache_write_tokens;
  total_tokens = add64 total.total_tokens (or_sum current.total_tokens current);
  context_tokens =
      (let context = or_sum current.context_tokens current in
        if not (context == 0) then context else total.context_tokens);
  context_window =
      (if not (current.context_window == 0) then current.context_window else total.context_window);
}

unfoldable pub usage_present : Usage → Bool
usage_present u =
    not (u.input_tokens == 0)
    || not (u.output_tokens == 0)
    || not (u.cache_read_tokens == 0)
    || not (u.cache_write_tokens == 0)
    || not (u.total_tokens == 0)
    || not (u.context_tokens == 0)
    || not (u.context_window == 0)

-- The counts are int64 bit patterns.
pub record IsInt64 (u : Usage) : Type 0 where
  pub input : u.input_tokens < int64_mod
  pub output : u.output_tokens < int64_mod
  pub cache_read : u.cache_read_tokens < int64_mod
  pub cache_write : u.cache_write_tokens < int64_mod
  pub total : u.total_tokens < int64_mod
  pub context : u.context_tokens < int64_mod
  pub window : u.context_window < int64_mod

-- An absent report, all of whose counts are zero, changes nothing of a total whose counts are bit
-- patterns of int64, so that skipping it is safe.
pub accumulate_usage-absent :
    (t u : Usage) → IsInt64 t → usage_present u ≡ false → accumulate_usage t u ≡ t
unfolding accumulate_usage usage_present
accumulate_usage-absent t u ht h = ground arith

-- The two packages account alike.
pub accumulate-aggregate : (t u : Usage) → accumulate_usage t u ≡ aggregate_usage t u
unfolding accumulate_usage aggregate_usage
accumulate-aggregate t u = refl

-- The reports of a run, one after the other.
unfoldable pub aggregate_all : Usage → List Usage → Usage
unfolding aggregate_usage
aggregate_all total [] = total
aggregate_all total (u ∷ us) = aggregate_all (aggregate_usage total u) us

abbrev pub sum : (Usage → ℕ) → List Usage → ℕ
sum count [] = 0
sum count (u ∷ us) = count u + sum count us

-- The last count of a list that is not zero, or zero.
abbrev pub last_known : (Usage → ℕ) → List Usage → ℕ
last_known count [] = 0
last_known count (u ∷ us) = let later = last_known count us in if later == 0 then count u else later

-- Counts that may be missing: input plus output then.
abbrev or_both : ℕ → Usage → ℕ
or_both reported u = if reported == 0 then u.input_tokens + u.output_tokens else reported

abbrev pub total_of : Usage → ℕ
total_of u = or_both u.total_tokens u

abbrev pub context_of : Usage → ℕ
context_of u = or_both u.context_tokens u

-- No sum of the reports leaves int64.
pub record Fits (us : List Usage) : Type 0 where
  pub input : sum (λ u. u.input_tokens) us < 2 ^ 63
  pub output : sum (λ u. u.output_tokens) us < 2 ^ 63
  pub cache_read : sum (λ u. u.cache_read_tokens) us < 2 ^ 63
  pub cache_write : sum (λ u. u.cache_write_tokens) us < 2 ^ 63
  pub total : sum total_of us < 2 ^ 63

-- What the reports add up to.
pub record Totals (us : List Usage) (u : Usage) : Type 0 where
  pub input : u.input_tokens ≡ sum (λ v. v.input_tokens) us
  pub output : u.output_tokens ≡ sum (λ v. v.output_tokens) us
  pub cache_read : u.cache_read_tokens ≡ sum (λ v. v.cache_read_tokens) us
  pub cache_write : u.cache_write_tokens ≡ sum (λ v. v.cache_write_tokens) us
  pub total : u.total_tokens ≡ sum total_of us
  pub context : u.context_tokens ≡ last_known context_of us
  pub window : u.context_window ≡ last_known (λ v. v.context_window) us

aggregate_all-sum :
    (field count : Usage → ℕ)
    → ((t u : Usage) → field (aggregate_usage t u) ≡ add64 (field t) (count u))
    → (us : List Usage) (t : Usage) → field t + sum count us < 2 ^ 63
    → field (aggregate_all t us) ≡ field t + sum count us
unfolding aggregate_all
aggregate_all-sum field count step [] t h = omega arith
aggregate_all-sum field count step (u ∷ us) t h =
    let here : field (aggregate_usage t u) ≡ field t + count u = omega (arith, step t u, h) in
    omega (
      arith,
      here,
      h,
      aggregate_all-sum field count step us (aggregate_usage t u) (omega (arith, here, h)),
    )

-- From no usage on.
aggregate_all-exact :
    (field count : Usage → ℕ)
    → ((t u : Usage) → field (aggregate_usage t u) ≡ add64 (field t) (count u))
    → field no_usage ≡ 0
    → (us : List Usage) → sum count us < 2 ^ 63
    → field (aggregate_all no_usage us) ≡ sum count us
aggregate_all-exact field count step start us h =
    omega
      (arith, start, h, aggregate_all-sum field count step us no_usage (omega (arith, start, h)))

aggregate_all-last :
    (field count : Usage → ℕ)
    → ((t u : Usage)
        → field (aggregate_usage t u) ≡ (if not (count u == 0) then count u else field t))
    → (us : List Usage) (t : Usage)
    → field (aggregate_all t us)
      ≡ (if last_known count us == 0 then field t else last_known count us)
unfolding aggregate_all
aggregate_all-last field count step [] t = refl
aggregate_all-last field count step (u ∷ us) t =
    ground (arith, step t u, aggregate_all-last field count step us (aggregate_usage t u))

or_zero : (n : ℕ) → (if n == 0 then 0 else n) ≡ n
or_zero n = ground arith

-- Input plus output does not wrap where the sums do not.
or_sum-both :
    (us : List Usage)
    → sum (λ u. u.input_tokens) us < 2 ^ 63
    → sum (λ u. u.output_tokens) us < 2 ^ 63
    → (sum (λ u. or_sum u.total_tokens u) us ≡ sum total_of us)
      × (last_known (λ u. or_sum u.context_tokens u) us ≡ last_known context_of us)
or_sum-both [] i o = (refl, refl)
or_sum-both (u ∷ us) i o =
    let both : add64 u.input_tokens u.output_tokens ≡ u.input_tokens + u.output_tokens =
      omega (arith, i, o) in
    let (sums, last) = or_sum-both us (omega (arith, i)) (omega (arith, o)) in
    (rw (both, sums) refl, rw (both, last) refl)

-- Where no sum of the reports of a run leaves int64, the aggregated usage has the exact sums of the
-- input, output and cache tokens; as total the sum of the reports' totals, where a missing one is the
-- input plus the output of the report; as context tokens those of the last report that has some, which
-- are its input plus its output where it does not say; and the last context window that was reported.
pub aggregate_all-Totals : (us : List Usage) → Fits us → Totals us (aggregate_all no_usage us)
unfolding aggregate_usage
aggregate_all-Totals us h =
    let (sums, last) = or_sum-both us h.input h.output in
    record {
      input =
          aggregate_all-exact (λ u. u.input_tokens) (λ u. u.input_tokens) (λ t u. refl) refl us
            h.input;
      output =
          aggregate_all-exact (λ u. u.output_tokens) (λ u. u.output_tokens) (λ t u. refl) refl us
            h.output;
      cache_read =
          aggregate_all-exact (λ u. u.cache_read_tokens) (λ u. u.cache_read_tokens) (λ t u. refl)
            refl us h.cache_read;
      cache_write =
          aggregate_all-exact (λ u. u.cache_write_tokens) (λ u. u.cache_write_tokens) (λ t u. refl)
            refl us h.cache_write;
      total =
          aggregate_all-exact (λ u. u.total_tokens) (λ u. or_sum u.total_tokens u) (λ t u. refl)
            refl us (omega (arith, sums, h.total))
          ∙ sums;
      context =
          aggregate_all-last (λ u. u.context_tokens) (λ u. or_sum u.context_tokens u) (λ t u. refl)
            us no_usage
          ∙ (or_zero _ ∙ last);
      window =
          aggregate_all-last (λ u. u.context_window) (λ u. u.context_window) (λ t u. refl) us
            no_usage
          ∙ or_zero _;
    }
