-- ===== src/Gateway/Budget.antt =====
-- packages/gateway-model/src/meter.ts and budget.ts: the running totals and the spend ceiling.
-- `LanguageModelUsage` is the SDK's report; every field of it may be missing. `serverWebSearches`
-- reads a raw provider payload and is not modelled: its count is an argument.
pub mod Totals
pub mod Ceiling
pub mod Tests
use open_source_harness.Common.{
  ℕ, ◌-◌, ◌≡◌, Bool, true, false, Option, none, some, List, [], ◌∷◌, if◌then◌else◌,
}
use open_source_harness.Protocol.Cost.{
  Amounts, Usage, CostBuckets, ModelRates, zero_cost, add_cost, price_usage,
}

pub record InputTokenDetails : Type 0 where
  pub no_cache_tokens : Option ℕ
  pub cache_read_tokens : Option ℕ
  pub cache_write_tokens : Option ℕ

pub record LanguageModelUsage : Type 0 where
  pub input_tokens : Option ℕ
  pub input_token_details : Option InputTokenDetails
  pub output_tokens : Option ℕ
  pub reasoning_tokens : Option ℕ

-- `value ?? fallback`
abbrev pub or_else : Option ℕ → ℕ → ℕ
or_else none fallback = fallback
or_else (some n) fallback = n

abbrev pub field {ℓ} : {A : Type ℓ} → Option A → (A → Option ℕ) → Option ℕ
field none f = none
field (some a) f = f a

unfoldable pub usage_to_buckets : Option LanguageModelUsage → Usage
usage_to_buckets usage =
    let input = or_else (field usage (λ u. u.input_tokens)) 0 in
    let detail : (InputTokenDetails → Option ℕ) → Option ℕ =
      λ f. field usage (λ u. field u.input_token_details f) in
    let cache_read = or_else (detail (λ d. d.cache_read_tokens)) 0 in
    let cache_write = or_else (detail (λ d. d.cache_write_tokens)) 0 in
    record {
      uncached_input_tokens =
          or_else (detail (λ d. d.no_cache_tokens)) (input - cache_read - cache_write);
      cache_write_tokens = cache_write;
      cache_read_tokens = cache_read;
      output_tokens = or_else (field usage (λ u. u.output_tokens)) 0;
      reasoning_tokens = or_else (field usage (λ u. u.reasoning_tokens)) 0;
      web_searches = 0;
    }

module _ (amounts : Amounts) where
  open amounts use {Amount, zero_amount, add, leb, div, rest_of, from_count}

  unfoldable pub price_usage_report :
      Option LanguageModelUsage → ModelRates amounts → ℕ → CostBuckets amounts
  unfolding usage_to_buckets
  price_usage_report usage rates web_searches =
      let buckets = usage_to_buckets usage in
      price_usage amounts (record buckets { web_searches = web_searches }) rates

  pub record Meter : Type 0 where
    pub run : CostBuckets amounts
    pub session : CostBuckets amounts

  abbrev pub new_meter : Meter
  new_meter = record { run = zero_cost amounts; session = zero_cost amounts }

  unfoldable pub record_cost : Meter → CostBuckets amounts → Meter
  record_cost meter cost = record {
    run = add_cost amounts meter.run cost;
    session = add_cost amounts meter.session cost;
  }

  unfoldable pub start_run : Meter → Meter
  start_run meter = record meter { run = zero_cost amounts }

  pub record BudgetLimits : Type 0 where
    pub per_run_usd : Amount
    pub per_session_usd : Amount

  -- the scope of `BudgetExceededError`, with what was spent and the limit
  pub data BudgetExceeded : Type 0 where
    run_exceeded : Amount → Amount → BudgetExceeded
    session_exceeded : Amount → Amount → BudgetExceeded

  module _ (limits : BudgetLimits) where
    open limits use {per_run_usd, per_session_usd}

    -- The error that it throws, or `none` where it returns.
    unfoldable pub assert_can_proceed : Meter → Option BudgetExceeded
    assert_can_proceed meter =
        if leb per_run_usd meter.run.usd
        then some (run_exceeded meter.run.usd per_run_usd)
        else if leb per_session_usd meter.session.usd
        then some (session_exceeded meter.session.usd per_session_usd)
        else none

    unfoldable pub is_tripped : Meter → Bool
    unfolding assert_can_proceed
    is_tripped meter = elim (assert_can_proceed meter) [ none ↦ false | some e ↦ true ]

    pub record Remaining : Type 0 where
      pub run_usd : Amount
      pub session_usd : Amount

    unfoldable pub remaining : Meter → Remaining
    remaining meter = record {
      run_usd = rest_of per_run_usd meter.run.usd;
      session_usd = rest_of per_session_usd meter.session.usd;
    }

    abbrev pub at_least : Amount → Amount → Amount
    at_least a b = if leb a b then b else a

    abbrev pub at_most : Amount → Amount → Amount
    at_most a b = if leb a b then a else b

    unfoldable pub utilisation : Meter → Amount
    utilisation meter =
        at_most (from_count 1)
          (at_least (div meter.run.usd per_run_usd) (div meter.session.usd per_session_usd))

  -- What changes the totals, in the order in which it happens.
  pub data Charge : Type 0 where
    starts_run : Charge
    records : CostBuckets amounts → Charge

  unfoldable pub charge : Meter → Charge → Meter
  unfolding record_cost start_run
  charge meter starts_run = start_run meter
  charge meter (records cost) = record_cost meter cost

  unfoldable pub charges : Meter → List Charge → Meter
  unfolding charge
  charges meter [] = meter
  charges meter (c ∷ cs) = charges (charge meter c) cs
