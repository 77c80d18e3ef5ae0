-- ===== src/Protocol/Cost.antt =====
-- packages/protocol/src/cost.ts: the cost buckets.
-- Amounts of money and rates are JavaScript numbers. They and their arithmetic are a parameter; the
-- laws are those of non-negative numbers under rounding, and addition is not taken to be associative.
use open_source_harness.Common.{ℕ, ◌+◌, ◌≡◌, ◌↔◌, Bool, true, false}

pub record Amounts : Type 1 where
  pub Amount : Type 0
  pub zero_amount : Amount
  pub add : Amount → Amount → Amount
  pub mul : Amount → Amount → Amount
  pub div : Amount → Amount → Amount
  pub from_count : ℕ → Amount
  -- the literal n / 10^k
  pub literal : ℕ → ℕ → Amount
  -- `Math.max(0, a - b)`, and `a <= b`
  pub rest_of : Amount → Amount → Amount
  pub leb : Amount → Amount → Bool
  pub leb_refl : (a : Amount) → leb a a ≡ true
  pub leb_trans : (a b c : Amount) → leb a b ≡ true → leb b c ≡ true → leb a c ≡ true
  pub leb_total : (a b : Amount) → leb a b ≡ false → leb b a ≡ true
  pub zero_least : (a : Amount) → leb zero_amount a ≡ true
  pub add_grows : (a b : Amount) → leb a (add a b) ≡ true
  pub add_mono : (a b c : Amount) → leb a b ≡ true → leb (add a c) (add b c) ≡ true
  pub rest_of_zero_iff : (a b : Amount) → (rest_of a b ≡ zero_amount) ↔ (leb a b ≡ true)

-- `Omit<CostBuckets, 'usd'>`
pub record Usage : Type 0 where
  pub uncached_input_tokens : ℕ
  pub cache_write_tokens : ℕ
  pub cache_read_tokens : ℕ
  pub output_tokens : ℕ
  pub reasoning_tokens : ℕ
  pub web_searches : ℕ

module _ (amounts : Amounts) where
  open amounts use {Amount, zero_amount, add, mul, div, from_count}

  pub record CostBuckets : Type 0 where
    pub usage : Usage
    pub usd : Amount

  unfoldable pub zero_cost : CostBuckets
  zero_cost = record {
    usage = record {
      uncached_input_tokens = 0;
      cache_write_tokens = 0;
      cache_read_tokens = 0;
      output_tokens = 0;
      reasoning_tokens = 0;
      web_searches = 0;
    };
    usd = zero_amount;
  }

  unfoldable pub add_cost : CostBuckets → CostBuckets → CostBuckets
  add_cost a b = record {
    usage = record {
      uncached_input_tokens = a.usage.uncached_input_tokens + b.usage.uncached_input_tokens;
      cache_write_tokens = a.usage.cache_write_tokens + b.usage.cache_write_tokens;
      cache_read_tokens = a.usage.cache_read_tokens + b.usage.cache_read_tokens;
      output_tokens = a.usage.output_tokens + b.usage.output_tokens;
      reasoning_tokens = a.usage.reasoning_tokens + b.usage.reasoning_tokens;
      web_searches = a.usage.web_searches + b.usage.web_searches;
    };
    usd = add a.usd b.usd;
  }

  pub record ModelRates : Type 0 where
    pub input_per_mtok : Amount
    pub output_per_mtok : Amount
    pub cache_write_multiplier : Amount
    pub cache_read_multiplier : Amount
    pub web_search_per_call : Amount

  unfoldable pub price_usage : Usage → ModelRates → CostBuckets
  price_usage usage rates =
      let per_input_token = div rates.input_per_mtok (from_count 1000000) in
      let per_output_token = div rates.output_per_mtok (from_count 1000000) in
      let uncached = mul (from_count usage.uncached_input_tokens) per_input_token in
      let written =
        mul (mul (from_count usage.cache_write_tokens) per_input_token)
          rates.cache_write_multiplier in
      let read_back =
        mul (mul (from_count usage.cache_read_tokens) per_input_token)
          rates.cache_read_multiplier in
      let output = mul (from_count usage.output_tokens) per_output_token in
      let searches = mul (from_count usage.web_searches) rates.web_search_per_call in
      record {
        usage = usage;
        usd = add (add (add (add uncached written) read_back) output) searches;
      }
