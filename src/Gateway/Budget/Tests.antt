-- ===== src/Gateway/Budget/Tests.antt =====
-- packages/gateway-model/src/budget.ts and meter.ts: a session in whole cents, and instances of the
-- theorems.
use open_source_harness.Common.{
  ℕ, ◌+◌, ◌-◌, ◌*◌, ◌/◌, ◌≡◌, ◌↔◌, refl, true, false, none, some, List, [], ◌∷◌, arith, leb,
}
use open_source_harness.Protocol.Cost.{Amounts, CostBuckets, zero_cost, add_cost}
use open_source_harness.Gateway.Budget.{
  InputTokenDetails, LanguageModelUsage, new_meter, record_cost, start_run, BudgetLimits,
  assert_can_proceed, run_exceeded, session_exceeded, is_tripped, remaining, utilisation, Charge,
  starts_run, records, charges,
}
use open_source_harness.Gateway.Budget.Ceiling.{overshoot_bounded}

pub leb_self : (a : ℕ) → leb a a ≡ true
leb_self a = ground arith

pub leb_chain : (a b c : ℕ) → leb a b ≡ true → leb b c ≡ true → leb a c ≡ true
leb_chain a b c h k = ground arith

pub leb_flip : (a b : ℕ) → leb a b ≡ false → leb b a ≡ true
leb_flip a b h = ground arith

pub leb_zero : (a : ℕ) → leb 0 a ≡ true
leb_zero a = ground arith

pub leb_add : (a b : ℕ) → leb a (a + b) ≡ true
leb_add a b = ground arith

pub leb_add_mono : (a b c : ℕ) → leb a b ≡ true → leb (a + c) (b + c) ≡ true
leb_add_mono a b c h = ground arith

pub sub_zero_iff : (a b : ℕ) → (a - b ≡ 0) ↔ (leb a b ≡ true)
sub_zero_iff a b = ground arith

abbrev pub cents : Amounts
cents = record {
  Amount = ℕ;
  zero_amount = 0;
  add = ◌+◌;
  mul = ◌*◌;
  div = ◌/◌;
  from_count = λ n. n;
  literal = λ n k. n;
  rest_of = ◌-◌;
  leb = leb;
  leb_refl = leb_self;
  leb_trans = leb_chain;
  leb_total = leb_flip;
  zero_least = leb_zero;
  add_grows = leb_add;
  add_mono = leb_add_mono;
  rest_of_zero_iff = sub_zero_iff;
}

abbrev pub cost_of : ℕ → CostBuckets cents
cost_of usd = record {
  usage = record {
    uncached_input_tokens = 10;
    cache_write_tokens = 0;
    cache_read_tokens = 0;
    output_tokens = 5;
    reasoning_tokens = 0;
    web_searches = 0;
  };
  usd = usd;
}

abbrev pub limits : BudgetLimits cents
limits = record { per_run_usd = 5; per_session_usd = 8 }

-- Two runs: the first is stopped by its own limit, the second by the session's.
abbrev history : List (Charge cents)
history =
    starts_run ∷ records (cost_of 3) ∷ records (cost_of 3) ∷ starts_run ∷ records (cost_of 4) ∷ []

sealed : Unit {0}
unfolding charges record_cost start_run add_cost zero_cost is_tripped remaining utilisation
sealed = tt

verdicts :
    (assert_can_proceed cents limits
        (charges cents (new_meter cents) (records (cost_of 3) ∷ records (cost_of 3) ∷ []))
      ≡ some (run_exceeded 6 5))
    × (assert_can_proceed cents limits (charges cents (new_meter cents) history)
        ≡ some (session_exceeded 10 8))
    × (utilisation cents limits (charges cents (new_meter cents) history) ≡ 1)
unfolding sealed
verdicts = (refl, refl, refl)

abbrev earlier : List (Charge cents)
earlier = starts_run ∷ records (cost_of 3) ∷ records (cost_of 3) ∷ starts_run ∷ []

overshoot_bounded_example :
    (leb 5 0 ≡ false)
    × (leb 8 6 ≡ false)
    × ((charges cents (new_meter cents) history).run.usd ≡ 4)
    × ((charges cents (new_meter cents) history).session.usd ≡ 10)
unfolding sealed
overshoot_bounded_example =
    overshoot_bounded cents limits earlier (cost_of 4) (refl, (refl, (refl, tt)))

abbrev details : InputTokenDetails
details = record { no_cache_tokens = none; cache_read_tokens = some 30; cache_write_tokens = none }

abbrev pub report : LanguageModelUsage
report = record {
  input_tokens = some 100;
  input_token_details = some details;
  output_tokens = some 7;
  reasoning_tokens = none;
}
