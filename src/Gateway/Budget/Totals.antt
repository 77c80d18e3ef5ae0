-- ===== src/Gateway/Budget/Totals.antt =====
-- packages/gateway-model/src/meter.ts: what the running totals are totals of.
use open_source_harness.Common.{
  ℕ, ◌+◌, ◌≤◌, ◌≡◌, refl, sym, ap, ◌∙◌, none, some, List, [], ◌∷◌, ◌++◌, arith,
}
use open_source_harness.Protocol.Cost.{Amounts, CostBuckets, zero_cost, add_cost}
use open_source_harness.Gateway.Budget.{
  InputTokenDetails, LanguageModelUsage, usage_to_buckets, Meter, new_meter, record_cost, start_run,
  Charge, starts_run, records, charges,
}

module _ (amounts : Amounts) where
  -- The costs of a history in order, and those since its last start of a run.
  abbrev pub all_costs : List (Charge amounts) → List (CostBuckets amounts)
  all_costs [] = []
  all_costs (starts_run ∷ cs) = all_costs cs
  all_costs (records cost ∷ cs) = cost ∷ all_costs cs

  -- The costs of the run that is open at the end, where `costs` are those of the run that is open
  -- at the start.
  abbrev pub run_costs :
      List (CostBuckets amounts) → List (Charge amounts) → List (CostBuckets amounts)
  run_costs costs [] = costs
  run_costs costs (starts_run ∷ cs) = run_costs [] cs
  run_costs costs (records cost ∷ cs) = run_costs (costs ++ cost ∷ []) cs

  abbrev pub total_from : CostBuckets amounts → List (CostBuckets amounts) → CostBuckets amounts
  total_from total [] = total
  total_from total (cost ∷ costs) = total_from (add_cost amounts total cost) costs

  total_from-append :
      (total cost : CostBuckets amounts) (costs : List (CostBuckets amounts))
      → total_from total (costs ++ cost ∷ []) ≡ add_cost amounts (total_from total costs) cost
  total_from-append total cost [] = refl
  total_from-append total cost (c ∷ costs) = total_from-append (add_cost amounts total c) cost costs

  charges-totals :
      (meter : Meter amounts) (before : List (CostBuckets amounts)) (cs : List (Charge amounts))
      → meter.run ≡ total_from (zero_cost amounts) before
      → ((charges amounts meter cs).run ≡ total_from (zero_cost amounts) (run_costs before cs))
        × ((charges amounts meter cs).session ≡ total_from meter.session (all_costs cs))
  unfolding charges record_cost start_run
  charges-totals meter before [] h = (h, refl)
  charges-totals meter before (starts_run ∷ cs) h =
      charges-totals (start_run amounts meter) [] cs refl
  charges-totals meter before (records cost ∷ cs) h =
      charges-totals (record_cost amounts meter cost) (before ++ cost ∷ []) cs (
        ap (λ t. add_cost amounts t cost) h
        ∙ sym (total_from-append (zero_cost amounts) cost before))

  -- The session total is the sum of every cost that was recorded, and the run total is the sum of
  -- those since the run was started, added up in the order in which they were recorded.
  pub meter_totals :
      (cs : List (Charge amounts))
      → ((charges amounts (new_meter amounts) cs).run
          ≡ total_from (zero_cost amounts) (run_costs [] cs))
        × ((charges amounts (new_meter amounts) cs).session
            ≡ total_from (zero_cost amounts) (all_costs cs))
  meter_totals cs = charges-totals (new_meter amounts) [] cs refl

-- A report with a total and details, but no count of uncached tokens, is never billed for fewer
-- input tokens than its total.
pub usage_covers_input :
    (input : ℕ) (details : InputTokenDetails) (usage : LanguageModelUsage)
    → usage.input_tokens ≡ some input
    → usage.input_token_details ≡ some details
    → details.no_cache_tokens ≡ none
    → let b = usage_to_buckets (some usage) in
      input ≤ b.uncached_input_tokens + b.cache_read_tokens + b.cache_write_tokens
unfolding usage_to_buckets
usage_covers_input input details usage i d n = ground arith
