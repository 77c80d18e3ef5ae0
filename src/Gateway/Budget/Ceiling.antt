-- ===== src/Gateway/Budget/Ceiling.antt =====
-- packages/gateway-model/src/budget.ts: what the ceiling bounds.
use open_source_harness.Common.{
  ◌≡◌, refl, sym, ap, ◌∙◌, ◌⊎◌, ◌↔◌, true, false, none, List, [], ◌∷◌, ◌++◌, arith,
}
use open_source_harness.Protocol.Cost.{Amounts, CostBuckets, zero_cost, add_cost}
use open_source_harness.Gateway.Budget.{
  Meter, new_meter, record_cost, start_run, BudgetLimits, assert_can_proceed, is_tripped, remaining,
  Charge, starts_run, records, charge, charges,
}
use open_source_harness.Gateway.Budget.Totals.{all_costs, run_costs, total_from, meter_totals}

module _ (amounts : Amounts) where
  open amounts use {
    Amount, zero_amount, add, leb, leb_refl, leb_trans, zero_least, add_grows, add_mono,
    rest_of_zero_iff,
  }

  -- The run's spending is within the session's.
  abbrev pub RunWithinSession : Meter amounts → Type 0
  RunWithinSession meter = leb meter.run.usd meter.session.usd ≡ true

  charge-RunWithinSession :
      (meter : Meter amounts) (c : Charge amounts)
      → RunWithinSession meter
      → RunWithinSession (charge amounts meter c)
  unfolding charge add_cost zero_cost
  charge-RunWithinSession meter starts_run h = zero_least meter.session.usd
  charge-RunWithinSession meter (records cost) h =
      add_mono meter.run.usd meter.session.usd cost.usd h

  -- Whatever is recorded and however often runs are started, the run total never exceeds the
  -- session total.
  pub charges-RunWithinSession :
      (meter : Meter amounts) (cs : List (Charge amounts))
      → RunWithinSession meter
      → RunWithinSession (charges amounts meter cs)
  unfolding charges
  charges-RunWithinSession meter [] h = h
  charges-RunWithinSession meter (c ∷ cs) h =
      charges-RunWithinSession (charge amounts meter c) cs (charge-RunWithinSession meter c h)

  charges-session_grows :
      (meter : Meter amounts) (cs : List (Charge amounts))
      → leb meter.session.usd (charges amounts meter cs).session.usd ≡ true
  unfolding charges add_cost record_cost start_run
  charges-session_grows meter [] = leb_refl meter.session.usd
  charges-session_grows meter (starts_run ∷ cs) = charges-session_grows (start_run amounts meter) cs
  charges-session_grows meter (records cost ∷ cs) =
      leb_trans _ _ _ (add_grows meter.session.usd cost.usd)
        (charges-session_grows (record_cost amounts meter cost) cs)

  charges-last :
      (meter : Meter amounts) (cs : List (Charge amounts)) (cost : CostBuckets amounts)
      → charges amounts meter (cs ++ records cost ∷ [])
        ≡ record_cost amounts (charges amounts meter cs) cost
  unfolding charges
  charges-last meter [] cost = refl
  charges-last meter (starts_run ∷ cs) cost = charges-last (start_run amounts meter) cs cost
  charges-last meter (records c ∷ cs) cost = charges-last (record_cost amounts meter c) cs cost

  module _ (limits : BudgetLimits amounts) where
    refuses_over_session :
        (meter : Meter amounts)
        → leb limits.per_session_usd meter.session.usd ≡ true
        → is_tripped amounts limits meter ≡ true
    unfolding is_tripped
    refuses_over_session meter h = ground arith

    -- A session that has reached its ceiling stays refused: neither a new run nor any further cost
    -- lets a request through.
    pub session_stays_tripped :
        (meter : Meter amounts) (cs : List (Charge amounts))
        → leb limits.per_session_usd meter.session.usd ≡ true
        → is_tripped amounts limits (charges amounts meter cs) ≡ true
    session_stays_tripped meter cs h =
        refuses_over_session (charges amounts meter cs)
          (leb_trans _ _ _ h (charges-session_grows meter cs))

    -- Every cost is recorded for a request that was let through.
    abbrev pub Guarded : Meter amounts → List (Charge amounts) → Type 0
    Guarded meter [] = Unit
    Guarded meter (starts_run ∷ cs) = Guarded (start_run amounts meter) cs
    Guarded meter (records cost ∷ cs) =
        (assert_can_proceed amounts limits meter ≡ none)
        × Guarded (record_cost amounts meter cost) cs

    let_through :
        (meter : Meter amounts)
        → assert_can_proceed amounts limits meter ≡ none
        → (leb limits.per_run_usd meter.run.usd ≡ false)
          × (leb limits.per_session_usd meter.session.usd ≡ false)
    unfolding assert_can_proceed
    let_through meter h = ground arith

    last_clear :
        (meter : Meter amounts) (cs : List (Charge amounts)) (cost : CostBuckets amounts)
        → Guarded meter (cs ++ records cost ∷ [])
        → assert_can_proceed amounts limits (charges amounts meter cs) ≡ none
    unfolding charges
    last_clear meter [] cost g = g.0
    last_clear meter (starts_run ∷ cs) cost g = last_clear (start_run amounts meter) cs cost g
    last_clear meter (records c ∷ cs) cost g = last_clear (record_cost amounts meter c) cs cost g.1

    -- Overshoot is bounded by one request: if each cost of a history is recorded for a request that
    -- passed the check, then at each cost that is recorded the sum of the costs since the run was
    -- started and the sum of all costs of the session were below their limits, and the totals are
    -- then those sums with this one cost added.
    pub overshoot_bounded :
        (cs : List (Charge amounts)) (cost : CostBuckets amounts)
        → Guarded (new_meter amounts) (cs ++ records cost ∷ [])
        → let run = total_from amounts (zero_cost amounts) (run_costs amounts [] cs) in
          let session = total_from amounts (zero_cost amounts) (all_costs amounts cs) in
          let after = charges amounts (new_meter amounts) (cs ++ records cost ∷ []) in
          (leb limits.per_run_usd run.usd ≡ false)
          × (leb limits.per_session_usd session.usd ≡ false)
          × (after.run.usd ≡ add run.usd cost.usd)
          × (after.session.usd ≡ add session.usd cost.usd)
    unfolding record_cost add_cost
    overshoot_bounded cs cost g =
        let (run_is, session_is) = meter_totals amounts cs in
        let (run_below, session_below) =
          let_through (charges amounts (new_meter amounts) cs)
            (last_clear (new_meter amounts) cs cost g) in
        let last = charges-last (new_meter amounts) cs cost in
        (
          ap (λ (b : CostBuckets amounts). leb limits.per_run_usd b.usd) (sym run_is) ∙ run_below,
          ap (λ (b : CostBuckets amounts). leb limits.per_session_usd b.usd) (sym session_is)
              ∙ session_below,
          ap (λ (m : Meter amounts). m.run.usd) last
              ∙ ap (λ (b : CostBuckets amounts). add b.usd cost.usd) run_is,
          ap (λ (m : Meter amounts). m.session.usd) last
              ∙ ap (λ (b : CostBuckets amounts). add b.usd cost.usd) session_is,
        )

    -- The next request is refused exactly when nothing remains of one of the two budgets.
    pub is_tripped_iff_nothing_remains :
        (meter : Meter amounts)
        → (is_tripped amounts limits meter ≡ true) ↔ (
            ((remaining amounts limits meter).run_usd ≡ zero_amount)
            ⊎ ((remaining amounts limits meter).session_usd ≡ zero_amount))
    unfolding is_tripped remaining
    is_tripped_iff_nothing_remains meter =
        let run_rest = rest_of_zero_iff limits.per_run_usd meter.run.usd in
        let session_rest = rest_of_zero_iff limits.per_session_usd meter.session.usd in
        ground (arith, run_rest, session_rest)
