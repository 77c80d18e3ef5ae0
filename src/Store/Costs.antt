-- ===== src/Store/Costs.antt =====
-- packages/store/src/store.ts: what the recorded costs add up to.
use mathlib.Core.Option.{some-injective}
use open_source_harness.Common.{
  ℕ, ◌≡◌, refl, sym, ap, ◌∙◌, inl, inr, false, some, List, [], ◌∷◌, ◌++◌, Str, str_eq, str_eq_refl,
  Option-cases, append-nil, filter-append,
}
use open_source_harness.Common.Monad.{>>=-eq-some}
use open_source_harness.Protocol.Cost.{Amounts, CostBuckets, zero_cost, add_cost}
use open_source_harness.Store.{
  CostRow, Tables, get_thread, costs_of, Codec, record_thread_cost, sum_costs, thread_cost,
  total_cost,
}

module _ (amounts : Amounts) (codec : Codec amounts) where
  open codec use {print_buckets, parse_buckets}

  sum_costs-append :
      (start old : CostBuckets amounts) (rows : List CostRow) (row : CostRow)
      (b : CostBuckets amounts)
      → sum_costs amounts codec start rows ≡ some old
      → parse_buckets row.buckets ≡ some b
      → sum_costs amounts codec start (rows ++ row ∷ []) ≡ some (add_cost amounts old b)
  unfolding sum_costs
  sum_costs-append start old [] row b h k =
      rw (k) (ap (λ o. some (add_cost amounts o b)) (some-injective _ _ h))
  sum_costs-append start old (r ∷ rows) row b h k =
      let (c, p, rest) = >>=-eq-some (parse_buckets r.buckets) _ h in
      rw (p) (sum_costs-append (add_cost amounts start c) old rows row b rest k)

  -- A cost that is recorded on a thread is added to the total of that thread and to the total of all
  -- threads, and the total of every other thread is what it was, if the buckets are read back as they
  -- were printed.
  pub record_thread_cost_adds :
      (tables after : Tables) (id run_id model : Str) (buckets old all : CostBuckets amounts)
      (now : ℕ)
      → parse_buckets (print_buckets buckets) ≡ some buckets
      → thread_cost amounts codec tables id ≡ some old
      → total_cost amounts codec tables ≡ some all
      → record_thread_cost amounts codec tables id run_id model buckets now ≡ some after
      → (thread_cost amounts codec after id ≡ some (add_cost amounts old buckets))
        × (total_cost amounts codec after ≡ some (add_cost amounts all buckets))
        × ((other : Str)
            → str_eq id other ≡ false
            → thread_cost amounts codec after other ≡ thread_cost amounts codec tables other)
  unfolding thread_cost total_cost costs_of record_thread_cost
  record_thread_cost_adds tables after id run_id model buckets old all now reads was total h =
      elim (Option-cases (get_thread tables.threads id)) [
        | inl missing ↦ cc (rw (record_thread_cost, missing) at h)
        | inr (thread, found) ↦
            let row : CostRow = record {
              thread_id = id;
              run_id = run_id;
              model = model;
              buckets = print_buckets buckets;
              ts = now;
            } in
            let costs_after : after.costs ≡ tables.costs ++ row ∷ [] = sym (
              ap (λ (t : Tables). t.costs)
                (some-injective _ _ (rw (record_thread_cost, found) at h))) in
            let rows_after = λ (other : Str).
              ap (costs_of other) costs_after
              ∙ filter-append (λ (c : CostRow). str_eq c.thread_id other) tables.costs (row ∷ []) in
            (
              ap (sum_costs amounts codec (zero_cost amounts)) (
                    rows_after id ∙ ap (◌++◌ (costs_of id tables.costs)) (rw (str_eq_refl id) refl))
                  ∙ sum_costs-append (zero_cost amounts) old (costs_of id tables.costs) row buckets
                      was reads,
              ap (sum_costs amounts codec (zero_cost amounts)) costs_after
                  ∙ sum_costs-append (zero_cost amounts) all tables.costs row buckets total reads,
              λ other differ. ap (sum_costs amounts codec (zero_cost amounts)) (
                  rows_after other
                  ∙ ap (◌++◌ (costs_of other tables.costs)) (rw (differ) refl)
                  ∙ append-nil (costs_of other tables.costs)),
            )
      ]
