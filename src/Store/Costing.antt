-- ===== src/Store/Costing.antt =====
-- The cost entries of a run: `addCost`, `upsertCost` and `#upsertCost` of
-- packages/orchestrator/src/state.ts, and the same methods of packages/worker/src/reporter.ts.
pub mod Slots
pub mod Executions
use brevi.Base.{
  ◌∷◌, ℕ, zero, suc, ◌+◌, String, Bool, true, false, Option, none, some, List, [], ◌++◌,
  if◌then◌else◌, if_found, Dict, get, put, delete, length, ltb,
}
use brevi.Costs.{CostEntry, summarize_costs}
use brevi.Runs.{Run, cost_event}
use brevi.Store.{RunStore, update, log_after}

-- `costs` of a run with its part of `#interimCostIndex`.
pub record CostState : Type 0 where
  pub costs : List CostEntry
  pub interim : Dict ℕ

-- `costs.map((existing, i) => (i === index ? entry : existing))`.
unfoldable pub replace_at {ℓ} : {A : Type ℓ} → ℕ → A → List A → List A
replace_at index entry [] = []
replace_at zero entry (x ∷ xs) = entry ∷ xs
replace_at (suc index) entry (x ∷ xs) = x ∷ replace_at index entry xs

unfoldable pub append_entry : Option String → CostEntry → CostState → CostState
append_entry none entry state = record state { costs = state.costs ++ entry ∷ [] }
append_entry (some execution) entry state = record {
  costs = state.costs ++ entry ∷ [];
  interim = put execution (length state.costs) state.interim;
}

unfoldable pub interim_index : Option String → CostState → Option ℕ
interim_index none state = none
interim_index (some execution) state = get execution state.interim

-- Replaced where the index says, if it is in range; appended otherwise.
unfoldable pub upsert_at : Option ℕ → Option String → CostEntry → CostState → CostState
unfolding append_entry replace_at
upsert_at none execution entry state = append_entry execution entry state
upsert_at (some index) execution entry state =
    if ltb index (length state.costs)
    then record state { costs = replace_at index entry state.costs }
    else append_entry execution entry state

unfoldable pub upsert : Option String → CostEntry → CostState → CostState
unfolding upsert_at interim_index
upsert execution entry state = upsert_at (interim_index execution state) execution entry state

unfoldable pub forget : Option String → CostState → CostState
forget none state = state
forget (some execution) state = record state { interim = delete execution state.interim }

-- The final entry of an execution, and an interim sample of it.
unfoldable pub final_entry : Option String → CostEntry → CostState → CostState
unfolding upsert forget
final_entry execution entry state = forget execution (upsert execution entry state)

unfoldable pub sample : String → CostEntry → CostState → CostState
unfolding upsert
sample execution entry state = upsert (some execution) entry state

abbrev interim_of : Option (Dict ℕ) → Dict ℕ
interim_of none = []
interim_of (some interim) = interim

-- The cost state of a run in the store.
unfoldable pub cost_state : Run → RunStore → CostState
cost_state run store = record { costs = run.costs; interim = interim_of (get run.id store.interim) }

-- The run's costs, its totals and its indices replaced.
unfoldable pub put_costs : String → CostState → RunStore → Option RunStore
unfolding update
put_costs id state store =
    update id
      (λ existing. record existing {
        costs = state.costs;
        cost_totals = some (summarize_costs state.costs);
      })
      (record store { interim = put id state.interim store.interim })

-- `upsertCost`.
unfoldable pub upsert_cost : String → String → CostEntry → RunStore → Option RunStore
unfolding put_costs cost_state sample
upsert_cost id execution entry store =
    if_found none (get id store.runs)
      λ run. put_costs id (sample execution entry (cost_state run store)) store

-- `addCost`.
unfoldable pub add_run_cost :
    String → CostEntry → Option String → (now : ℕ) → RunStore → Option RunStore
unfolding put_costs cost_state final_entry log_after
add_run_cost id entry execution now store = if_found none (get id store.runs) λ run.
    log_after (cost_event id now entry)
      (put_costs id (final_entry execution entry (cost_state run store)) store)
