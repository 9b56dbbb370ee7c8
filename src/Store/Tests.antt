-- ===== src/Store/Tests.antt =====
-- Runs of the run store.
use brevi.Base.{◌∷◌, ◌≡◌, refl, arith, none, some, false, List, [], get}
use brevi.Costs.{CostEntry}
use brevi.Runs.{running, Ticket}
use brevi.Store.{new_run}
use brevi.Store.Costing.Slots.{CostCall, sampled, ended, cost_calls, after_calls, entries}
use brevi.Store.Costing.Executions.{one_entry_per_execution}
use brevi.Store.Disk.{
  StoreCall, create_begun, created, find_run, or_creating, still_creating, status_set,
  attempt_begun, attempt_ended, cost_sampled, cost_added, write_landed, store_calls, empty_store,
  disk_is_current,
}
use brevi.Store.Consistent.{IsConsistent, EveryRun, runs_stay-IsConsistent}

abbrev session : CostEntry
session = record {
  model = none;
  input_tokens = 46;
  output_tokens = 5;
  cache_read_tokens = none;
  cache_write_tokens = none;
  cost_usd = some 700;
  estimated = false;
  breakdown = [];
}

abbrev ticket : Ticket
ticket = record { id = "t1"; identifier = "ENG"; repo = some "web"; updated_at = "monday" }

abbrev calls : List StoreCall
calls =
    create_begun (new_run "r1" 1 ticket)
    ∷ created (new_run "r1" 1 ticket)
    ∷ status_set "r1" running (λ run. run) (λ run. refl) 2
    ∷ attempt_begun "r1" false 3
    ∷ cost_sampled "r1" "e1" session
    ∷ cost_added "r1" session (some "e1") 4
    ∷ attempt_ended "r1" (λ a. a) 5
    ∷ []

-- The second run is still being created at the end.
abbrev landed : List StoreCall
landed =
    create_begun (new_run "r1" 1 ticket)
    ∷ write_landed
    ∷ created (new_run "r1" 1 ticket)
    ∷ status_set "r1" running (λ run. run) (λ run. refl) 2
    ∷ create_begun (new_run "r2" 3 ticket)
    ∷ write_landed
    ∷ write_landed
    ∷ write_landed
    ∷ write_landed
    ∷ []

disk_is_current_example :
    get "r2" (store_calls landed empty_store).disk
    ≡ or_creating
        (find_run "r2" (still_creating landed []))
        (get "r2" (store_calls landed empty_store).runs)
unfolding store_calls new_run
disk_is_current_example =
    disk_is_current landed "r2"
      ((refl, refl), (tt, (refl, (tt, ((refl, refl), (tt, (tt, (tt, (tt, tt))))))))) refl

runs_stay-IsConsistent_example : EveryRun IsConsistent (store_calls calls empty_store)
unfolding new_run
runs_stay-IsConsistent_example =
    runs_stay-IsConsistent calls empty_store
      (
        tt,
        (
          record { totals = refl; numbered = tt },
          (
            record { costs = λ r. refl; cost_totals = λ r. refl; attempts = λ r. refl },
            (tt, (tt, (tt, (λ a. refl, tt)))),
          ),
        ),
      )
      (λ id run h. ground arith)

abbrev cost_history : List CostCall
cost_history =
    sampled "a" session ∷ sampled "b" session ∷ ended (some "a") session ∷ ended none session ∷ []

one_entry_per_execution_example :
    (cost_calls cost_history (record { costs = []; interim = [] })).costs
    ≡ entries (after_calls cost_history [])
one_entry_per_execution_example = one_entry_per_execution cost_history
