-- ===== src/Store.antt =====
-- packages/orchestrator/src/state.ts, `RunStore`: the runs in memory, the writes that are queued, and
-- the disk. An operation that throws is none; times are arguments. `#interimCostIndex` is kept by
-- run, then by execution, which is what its composed key stands for. The events to listeners and the
-- reading of the log are left out.
pub mod Costing
pub mod Disk
pub mod Consistent
mod Tests
use brevi.Base.{
  ◌∷◌, ℕ, zero, suc, ◌+◌, String, Bool, true, false, not, Option, none, some, List, [], ◌++◌,
  if◌then◌else◌, if_found, Dict, get, put, delete, keep, length, str_eq, ltb, sort_by,
}
use brevi.Costs.{CostEntry, CostTotals, summarize_costs}
use brevi.Runs.{
  RunStatus, queued, Ticket, RunAttempt, RunResult, RunSandbox, Run, RunEvent, status_event,
  artifact_event, cost_event, attempt_event,
}

-- What the write queue holds: a run's snapshot, or a line of its log.
pub data RunWrite : Type 0 where
  snapshot : Run → RunWrite
  event_line : RunEvent → RunWrite

-- `interim` is `#interimCostIndex`; `disk` the snapshots on disk and `log` the lines written.
pub record RunStore : Type 0 where
  pub runs : Dict Run
  pub interim : Dict (Dict ℕ)
  pub writes : List RunWrite
  pub disk : Dict Run
  pub log : List RunEvent

unfoldable pub persist : Run → RunStore → RunStore
persist run store = record store { writes = store.writes ++ snapshot run ∷ [] }

unfoldable pub append_event : RunEvent → RunStore → RunStore
append_event event store = record store { writes = store.writes ++ event_line event ∷ [] }

unfoldable pub set_run : String → Run → RunStore → RunStore
set_run id run store = record store { runs = put id run store.runs }

-- The queue's next write. One that fails is reported, and the queue goes on.
unfoldable pub land : RunWrite → RunStore → RunStore
land (snapshot run) store = record store { disk = put run.id run store.disk }
land (event_line event) store = record store { log = store.log ++ event ∷ [] }

unfoldable pub land_first : (succeeds : Bool) → List RunWrite → RunStore → RunStore
unfolding land
land_first succeeds [] store = store
land_first succeeds (w ∷ ws) store =
    let rest = record store { writes = ws } in if succeeds then land w rest else rest

unfoldable pub run_store_write : (succeeds : Bool) → RunStore → RunStore
unfolding land_first
run_store_write succeeds store = land_first succeeds store.writes store

abbrev pub no_sandbox : RunSandbox
no_sandbox = record { provider = none; worker_id = none; sandbox_id = none; retained_until = none }

unfoldable pub new_run : (id : String) (now : ℕ) → Ticket → Run
new_run id now ticket = record {
  id = id;
  ticket = ticket;
  status = queued;
  sandbox = no_sandbox;
  agent_session_id = none;
  created_at = now;
  queued_at = some now;
  queue_reason = none;
  started_at = none;
  finished_at = none;
  result = none;
  error = none;
  attempts = [];
  costs = [];
  cost_totals = none;
  pr_url = none;
  pr_state = none;
  pr_merged_at = none;
  ticket_closed_at = none;
  resume_at = none;
  limit = none;
  archived_at = none;
}

-- `createRun` up to its wait for the snapshot, and what follows: only then is the run in the store.
unfoldable pub create_start : Run → RunStore → RunStore
unfolding persist
create_start run store = persist run store

unfoldable pub create_end : Run → RunStore → RunStore
unfolding set_run append_event
create_end run store =
    append_event (status_event run.id run.created_at queued) (set_run run.id run store)

unfoldable pub create_run : Run → RunStore → RunStore
unfolding create_start create_end
create_run run store = create_end run (create_start run store)

unfoldable pub get_run : String → RunStore → Option Run
get_run id store = get id store.runs

abbrev pub run_values : Dict Run → List Run
run_values [] = []
run_values ((k, run) ∷ m) = run ∷ run_values m

-- `list()`, newest first. `locale_after a b`: `a.localeCompare(b) > 0`.
unfoldable pub list : (String → String → Bool) → RunStore → List Run
list locale_after store = sort_by (λ a b. locale_after b.id a.id) (run_values store.runs)

unfoldable pub runs_for_ticket : (String → String → Bool) → String → RunStore → List Run
unfolding list
runs_for_ticket locale_after ticket_id store =
    keep (λ run. str_eq run.ticket.id ticket_id) (list locale_after store)

-- `update`, with the patch as a function on the run. Its write is queued; one that fails makes the
-- source's call reject with the run changed in memory, which callers of this model do not see.
unfoldable pub update : String → (Run → Run) → RunStore → Option RunStore
unfolding set_run persist
update id patch store =
    if_found none (get id store.runs)
      λ existing. let run = patch existing in some (persist run (set_run id run store))

unfoldable pub log_after : RunEvent → Option RunStore → Option RunStore
unfolding append_event
log_after event none = none
log_after event (some store) = some (append_event event store)

unfoldable pub set_status :
    String → RunStatus → (Run → Run) → (now : ℕ) → RunStore → Option RunStore
unfolding update log_after
set_status id status patch now store =
    log_after (status_event id now status)
      (update id (λ existing. record (patch existing) { status = status }) store)

abbrev pub new_attempt : (follow_up : Bool) (now : ℕ) → List RunAttempt → RunAttempt
new_attempt follow_up now attempts = record {
  number = length attempts + 1;
  started_at = now;
  follow_up = follow_up;
  finished_at = none;
  outcome = none;
  error = none;
  limit = none;
}

unfoldable pub begin_attempt : String → (follow_up : Bool) (now : ℕ) → RunStore → Option RunStore
unfolding update log_after
begin_attempt id follow_up now store = if_found none (get id store.runs) λ run.
    let attempt = new_attempt follow_up now run.attempts in
    log_after (attempt_event id now attempt.number)
      (update id (λ existing. record existing { attempts = run.attempts ++ attempt ∷ [] }) store)

-- The attempts with the last one closed, if it is open.
unfoldable pub close_last :
    (RunAttempt → RunAttempt) → (now : ℕ) → List RunAttempt → Option (List RunAttempt)
close_last patch now [] = none
close_last patch now (last ∷ []) = elim last.finished_at [
  | some t ↦ none
  | none ↦ some (patch (record last { finished_at = some now }) ∷ [])
]
close_last patch now (a ∷ b ∷ rest) = elim (close_last patch now (b ∷ rest)) [
  | none ↦ none
  | some closed ↦ some (a ∷ closed)
]

unfoldable pub end_attempt :
    String → (RunAttempt → RunAttempt) → (now : ℕ) → RunStore → Option RunStore
unfolding update close_last
end_attempt id patch now store = if_found (some store) (get id store.runs) λ run.
    if_found (some store) (close_last patch now run.attempts)
      λ closed. update id (λ existing. record existing { attempts = closed }) store

abbrev pub result_of : Option Run → Option RunResult
result_of none = none
result_of (some run) = run.result

abbrev pub with_artifact : String → RunResult → Run → Run
with_artifact artifact result existing =
    let with_it = record result { artifacts = result.artifacts ++ artifact ∷ [] } in
    record existing { result = some with_it }

unfoldable pub add_artifact : String → String → (now : ℕ) → RunStore → Option RunStore
unfolding update log_after
add_artifact id artifact now store = log_after (artifact_event id now artifact) (
    if_found (some store) (result_of (get id store.runs))
      λ result. update id (with_artifact artifact result) store)
