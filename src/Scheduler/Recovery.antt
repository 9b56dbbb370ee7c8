-- ===== src/Scheduler/Recovery.antt =====
-- What a restarted host does with the runs that it finds: `planRunRecovery` and `#recoverRuns` of
-- packages/orchestrator/src/scheduler.ts.
pub mod Partition
use brevi.Base.{
  ◌∷◌, ℕ, String, Bool, true, false, not, ◌&&◌, ◌||◌, Option, none, some, List, [], ◌++◌, map, keep,
  if◌then◌else◌, if_found, get, add_key, str_eq, ltb, sort_by,
}
use brevi.Runs.{RunStatus, queued, is_terminal, Run, log_event}
use brevi.Store.{list, append_event}
use brevi.Scheduler.{
  WorkerPool, Scheduler, status_is_queued, status_is_waiting, join_queue, log_line,
}
use brevi.Scheduler.Dispatch.{dispatch_queued}
use brevi.Scheduler.Callbacks.{FoundPullRequest, on_run_interrupted}

pub record RestoredLease : Type 0 where
  pub lease_id : String
  pub run_id : String
  pub worker_id : String
  pub worker_name : String
  pub follow_up : Bool

pub record RunRecoveryPlan : Type 0 where
  pub leased : List RestoredLease
  pub queue : List String
  pub interrupted : List String

-- `leaseByRun.get(id)`: of several leases of a run the last.
unfoldable pub lease_of : String → List RestoredLease → Option RestoredLease
lease_of id [] = none
lease_of id (lease ∷ leases) =
    let later = lease_of id leases in
    elim later [
      | some found ↦ some found
      | none ↦ if str_eq lease.run_id id then some lease else none
    ]

abbrev pub is_leased : List RestoredLease → Run → Bool
is_leased restored run = if_found false (lease_of run.id restored) (λ lease. true)

-- When the run was queued, for the order of the queue.
abbrev pub queue_time : Run → ℕ
queue_time run = if_found run.created_at run.queued_at (λ at. at)

unfoldable pub leases_of : List Run → List RestoredLease → List RestoredLease
unfolding lease_of
leases_of [] restored = []
leases_of (run ∷ runs) restored =
    let rest = leases_of runs restored in
    if_found rest (lease_of run.id restored) (λ lease. lease ∷ rest)

abbrev pub is_waiting_again : List RestoredLease → Run → Bool
is_waiting_again restored run = status_is_queued run.status && not (is_leased restored run)

abbrev pub is_interrupted : List RestoredLease → Run → Bool
is_interrupted restored run = not (status_is_queued run.status) && not (is_leased restored run)

unfoldable pub queue_of : List Run → List RestoredLease → List Run
queue_of pending restored =
    sort_by (λ a b. ltb (queue_time b) (queue_time a)) (keep (is_waiting_again restored) pending)

unfoldable pub plan_run_recovery : List Run → List RestoredLease → RunRecoveryPlan
unfolding leases_of queue_of
plan_run_recovery pending restored = record {
  leased = leases_of pending restored;
  queue = map (λ run. run.id) (queue_of pending restored);
  interrupted = map (λ run. run.id) (keep (is_interrupted restored) pending);
}

module _ {W : Type 0} (pool : WorkerPool W) where
  unfoldable pub recover_leased : (now : ℕ) → List RestoredLease → Scheduler W → Scheduler W
  unfolding log_line
  recover_leased now [] s = s
  recover_leased now (lease ∷ leases) s =
      let logged = log_line (log_event lease.run_id now "brevi restarted") s in
      recover_leased now leases (
        if lease.follow_up
        then record logged { follow_ups = add_key lease.run_id s.follow_ups }
        else logged)

  unfoldable pub recover_queue : List String → Scheduler W → Scheduler W
  recover_queue [] s = s
  recover_queue (id ∷ ids) s = recover_queue ids (record s { queue = join_queue id s.queue })

  -- `branch` and `found` are what GitHub has for each run.
  unfoldable pub recover_interrupted :
      (now : ℕ)
      → (branch : String → String) → (found : String → Option FoundPullRequest) → List String
      → Scheduler W
      → Scheduler W
  unfolding on_run_interrupted
  recover_interrupted now branch found [] s = s
  recover_interrupted now branch found (id ∷ ids) s = recover_interrupted now branch found ids (
      on_run_interrupted pool now id "brevi restarted with no worker executing this run" false
        (branch id) (found id) s)

  unfoldable pub pending_runs : (String → String → Bool) → Scheduler W → List Run
  unfolding list is_terminal
  pending_runs locale_after s =
      keep (λ run. not (is_terminal run.status) && not (status_is_waiting run.status))
        (list locale_after s.store)

  unfoldable pub recover_runs :
      (now : ℕ)
      → (String → String → Bool)
      → (branch : String → String) → (found : String → Option FoundPullRequest) → List RestoredLease
      → Scheduler W
      → Scheduler W
  unfolding pending_runs plan_run_recovery recover_leased recover_queue recover_interrupted
      dispatch_queued
  recover_runs now locale_after branch found restored s =
      let plan = plan_run_recovery (pending_runs locale_after s) restored in
      let leased = recover_leased now plan.leased s in
      let queued_again = recover_queue plan.queue leased in
      let recovered = recover_interrupted now branch found plan.interrupted queued_again in
      dispatch_queued pool now recovered
