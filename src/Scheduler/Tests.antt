-- ===== src/Scheduler/Tests.antt =====
-- Runs of the scheduler over a pool that takes one run at a time.
use brevi.Base.{
  ◌∷◌, ◌≡◌, refl, arith, String, true, false, none, some, List, [], ◌+◌, length, if◌then◌else◌, get,
  contains, add_key, remove_key, ltb,
}
use brevi.Runs.{running, completed, cancelled, Ticket, Run}
use brevi.Registry.{sent_now, unknown}
use brevi.Store.{new_run, create_start}
use brevi.Store.Disk.{empty_store}
use brevi.Scheduler.{was_placed, not_placed, WorkerPool, Scheduler, active_or_queued}
use brevi.Scheduler.Dispatch.{dispatch_queued}
use brevi.Scheduler.Dispatch.Ends.{EndsWell, dispatch_stops_at_refusal}
use brevi.Scheduler.Recovery.{RestoredLease, plan_run_recovery}
use brevi.Scheduler.Recovery.Partition.{RecoveredAs, every_run_recovered_once}
use brevi.Scheduler.Commands.{run_cancel}
use brevi.Scheduler.Commands.Guards.{
  status_in, two_requests, second_request_passes, cancel_without_worker,
}
use brevi.Runs.{pr_open, is_terminal}
use brevi.Scheduler.{clashes}
use brevi.Scheduler.Commands.{follow_up_end}
use brevi.Scheduler.Commands.Guards.{QueuedAgain, follow_up_ignores_newer_run}
use brevi.Scheduler.Steps.{SchedulerStep, ticket_queued, completed_with, scheduler_steps}

abbrev one_at_a_time : WorkerPool (List String)
one_at_a_time = record {
  request_dispatch = λ payload runs.
      if ltb (length runs) 1
      then (was_placed, add_key payload.run.id runs)
      else (not_placed "full", runs);
  request_cancel = λ run_id runs. (if contains run_id runs then sent_now else unknown, runs);
  discard = λ run_id runs. (true, runs);
  has_attach_session = λ run_id runs. false;
  settle = remove_key;
  holds = contains;
}

abbrev ticket : String → Ticket
ticket id = record { id = id; identifier = "ENG"; repo = some "web"; updated_at = "monday" }

abbrev idle : Scheduler (List String)
idle = record {
  config = record { repos = "web" ∷ []; github_connected = true };
  tickets = ticket "t1" ∷ ticket "t2" ∷ ticket "t3" ∷ [];
  store = empty_store;
  queue = [];
  follow_ups = [];
  resume_timers = [];
  reap_timers = [];
  warned_no_capacity = false;
  stopped = false;
  workers = some [];
}

-- Three tickets; the first run is done, the second is with the worker, the third waits.
abbrev busy_steps : List SchedulerStep
busy_steps =
    ticket_queued 1 "r1" "t1"
    ∷ ticket_queued 2 "r2" "t2"
    ∷ ticket_queued 3 "r3" "t3"
    ∷ completed_with 4 "r1" completed refl
    ∷ []

abbrev busy : Scheduler (List String)
busy = scheduler_steps one_at_a_time busy_steps idle

dispatch_stops_at_refusal_example :
    EndsWell one_at_a_time busy.queue (dispatch_queued one_at_a_time 5 busy)
unfolding scheduler_steps new_run
dispatch_stops_at_refusal_example =
    dispatch_stops_at_refusal one_at_a_time 5 busy refl (λ h. ground arith)

third_waits : busy.queue ≡ "r3" ∷ []
unfolding scheduler_steps new_run
third_waits = refl

abbrev found_runs : List Run
found_runs =
    record (new_run "r1" 5 (ticket "t1")) { status = running }
    ∷ new_run "r2" 9 (ticket "t2")
    ∷ new_run "r3" 7 (ticket "t3")
    ∷ new_run "r4" 8 (ticket "t4")
    ∷ []

abbrev restored : List RestoredLease
restored =
    record {
      lease_id = "l4";
      run_id = "r4";
      worker_id = "w";
      worker_name = "attic";
      follow_up = false;
    }
    ∷ []

every_run_recovered_once_example :
    (length (plan_run_recovery found_runs restored).leased
        + length (plan_run_recovery found_runs restored).queue
        + length (plan_run_recovery found_runs restored).interrupted
      ≡ length found_runs)
    × RecoveredAs found_runs restored "r1" (plan_run_recovery found_runs restored)
every_run_recovered_once_example = every_run_recovered_once found_runs restored "r1"

cancel_without_worker_example :
    (status_in "r3" (run_cancel one_at_a_time 6 "r3" busy).1.store ≡ some cancelled)
    × (true ≡ true → contains "r3" (run_cancel one_at_a_time 6 "r3" busy).1.queue ≡ false)
unfolding scheduler_steps new_run
cancel_without_worker_example =
    cancel_without_worker one_at_a_time 6 "r3"
      (record (new_run "r3" 3 (ticket "t3")) { queue_reason = some "full" }) busy refl refl refl

second_request_passes_example :
    (active_or_queued "t1" (create_start (new_run "r1" 1 (ticket "t1")) empty_store)
      ≡ active_or_queued "t1" empty_store)
    × (get "r1" (two_requests 1 "r1" "r2" (ticket "t1") empty_store).runs
        ≡ some (new_run "r1" 1 (ticket "t1")))
    × (get "r2" (two_requests 1 "r1" "r2" (ticket "t1") empty_store).runs
        ≡ some (new_run "r2" 1 (ticket "t1")))
second_request_passes_example = second_request_passes 1 "r1" "r2" (ticket "t1") empty_store refl

abbrev delivered : Run
delivered = record (new_run "r1" 1 (ticket "t1")) {
  status = completed;
  result = some (record {
    pr_url = some "pull/1";
    branch = some "eng-1";
    pushed_at = none;
    summary = "done";
    artifacts = [];
    cost_totals = none;
  });
}

-- The follow-up of the first run was asked for before the second run was queued.
abbrev followed_up : Scheduler (List String)
followed_up = record idle {
  store = record empty_store {
    runs = ("r1", delivered) ∷ ("r2", new_run "r2" 2 (ticket "t1")) ∷ [];
  };
  queue = "r2" ∷ [];
  follow_ups = "r1" ∷ [];
}

follow_up_ignores_newer_run_example :
    QueuedAgain one_at_a_time "r1" delivered
      (follow_up_end one_at_a_time 9 "r1" (some pr_open) followed_up)
unfolding clashes new_run is_terminal
follow_up_ignores_newer_run_example =
    follow_up_ignores_newer_run one_at_a_time 9 "r1" delivered followed_up refl refl refl
