-- ===== src/Scheduler/Callbacks.antt =====
-- What the registry's callbacks and the timers do to runs in
-- packages/orchestrator/src/scheduler.ts.
use brevi.Base.{
  ◌∷◌, ℕ, ◌+◌, max, String, Bool, true, false, not, ◌&&◌, ◌||◌, Option, none, some, List, [],
  if◌then◌else◌, if_found, get, put, delete, contains, add_key,
}
use brevi.Runs.{
  queued, completed, is_terminal, RunAttempt, attempt_failed, PrState, RunResult, Run, log_event,
}
use brevi.Store.{set_status, end_attempt, append_event}
use brevi.Scheduler.{
  WorkerPool, SchedulerConfig, Scheduler, or_store, update_quietly, set_status_quietly, join_queue,
  is_queued_run, status_is_waiting, log_line, clear_resume, schedule_reap, retained_until_of, Reply,
  returned, raised, other_error, attempt_start_of, adoptable_from_attempt,
}
use brevi.Scheduler.Dispatch.{dispatch_queued, resolved_repo}

-- The fields that a requeue sheds (`#enqueueForAttempt`).
abbrev pub shed : (now : ℕ) → Option String → Run → Run
shed now reason run = record run {
  resume_at = none;
  queued_at = some now;
  finished_at = none;
  error = none;
  limit = none;
  result = none;
  queue_reason = reason;
  archived_at = none;
}

abbrev pub not_retained : Run → Run
not_retained run = record run { sandbox = record run.sandbox { retained_until = none } }

abbrev pub is_waiting_run : Option Run → Bool
is_waiting_run none = false
is_waiting_run (some run) = status_is_waiting run.status

abbrev pub close_failed : (reason : String) → RunAttempt → RunAttempt
close_failed reason a = record a { outcome = some attempt_failed; error = some reason }

-- A pull request found on the branch of a run, and one that was adopted.
pub record FoundPullRequest : Type 0 where
  pub url : String
  pub state : PrState
  pub created_at : Option ℕ

unfoldable pub adopted_pull_request :
    SchedulerConfig → Run → (follow_up : Bool) → Option FoundPullRequest → Option FoundPullRequest
unfolding resolved_repo attempt_start_of adoptable_from_attempt
adopted_pull_request config run follow_up found =
    if follow_up || not config.github_connected
    then none
    else if_found none (resolved_repo config run) λ repo. if_found none found λ pr.
      if adoptable_from_attempt follow_up (some (attempt_start_of run)) pr.state pr.created_at
      then some pr
      else none

abbrev kept_artifacts : Option RunResult → List String
kept_artifacts none = []
kept_artifacts (some result) = result.artifacts

abbrev pub with_adopted : (now : ℕ) (branch : String) → FoundPullRequest → Run → Run
with_adopted now branch pr run = record run {
  finished_at = some now;
  pr_url = some pr.url;
  pr_state = some pr.state;
  result = some (record {
    pr_url = some pr.url;
    branch = some branch;
    pushed_at = none;
    summary = "adopted";
    artifacts = kept_artifacts run.result;
    cost_totals = if_found none run.result (λ result. result.cost_totals);
  });
}

module _ {W : Type 0} (pool : WorkerPool W) where
  -- `this.#workers?.discard(runId)`.
  unfoldable pub discard_from : String → Option W → Bool × Option W
  discard_from id none = (false, none)
  discard_from id (some w) = let (reached, next) = pool.discard id w in (reached, some next)

  -- `#discardRetained`: none where it throws, with what it changed until then.
  unfoldable pub discard_retained : String → Scheduler W → Bool × Scheduler W
  unfolding discard_from update_quietly
  discard_retained id s =
      let cleared = record s { reap_timers = delete id s.reap_timers } in
      if_found (true, cleared) (retained_until_of (get id s.store.runs))
        λ due.
          let (reached, workers) = discard_from id s.workers in
          let asked = record cleared { workers = workers } in
          if reached
          then (true, record asked { store = update_quietly id not_retained s.store })
          else (false, asked)

  -- `#enqueueForAttempt`, the write of the status succeeding.
  unfoldable pub enqueue_for_attempt :
      (now : ℕ) → String → Option String → Scheduler W → Reply × Scheduler W
  unfolding set_status dispatch_queued
  enqueue_for_attempt now id reason s =
      if_found (raised other_error, s) (set_status id queued (shed now reason) now s.store)
        λ store.
          let joined = record s { store = store; queue = join_queue id s.queue } in
          let reply = if_found (raised other_error) (get id store.runs) returned in
          (reply, dispatch_queued pool now joined)

  -- `#requeue`.
  unfoldable pub requeue : (now : ℕ) → String → Option String → Scheduler W → Reply × Scheduler W
  unfolding clear_resume discard_retained enqueue_for_attempt
  requeue now id reason s =
      let (discarded, next) = discard_retained id (clear_resume id s) in
      if discarded then enqueue_for_attempt now id reason next else (raised other_error, next)

  -- `#scheduleResume`: the timer fires after at least five seconds.
  unfoldable pub schedule_resume : (now : ℕ) → String → Scheduler W → Scheduler W
  unfolding clear_resume
  schedule_resume now id s =
      if s.stopped
      then s
      else (let cleared = clear_resume id s in
          if_found cleared (get id s.store.runs) λ run.
            if status_is_waiting run.status
            then record cleared {
              resume_timers =
                  put id (max (if_found 0 run.resume_at (λ due. due)) (now + 5000))
                    cleared.resume_timers;
            }
            else cleared)

  -- `#onRunSettled`.
  unfoldable pub on_run_settled : (now : ℕ) → String → Scheduler W → Scheduler W
  unfolding schedule_resume schedule_reap dispatch_queued
  on_run_settled now id s =
      let run = get id s.store.runs in
      let resumed = if is_waiting_run run then schedule_resume now id s else s in
      let reaped = if_found resumed (retained_until_of run) (λ due. schedule_reap id resumed) in
      dispatch_queued pool now reaped

  -- `#onRunRejected`: back to the front of the queue.
  unfoldable pub on_run_rejected :
      (now : ℕ) → String → (reason : String) (follow_up : Bool) → Scheduler W → Scheduler W
  unfolding log_line
  on_run_rejected now id reason follow_up s =
      let marked = record s {
        follow_ups = if follow_up then add_key id s.follow_ups else s.follow_ups;
      } in
      let logged = log_line (log_event id now reason) marked in
      if is_queued_run (get id s.store.runs) && not (contains id s.queue)
      then record logged { queue = id ∷ s.queue }
      else logged

  -- The tail of `#onRunInterrupted` for a run that adopts no pull request. That the disk cannot be
  -- discarded does not keep the run from the queue.
  unfoldable pub requeue_interrupted :
      (now : ℕ) → String → (reason : String) → Scheduler W → Scheduler W
  unfolding discard_retained clear_resume enqueue_for_attempt
  requeue_interrupted now id reason s =
      let (discarded, next) = discard_retained id s in
      let (reply, end) = enqueue_for_attempt now id (some reason) (clear_resume id next) in end

  unfoldable pub adopt :
      (now : ℕ) → String → (branch : String) → FoundPullRequest → Scheduler W → Scheduler W
  unfolding set_status_quietly on_run_settled
  adopt now id branch pr s =
      let store = set_status_quietly id completed (with_adopted now branch pr) now s.store in
      on_run_settled now id (record s { store = store })

  abbrev pub marked_interrupted :
      (now : ℕ) → String → (reason : String) (follow_up : Bool) → Scheduler W → Scheduler W
  marked_interrupted now id reason follow_up s =
      let logged = append_event (log_event id now reason) s.store in
      let follow_ups = if follow_up then add_key id s.follow_ups else s.follow_ups in
      record s {
        follow_ups = follow_ups;
        store = or_store logged (end_attempt id (close_failed reason) now logged);
      }

  -- `#onRunInterrupted`, with the pull request that GitHub has for the run's branch.
  unfoldable pub on_run_interrupted :
      (now : ℕ)
      → String
      → (reason : String) (follow_up : Bool) (branch : String) → Option FoundPullRequest
      → Scheduler W
      → Scheduler W
  unfolding is_terminal adopted_pull_request adopt requeue_interrupted
  on_run_interrupted now id reason follow_up branch found s =
      if_found s (get id s.store.runs) λ run.
        if is_terminal run.status
        then s
        else (let marked = marked_interrupted now id reason follow_up s in
            elim (adopted_pull_request s.config run follow_up found) [
              | some pr ↦ adopt now id branch pr marked
              | none ↦ requeue_interrupted now id reason marked
            ])
