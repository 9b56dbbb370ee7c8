-- ===== src/Scheduler/Commands.antt =====
-- The commands on runs of packages/orchestrator/src/scheduler.ts: `queueTicket`, `cancelRun`,
-- `archiveRun`, `unarchiveRun`, `retryRun`, `followUpRun`, and the automatic queueing.
pub mod Guards
pub mod Placed
pub mod Timers
use brevi.Base.{
  ◌∷◌, ℕ, String, Bool, true, false, not, ◌&&◌, ◌||◌, Option, none, some, List, [], ◌++◌,
  if◌then◌else◌, if_found, get, put, delete, contains, add_key, remove_key, str_eq,
}
use brevi.Runs.{
  RunStatus, queued, completed, cancelled, waiting, is_terminal, is_active_status, PrState, pr_open,
  pr_draft, Ticket, RunResult, Run, log_event,
}
use brevi.Registry.{CancelOutcome, sent_now, pending, unknown}
use brevi.Store.{RunStore, run_values, new_run, create_run, update, set_status, append_event}
use brevi.Scheduler.{
  WorkerPool, SchedulerConfig, Scheduler, or_store, join_queue, status_is_queued, status_is_waiting,
  any_run, active_or_queued, clashes, set_store, log_line, clear_resume, schedule_reap, Reply,
  returned, raised, not_found, invalid, conflict, other_error,
}
use brevi.Scheduler.Dispatch.{dispatch_queued}
use brevi.Scheduler.Callbacks.{requeue}

abbrev pub find_ticket : String → List Ticket → Option Ticket
find_ticket id [] = none
find_ticket id (t ∷ ts) = let rest = find_ticket id ts in if str_eq t.id id then some t else rest

abbrev pub has_repo : Ticket → Bool
has_repo t = if_found false t.repo (λ key. true)

abbrev pub status_is_completed : RunStatus → Bool
status_is_completed completed = true
status_is_completed _ = false

abbrev pub at_end : (now : ℕ) → Run → Run
at_end now run = record run { finished_at = some now }

abbrev pub at_end_unparked : (now : ℕ) → Run → Run
at_end_unparked now run = record run { finished_at = some now; resume_at = none }

abbrev pub with_archived : Option ℕ → Run → Run
with_archived at run = record run { archived_at = at }

abbrev pub result_pr : Run → Option String
result_pr run = if_found none run.result (λ result. result.pr_url)

abbrev pub pr_is_live : PrState → Bool
pr_is_live pr_open = true
pr_is_live pr_draft = true
pr_is_live _ = false

abbrev pub follow_up_shed : (now : ℕ) → Run → Run
follow_up_shed now run = record run {
  queued_at = some now;
  finished_at = none;
  error = none;
  limit = none;
  resume_at = none;
  archived_at = none;
}

abbrev pub reply_of : Option Run → Reply
reply_of none = raised other_error
reply_of (some run) = returned run

module _ {W : Type 0} (pool : WorkerPool W) where
  -- `#enqueue`, the run being created at once; Store has the two halves of the creation.
  unfoldable pub enqueue : (now : ℕ) (new_id : String) → Ticket → Scheduler W → Reply × Scheduler W
  unfolding create_run dispatch_queued
  enqueue now new_id ticket s =
      let run = new_run new_id now ticket in
      (
        returned run,
        dispatch_queued pool now
            (record s { store = create_run run s.store; queue = s.queue ++ new_id ∷ [] }),
      )

  unfoldable pub queue_ticket :
      (now : ℕ) (new_id ticket_id : String) → Scheduler W → Reply × Scheduler W
  unfolding active_or_queued enqueue
  queue_ticket now new_id ticket_id s =
      if_found (raised not_found, s) (find_ticket ticket_id s.tickets)
        λ ticket.
          if not (has_repo ticket) || not s.config.github_connected
          then (raised invalid, s)
          else if active_or_queued ticket.id s.store
          then (raised conflict, s)
          else enqueue now new_id ticket s

  -- `#maybeAutoQueue`.
  unfoldable pub maybe_auto_queue : (now : ℕ) (new_id : String) → Ticket → Scheduler W → Scheduler W
  unfolding active_or_queued enqueue
  maybe_auto_queue now new_id ticket s =
      if not (has_repo ticket) || not s.config.github_connected
      then s
      else if active_or_queued ticket.id s.store
          || any_run
              (λ run.
                str_eq run.ticket.id ticket.id && str_eq run.ticket.updated_at ticket.updated_at)
              (run_values s.store.runs)
      then s
      else (enqueue now new_id ticket s).1

  -- `this.#workers?.cancel(runId) ?? "unknown"`.
  unfoldable pub cancel_at : String → Option W → CancelOutcome × Option W
  cancel_at id none = (unknown, none)
  cancel_at id (some w) = let (outcome, next) = pool.request_cancel id w in (outcome, some next)

  unfoldable pub set_cancelled :
      (now : ℕ) → String → (Run → Run) → Scheduler W → Reply × Scheduler W
  unfolding set_status
  set_cancelled now id patch s =
      if_found (raised other_error, s) (set_status id cancelled patch now s.store)
        λ store. (reply_of (get id store.runs), record s { store = store })

  abbrev pub without : String → List String → List String
  without id queue = remove_key id queue

  -- The run leaves the queue, and a follow-up gives its disk back to the reaper.
  unfoldable pub leave_queue : String → Scheduler W → Scheduler W
  unfolding schedule_reap
  leave_queue id s =
      let left = record s { queue = without id s.queue; follow_ups = remove_key id s.follow_ups } in
      if contains id s.follow_ups then schedule_reap id left else left

  unfoldable pub cancel_with :
      (now : ℕ) → String → Run → CancelOutcome → Scheduler W → Reply × Scheduler W
  unfolding set_cancelled log_line
  cancel_with now id run sent_now s = (returned run, s)
  cancel_with now id run pending s =
      (returned run, log_line (log_event id now "cancellation recorded") s)
  cancel_with now id run unknown s = set_cancelled now id (at_end now) s

  unfoldable pub cancel_live : (now : ℕ) → String → Run → Scheduler W → Reply × Scheduler W
  unfolding cancel_with cancel_at leave_queue clear_resume set_cancelled
  cancel_live now id run s =
      if status_is_waiting run.status
      then set_cancelled now id (at_end_unparked now) (clear_resume id s)
      else if status_is_queued run.status && contains id s.queue
      then set_cancelled now id (at_end now) (leave_queue id s)
      else (let (outcome, workers) = cancel_at id s.workers in
          cancel_with now id run outcome (record s { workers = workers }))

  unfoldable pub run_cancel : (now : ℕ) → String → Scheduler W → Reply × Scheduler W
  unfolding is_terminal cancel_live
  run_cancel now id s =
      if_found (raised not_found, s) (get id s.store.runs)
        λ run. if is_terminal run.status then (returned run, s) else cancel_live now id run s

  unfoldable pub updated_reply : String → (Run → Run) → Scheduler W → Reply × Scheduler W
  unfolding update
  updated_reply id patch s =
      if_found (raised other_error, s) (update id patch s.store)
        λ store. (reply_of (get id store.runs), record s { store = store })

  unfoldable pub archive_run : (now : ℕ) → String → Scheduler W → Reply × Scheduler W
  unfolding is_terminal updated_reply
  archive_run now id s =
      if_found (raised not_found, s) (get id s.store.runs)
        λ run.
          if not (is_terminal run.status)
          then (raised conflict, s)
          else if_found (updated_reply id (with_archived (some now)) s) run.archived_at
              λ at. (returned run, s)

  unfoldable pub unarchive_run : String → Scheduler W → Reply × Scheduler W
  unfolding updated_reply
  unarchive_run id s =
      if_found (raised not_found, s) (get id s.store.runs)
        λ run.
          if_found (returned run, s) run.archived_at λ at. updated_reply id (with_archived none) s

  unfoldable pub retry_run : (now : ℕ) → String → Scheduler W → Reply × Scheduler W
  unfolding is_active_status clashes requeue
  retry_run now id s =
      if_found (raised not_found, s) (get id s.store.runs)
        λ run.
          if is_active_status run.status || (status_is_completed run.status || clashes run s.store)
          then (raised conflict, s)
          else requeue pool now id none s

  -- `this.#workers?.hasAttachSession(runId)`.
  abbrev pub attached : String → Option W → Bool
  attached id none = false
  attached id (some w) = pool.has_attach_session id w

  -- `#followUpRunLocked` up to its question to GitHub: an error, or the reservation.
  unfoldable pub follow_up_start : String → Scheduler W → Option Reply × Scheduler W
  unfolding is_terminal clashes
  follow_up_start id s =
      if_found (some (raised not_found), s) (get id s.store.runs)
        λ run.
          if contains id s.follow_ups || not (is_terminal run.status)
          then (some (raised conflict), s)
          else if_found (some (raised invalid), s) (result_pr run)
              λ url.
                if not s.config.github_connected
                then (some (raised invalid), s)
                else if clashes run s.store || attached id s.workers
                then (some (raised conflict), s)
                else (none, record s { follow_ups = add_key id s.follow_ups })

  -- The reservation given back.
  unfoldable pub release : String → Scheduler W → Scheduler W
  unfolding schedule_reap
  release id s = schedule_reap id (record s { follow_ups = remove_key id s.follow_ups })

  -- The run is still one that may be followed up.
  abbrev pub still_eligible : String → Scheduler W → Bool
  still_eligible id s = if_found false (get id s.store.runs) (λ run.
      is_terminal run.status
      && (if_found false (result_pr run) (λ url. true) && not (attached id s.workers)))

  unfoldable pub start_follow_up : (now : ℕ) → String → Scheduler W → Reply × Scheduler W
  unfolding set_status dispatch_queued
  start_follow_up now id s =
      let cleared = record s { reap_timers = delete id s.reap_timers } in
      if_found (raised other_error, release id cleared)
        (set_status id queued (follow_up_shed now) now s.store)
        λ store.
          let joined = record cleared { store = store; queue = join_queue id s.queue } in
          (reply_of (get id store.runs), dispatch_queued pool now joined)

  -- What follows GitHub's answer, which is none when the question failed.
  unfoldable pub follow_up_end :
      (now : ℕ) → String → Option PrState → Scheduler W → Reply × Scheduler W
  unfolding is_terminal release start_follow_up
  follow_up_end now id answer s =
      if_found (raised invalid, release id s) answer
        λ state.
          if pr_is_live state && still_eligible id s
          then start_follow_up now id s
          else (raised conflict, release id s)
