-- ===== src/Scheduler.antt =====
-- packages/orchestrator/src/scheduler.ts, `Orchestrator`: the runs' queue and what the scheduler does
-- to runs. The worker registry is a pool of workers behind an interface. What the code waits for is an
-- argument: the time, a drawn id, GitHub's answer. The waits of a command for the disk are not steps of
-- their own: the write of a run is taken to succeed at once, also that of a run being created, where
-- the source leaves a status that could not be written in memory and rejects. The commands of one run
-- are serialized, which `#withRunLock` does. Console lines are left out, and the texts of log lines
-- shortened.
pub mod Places
pub mod Dispatch
pub mod Recovery
pub mod Commands
pub mod Callbacks
pub mod Kept
pub mod Steps
pub mod Pool
pub mod Tickets
mod Tests
use brevi.Base.{
  ◌∷◌, ℕ, String, Bool, true, false, not, ◌&&◌, ◌||◌, Option, none, some, List, [], ◌++◌,
  if◌then◌else◌, if_found, Dict, get, put, delete, contains, add_key, remove_key, str_eq, leb,
}
use brevi.Runs.{
  RunStatus, queued, preparing, running, finalizing, waiting, completed, failed, cancelled,
  is_terminal, Ticket, Run, RunAttempt, RunEvent, PrState, pr_closed,
}
use brevi.Registry.{CancelOutcome, unknown}
use brevi.Store.{RunStore, run_values, update, set_status, append_event}

pub record DispatchPayload : Type 0 where
  pub follow_up : Bool
  pub run : Run
  pub repo_key : String

-- A dispatch that is not placed has a reason.
pub data DispatchOutcome : Type 0 where
  was_placed : DispatchOutcome
  not_placed : (reason : String) → DispatchOutcome

-- What the scheduler calls of `WorkerRegistry`. `settle` is the registry's own end of a run's lease,
-- and `holds` whether a lease is out for the run.
pub record WorkerPool (W : Type 0) : Type 0 where
  pub request_dispatch : DispatchPayload → W → DispatchOutcome × W
  pub request_cancel : String → W → CancelOutcome × W
  pub discard : String → W → Bool × W
  pub has_attach_session : String → W → Bool
  pub settle : String → W → W
  pub holds : String → W → Bool

-- The parts of the configuration that are read: the keys of `repos`, and whether there is a token.
pub record SchedulerConfig : Type 0 where
  pub repos : List String
  pub github_connected : Bool

-- `workers` is none before the start. A timer is when it is due.
pub record Scheduler (W : Type 0) : Type 0 where
  pub config : SchedulerConfig
  pub tickets : List Ticket
  pub store : RunStore
  pub queue : List String
  pub follow_ups : List String
  pub resume_timers : Dict ℕ
  pub reap_timers : Dict ℕ
  pub warned_no_capacity : Bool
  pub stopped : Bool
  pub workers : Option W

-- The kinds of `OrchestratorError`, and any other error.
pub data ErrorKind : Type 0 where
  not_found invalid conflict other_error : ErrorKind

pub data Reply : Type 0 where
  returned : Run → Reply
  raised : ErrorKind → Reply

abbrev pub or_store : RunStore → Option RunStore → RunStore
or_store store none = store
or_store store (some next) = next

-- A call whose failure is dropped, as in `.catch(() => undefined)`.
unfoldable pub update_quietly : String → (Run → Run) → RunStore → RunStore
unfolding update
update_quietly id patch store = or_store store (update id patch store)

unfoldable pub set_status_quietly :
    String → RunStatus → (Run → Run) → (now : ℕ) → RunStore → RunStore
unfolding set_status
set_status_quietly id status patch now store = or_store store (set_status id status patch now store)

-- `this.#queue.push(runId)` unless it is there.
abbrev pub join_queue : String → List String → List String
join_queue id queue = if contains id queue then queue else queue ++ id ∷ []

abbrev pub status_is_queued : RunStatus → Bool
status_is_queued queued = true
status_is_queued _ = false

abbrev pub status_is_waiting : RunStatus → Bool
status_is_waiting waiting = true
status_is_waiting _ = false

abbrev pub is_queued_run : Option Run → Bool
is_queued_run none = false
is_queued_run (some run) = status_is_queued run.status

abbrev pub any_run : (Run → Bool) → List Run → Bool
any_run p [] = false
any_run p (run ∷ runs) = p run || any_run p runs

-- `#activeOrQueuedRun`: whether there is one.
unfoldable pub active_or_queued : String → RunStore → Bool
unfolding is_terminal
active_or_queued ticket_id store =
    any_run (λ run. str_eq run.ticket.id ticket_id && not (is_terminal run.status))
      (run_values store.runs)

-- Another unfinished run of the run's ticket.
unfoldable pub clashes : Run → RunStore → Bool
unfolding is_terminal
clashes run store =
    any_run
      (λ other.
        str_eq other.ticket.id run.ticket.id
        && (not (str_eq other.id run.id) && not (is_terminal other.status)))
      (run_values store.runs)

-- `attemptStartOf`, and the start of the last of some attempts.
abbrev last_start : List RunAttempt → Option ℕ
last_start [] = none
last_start (a ∷ []) = some a.started_at
last_start (a ∷ b ∷ rest) = last_start (b ∷ rest)

unfoldable pub attempt_start_of : Run → ℕ
attempt_start_of run = elim (last_start run.attempts) [
  | some start ↦ start
  | none ↦ elim run.started_at [ some start ↦ start | none ↦ run.created_at ]
]

abbrev is_closed : PrState → Bool
is_closed pr_closed = true
is_closed _ = false

-- `adoptableFromAttempt`; a time is none where its text is no date.
unfoldable pub adoptable_from_attempt :
    (follow_up : Bool) (started_at : Option ℕ) → PrState → (pr_created_at : Option ℕ) → Bool
adoptable_from_attempt follow_up started_at state pr_created_at =
    if follow_up || is_closed state
    then false
    else if_found false started_at
        (λ start. if_found false pr_created_at (λ created. leb start created))

abbrev pub retained_until_of : Option Run → Option ℕ
retained_until_of none = none
retained_until_of (some run) = run.sandbox.retained_until

module _ {W : Type 0} where
  unfoldable pub set_store : RunStore → Scheduler W → Scheduler W
  set_store store s = record s { store = store }

  unfoldable pub log_line : RunEvent → Scheduler W → Scheduler W
  unfolding append_event
  log_line event s = record s { store = append_event event s.store }

  -- `#clearResume`.
  unfoldable pub clear_resume : String → Scheduler W → Scheduler W
  clear_resume id s = record s { resume_timers = delete id s.resume_timers }

  -- `#scheduleReap`: the timer's due time, which `#maybeReap` checks again when it fires.
  unfoldable pub schedule_reap : String → Scheduler W → Scheduler W
  schedule_reap id s =
      let cleared = record s { reap_timers = delete id s.reap_timers } in
      if_found cleared (retained_until_of (get id s.store.runs))
        λ due. record s { reap_timers = put id due (delete id s.reap_timers) }
