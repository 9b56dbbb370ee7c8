-- ===== src/Runs.antt =====
-- packages/shared/src/types.ts: a run and what it is made of. A timestamp is its time in
-- milliseconds; the ISO texts of the source compare as their times.
use brevi.Base.{ℕ, String, Bool, true, false, Option, List}
use brevi.Costs.{CostEntry, CostTotals}

pub data RunStatus : Type 0 where
  queued preparing running finalizing waiting completed failed cancelled : RunStatus

-- `isTerminal`: `TERMINAL_STATUSES.has(status)`.
unfoldable pub is_terminal : RunStatus → Bool
is_terminal completed = true
is_terminal failed = true
is_terminal cancelled = true
is_terminal _ = false

-- `ACTIVE_STATUSES.has(status)` of packages/orchestrator/src/state.ts.
unfoldable pub is_active_status : RunStatus → Bool
is_active_status queued = true
is_active_status preparing = true
is_active_status running = true
is_active_status finalizing = true
is_active_status _ = false

-- The fields of a ticket that the code below reads.
pub record Ticket : Type 0 where
  pub id : String
  pub identifier : String
  pub repo : Option String
  pub updated_at : String

pub data LimitProvider : Type 0 where
  claude codex grok : LimitProvider

pub data LimitKind : Type 0 where
  five_hour weekly unknown_window : LimitKind

pub record LimitInfo : Type 0 where
  pub provider : LimitProvider
  pub kind : LimitKind
  pub resets_at : Option ℕ
  pub message : String

pub data AttemptOutcome : Type 0 where
  attempt_completed attempt_failed attempt_cancelled attempt_limit : AttemptOutcome

pub data PrState : Type 0 where
  pr_open pr_draft pr_merged pr_closed : PrState

pub record RunAttempt : Type 0 where
  pub number : ℕ
  pub started_at : ℕ
  pub follow_up : Bool
  pub finished_at : Option ℕ
  pub outcome : Option AttemptOutcome
  pub error : Option String
  pub limit : Option LimitInfo

-- An artifact is its name.
pub record RunResult : Type 0 where
  pub pr_url : Option String
  pub branch : Option String
  pub pushed_at : Option ℕ
  pub summary : String
  pub artifacts : List String
  pub cost_totals : Option CostTotals

pub record RunSandbox : Type 0 where
  pub provider : Option String
  pub worker_id : Option String
  pub sandbox_id : Option String
  pub retained_until : Option ℕ

pub record Run : Type 0 where
  pub id : String
  pub ticket : Ticket
  pub status : RunStatus
  pub sandbox : RunSandbox
  pub agent_session_id : Option String
  pub created_at : ℕ
  pub queued_at : Option ℕ
  pub queue_reason : Option String
  pub started_at : Option ℕ
  pub finished_at : Option ℕ
  pub result : Option RunResult
  pub error : Option String
  pub attempts : List RunAttempt
  pub costs : List CostEntry
  pub cost_totals : Option CostTotals
  pub pr_url : Option String
  pub pr_state : Option PrState
  pub pr_merged_at : Option ℕ
  pub ticket_closed_at : Option ℕ
  pub resume_at : Option ℕ
  pub limit : Option LimitInfo
  pub archived_at : Option ℕ

-- The lines of a run's log that the host writes itself.
pub data RunEvent : Type 0 where
  status_event : (run_id : String) (ts : ℕ) (status : RunStatus) → RunEvent
  log_event : (run_id : String) (ts : ℕ) (text : String) → RunEvent
  artifact_event : (run_id : String) (ts : ℕ) (artifact : String) → RunEvent
  cost_event : (run_id : String) (ts : ℕ) (entry : CostEntry) → RunEvent
  attempt_event : (run_id : String) (ts number : ℕ) → RunEvent
