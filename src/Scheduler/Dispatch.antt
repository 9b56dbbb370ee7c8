-- ===== src/Scheduler/Dispatch.antt =====
-- `#dispatchQueued` and `#buildDispatchPayload` of packages/orchestrator/src/scheduler.ts. The
-- memories and prompts that a payload carries are left out.
pub mod Drained
pub mod Ends
use brevi.Base.{
  ◌∷◌, ℕ, String, Bool, true, false, not, ◌&&◌, ◌||◌, Option, none, some, List, [], ◌++◌,
  if◌then◌else◌, if_found, get, contains, remove_key, str_eq,
}
use brevi.Runs.{RunStatus, failed, Run, log_event}
use brevi.Store.{RunStore, append_event}
use brevi.Scheduler.{
  DispatchPayload, DispatchOutcome, was_placed, not_placed, WorkerPool, SchedulerConfig, Scheduler,
  update_quietly, set_status_quietly, status_is_queued,
}

-- The repo key of the run's ticket, if the configuration has it.
unfoldable pub resolved_repo : SchedulerConfig → Run → Option String
resolved_repo config run =
    if_found none run.ticket.repo λ key. if contains key config.repos then some key else none

abbrev pub same_reason : Option String → Option String → Bool
same_reason none none = true
same_reason (some a) (some b) = str_eq a b
same_reason _ _ = false

abbrev pub with_reason : Option String → Run → Run
with_reason reason run = record run { queue_reason = reason }

unfoldable pub note_one : Option String → String → RunStore → RunStore
unfolding update_quietly
note_one reason id store = if_found store (get id store.runs) λ run.
    if same_reason run.queue_reason reason
    then store
    else update_quietly id (with_reason reason) store

-- The reason noted on every run of the queue that has another.
unfoldable pub note_reason : Option String → List String → RunStore → RunStore
unfolding note_one
note_reason reason [] store = store
note_reason reason (id ∷ ids) store = note_reason reason ids (note_one reason id store)

abbrev pub with_failure : (text : String) (now : ℕ) → Run → Run
with_failure text now run = record run { error = some text; finished_at = some now }

-- A run without a repo fails. The text names the ticket as well.
unfoldable pub fail_unmapped : String → (now : ℕ) → RunStore → RunStore
unfolding append_event set_status_quietly
fail_unmapped id now store =
    let text : String = "ticket has no resolved repo mapping" in
    let logged = append_event (log_event id now text) store in
    set_status_quietly id failed (with_failure text now) now logged

-- What becomes of the run at the head of the queue.
pub data Turn : Type 0 where
  leaves stays : Turn

module _ {W : Type 0} (pool : WorkerPool W) where
  unfoldable pub build_payload : (id : String) → Run → String → Scheduler W → DispatchPayload
  build_payload id run key s = record {
    follow_up = contains id s.follow_ups;
    run = run;
    repo_key = key;
  }

  unfoldable pub after_dispatch :
      (id : String) (payload : DispatchPayload) (queue : List String)
      → DispatchOutcome × W
      → Scheduler W
      → Turn × Scheduler W
  unfolding note_reason update_quietly
  after_dispatch id payload queue (not_placed reason, w) s = (
    stays,
    record s {
      workers = some w;
      warned_no_capacity = true;
      store = note_reason (some reason) queue s.store;
    },
  )
  after_dispatch id payload queue (was_placed, w) s = (
    leaves,
    record s {
      workers = some w;
      warned_no_capacity = false;
      store =
          if same_reason payload.run.queue_reason none
          then s.store
          else update_quietly id (with_reason none) s.store;
      follow_ups = if payload.follow_up then remove_key id s.follow_ups else s.follow_ups;
    },
  )

  -- One round of the loop, for a run that is queued.
  unfoldable pub dispatch_run :
      (now : ℕ) (id : String) (queue : List String) → Run → W → Scheduler W → Turn × Scheduler W
  unfolding resolved_repo fail_unmapped build_payload after_dispatch
  dispatch_run now id queue run w s =
      if_found (leaves, record s { store = fail_unmapped id now s.store })
        (resolved_repo s.config run)
        λ key.
          let payload = build_payload id run key s in
          after_dispatch id payload queue (pool.request_dispatch payload w) s

  unfoldable pub visit_head :
      (now : ℕ) (id : String) (queue : List String) → W → Scheduler W → Turn × Scheduler W
  unfolding dispatch_run
  visit_head now id queue w s =
      if_found (leaves, s) (get id s.store.runs)
        λ run.
          if status_is_queued run.status then dispatch_run now id queue run w s else (leaves, s)

  -- The loop, on what is left of the queue: a round takes the head off, or ends the loop.
  unfoldable pub drain : (now : ℕ) → List String → Scheduler W → Scheduler W
  unfolding visit_head
  drain now [] s = record s { queue = [] }
  drain now (id ∷ queue) s =
      if_found (record s { queue = id ∷ queue }) s.workers
        λ w.
          let (turn, next) = visit_head now id (id ∷ queue) w s in
          elim turn [ leaves ↦ drain now queue next | stays ↦ record next { queue = id ∷ queue } ]

  unfoldable pub dispatch_queued : (now : ℕ) → Scheduler W → Scheduler W
  unfolding drain
  dispatch_queued now s = if s.stopped then s else if_found s s.workers λ w. drain now s.queue s
