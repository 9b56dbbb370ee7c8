-- ===== src/Scheduler/Commands/Timers.antt =====
-- What fires by time in packages/orchestrator/src/scheduler.ts: `#maybeReap`, `#reap`,
-- `#tryResume` and `#autoArchive`.
use brevi.Base.{
  ◌∷◌, ℕ, ◌+◌, ◌*◌, String, Bool, true, false, not, ◌&&◌, ◌||◌, Option, none, some, List, [],
  if◌then◌else◌, if_found, get, put, delete, ltb, leb,
}
use brevi.Runs.{is_terminal, pr_merged, Run, log_event}
use brevi.Store.{RunStore, append_event}
use brevi.Scheduler.{
  WorkerPool, Scheduler, update_quietly, log_line, schedule_reap, retained_until_of,
}
use brevi.Scheduler.Callbacks.{discard_retained, requeue, schedule_resume, is_waiting_run}
use brevi.Scheduler.Commands.{with_archived}

abbrev pub with_resume_at : ℕ → Run → Run
with_resume_at at run = record run { resume_at = some at }

unfoldable pub pushed_store : (now interval : ℕ) (logged : Bool) → String → RunStore → RunStore
unfolding update_quietly append_event
pushed_store now interval logged id store =
    let updated = update_quietly id (with_resume_at (now + interval)) store in
    if logged then append_event (log_event id now "still limited") updated else updated

-- `REAP_RETRY_MS` is an argument.
module _ {W : Type 0} (pool : WorkerPool W) where
  -- `#reap`, and the timer set again when the disk could not be discarded.
  unfoldable pub reap : (now retry : ℕ) → String → Scheduler W → Scheduler W
  unfolding discard_retained log_line
  reap now retry id s =
      let (discarded, next) = discard_retained pool id s in
      if discarded
      then if_found next (get id next.store.runs)
          (λ run. log_line (log_event id now "retained sandbox expired and was removed") next)
      else record next { reap_timers = put id (now + retry) next.reap_timers }

  -- `#maybeReap`, from where the timer fires.
  unfoldable pub maybe_reap : (now retry : ℕ) → String → Scheduler W → Scheduler W
  unfolding schedule_reap reap
  maybe_reap now retry id s =
      let fired = record s { reap_timers = delete id s.reap_timers } in
      if_found fired (retained_until_of (get id s.store.runs))
        λ due. if ltb now due then schedule_reap id fired else reap now retry id fired

  -- The wait made longer; a probe that failed is not logged.
  unfoldable pub push_out : (now interval : ℕ) (logged : Bool) → String → Scheduler W → Scheduler W
  unfolding pushed_store schedule_resume
  push_out now interval logged id s =
      schedule_resume pool now id (record s { store = pushed_store now interval logged id s.store })

  -- `#tryResume` from where the timer fires, with the answer of the probe: none when it failed.
  unfoldable pub try_resume :
      (now interval : ℕ) → String → (ready : Option Bool) → Scheduler W → Scheduler W
  unfolding log_line requeue push_out
  try_resume now interval id ready s =
      let fired = record s { resume_timers = delete id s.resume_timers } in
      if s.stopped || not (is_waiting_run (get id s.store.runs))
      then fired
      else if_found (push_out now interval false id fired) ready λ lifted.
        if lifted
        then (requeue pool now id none (log_line (log_event id now "limit lifted") fired)).1
        else push_out now interval true id fired

-- The rules of `config.archive`, in days; 0 disables one.
pub record ArchiveRules : Type 0 where
  pub after_days : ℕ
  pub merged_after_days : ℕ
  pub closed_ticket_after_days : ℕ

abbrev pub day_ms : ℕ
day_ms = 86_400_000

-- `agedPast`. A time in the future is not past: there the difference of the source is negative.
abbrev pub aged_past : (now : ℕ) → Option ℕ → (days : ℕ) → Bool
aged_past now none days = false
aged_past now (some at) days = ltb 0 days && leb (at + days * day_ms) now

abbrev pub merge_time : Run → Option ℕ
merge_time run = elim run.pr_state [ some pr_merged ↦ run.pr_merged_at | _ ↦ none ]

unfoldable pub is_due : ArchiveRules → (now : ℕ) → Run → Bool
unfolding is_terminal
is_due rules now run =
    not (if_found false run.archived_at (λ at. true))
    && is_terminal run.status
    && (aged_past now (merge_time run) rules.merged_after_days
        || aged_past now run.ticket_closed_at rules.closed_ticket_after_days
        || aged_past now run.finished_at rules.after_days)

unfoldable pub archive_one : ArchiveRules → (now : ℕ) → String → RunStore → RunStore
unfolding is_due update_quietly append_event
archive_one rules now id store = if_found store (get id store.runs) λ run.
    if is_due rules now run
    then append_event (log_event id now "auto-archived")
        (update_quietly id (with_archived (some now)) store)
    else store

-- The last loop of `#autoArchive`, over the ids of the candidates, while the scheduler is not stopped.
unfoldable pub auto_archive : ArchiveRules → (now : ℕ) → List String → RunStore → RunStore
unfolding archive_one
auto_archive rules now [] store = store
auto_archive rules now (id ∷ ids) store =
    auto_archive rules now ids (archive_one rules now id store)
