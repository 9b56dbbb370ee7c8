-- ===== src/Scheduler/Steps.antt =====
-- Histories of the scheduler (packages/orchestrator/src/scheduler.ts): its commands, its timers, what
-- the workers report and the callbacks of the registry, in any order.
use brevi.Base.{
  ◌∷◌, ℕ, ◌+◌, ◌≡◌, refl, inl, inr, arith, String, Bool, true, false, not, ◌||◌, Option, none, some,
  List, [], if_found, if_found_ind, if_ind, ltb, get, delete, eq_iff, Option-cases,
}
use brevi.Runs.{RunStatus, Ticket, PrState, Run, log_event}
use brevi.Store.{RunStore, append_event}
use brevi.Store.Disk.{KeepsId}
use brevi.Scheduler.{
  WorkerPool, Scheduler, status_is_queued, update_quietly, set_status_quietly, retained_until_of,
  log_line, schedule_reap,
}
use brevi.Scheduler.Places.{
  PoolLaws, IsPlacedWith, Requeues, event-Requeues, update_quietly-Requeues,
  set_status_quietly-Requeues, set_status_quietly-leaves, place-moves, unqueued_place,
}
use brevi.Scheduler.Dispatch.{dispatch_queued}
use brevi.Scheduler.Dispatch.Drained.{IsPlaced, dispatch_queued-place}
use brevi.Scheduler.Callbacks.{
  FoundPullRequest, is_waiting_run, on_run_settled, on_run_rejected, on_run_interrupted,
  discard_retained,
}
use brevi.Scheduler.Kept.{
  same_place, requeue-place, on_run_settled-place, on_run_rejected-place, on_run_interrupted-place,
  discard_retained-place, schedule_reap-place, schedule_resume-place,
}
use brevi.Scheduler.Commands.{
  queue_ticket, maybe_auto_queue, run_cancel, archive_run, unarchive_run, retry_run,
  follow_up_start, follow_up_end,
}
use brevi.Scheduler.Commands.Placed.{
  queue_ticket-place, maybe_auto_queue-place, run_cancel-place, archive_run-place,
  unarchive_run-place, retry_run-place, follow_up_start-place, follow_up_end-place,
}
use brevi.Scheduler.Commands.Timers.{
  reap, maybe_reap, push_out, with_resume_at, pushed_store, try_resume,
}

-- A worker's report does not make a run queued.
abbrev pub NeverQueues : (Run → Run) → Type 0
NeverQueues patch =
    (run : Run) → status_is_queued (patch run).status ≡ true → status_is_queued run.status ≡ true

-- `completed_with` is the end of a lease by the worker's completion; the other two ends of a lease are
-- a dispatch that was rejected and a lease that was lost.
pub data SchedulerStep : Type 0 where
  ticket_queued : (now : ℕ) (new_id ticket_id : String) → SchedulerStep
  ticket_polled : (now : ℕ) (new_id : String) → Ticket → SchedulerStep
  cancel_asked : (now : ℕ) → String → SchedulerStep
  archive_asked : (now : ℕ) → String → SchedulerStep
  unarchive_asked : String → SchedulerStep
  retry_asked : (now : ℕ) → String → SchedulerStep
  follow_up_asked : String → SchedulerStep
  follow_up_answered : (now : ℕ) → String → Option PrState → SchedulerStep
  capacity_changed : (now : ℕ) → SchedulerStep
  reap_due : (now retry : ℕ) → String → SchedulerStep
  resume_due : (now interval : ℕ) → String → (ready : Option Bool) → SchedulerStep
  reported : String → (patch : Run → Run) → KeepsId patch → NeverQueues patch → SchedulerStep
  completed_with :
      (now : ℕ) → String → (status : RunStatus) → status_is_queued status ≡ false → SchedulerStep
  dispatch_lost : (now : ℕ) → String → (reason : String) (follow_up : Bool) → SchedulerStep
  lease_lost :
      (now : ℕ)
      → String
      → (reason : String) (follow_up : Bool) (branch : String) → Option FoundPullRequest
      → SchedulerStep

module _ {W : Type 0} (pool : WorkerPool W) where
  -- The registry has settled the run's lease.
  unfoldable pub settle_in : String → Scheduler W → Scheduler W
  settle_in id s = record s { workers = if_found none s.workers (λ w. some (pool.settle id w)) }

  unfoldable pub scheduler_step : SchedulerStep → Scheduler W → Scheduler W
  unfolding queue_ticket maybe_auto_queue run_cancel archive_run unarchive_run retry_run
      follow_up_start follow_up_end dispatch_queued maybe_reap try_resume update_quietly
      set_status_quietly settle_in on_run_settled on_run_rejected on_run_interrupted
  scheduler_step (ticket_queued now new_id ticket_id) s =
      (queue_ticket pool now new_id ticket_id s).1
  scheduler_step (ticket_polled now new_id ticket) s = maybe_auto_queue pool now new_id ticket s
  scheduler_step (cancel_asked now id) s = (run_cancel pool now id s).1
  scheduler_step (archive_asked now id) s = (archive_run pool now id s).1
  scheduler_step (unarchive_asked id) s = (unarchive_run pool id s).1
  scheduler_step (retry_asked now id) s = (retry_run pool now id s).1
  scheduler_step (follow_up_asked id) s = (follow_up_start pool id s).1
  scheduler_step (follow_up_answered now id answer) s = (follow_up_end pool now id answer s).1
  scheduler_step (capacity_changed now) s = dispatch_queued pool now s
  scheduler_step (reap_due now retry id) s = maybe_reap pool now retry id s
  scheduler_step (resume_due now interval id ready) s = try_resume pool now interval id ready s
  scheduler_step (reported id patch k n) s = record s { store = update_quietly id patch s.store }
  scheduler_step (completed_with now id status n) s =
      on_run_settled pool now id
        (settle_in id (record s { store = set_status_quietly id status (λ run. run) now s.store }))
  scheduler_step (dispatch_lost now id reason follow_up) s =
      on_run_rejected pool now id reason follow_up (settle_in id s)
  scheduler_step (lease_lost now id reason follow_up branch found) s =
      on_run_interrupted pool now id reason follow_up branch found (settle_in id s)

  unfoldable pub scheduler_steps : List SchedulerStep → Scheduler W → Scheduler W
  unfolding scheduler_step
  scheduler_steps [] s = s
  scheduler_steps (step ∷ steps) s = scheduler_steps steps (scheduler_step step s)

module _ {W : Type 0} (pool : WorkerPool W) (laws : PoolLaws pool) where
  abbrev P : Scheduler W → Type 0
  P s = IsPlaced pool laws s

  settle_in-place :
      (id : String) (s : Scheduler W) → P s → IsPlacedWith pool (id ∷ s.queue) (settle_in pool id s)
  unfolding settle_in
  settle_in-place id s p = elim (Option-cases s.workers) [
    | inl n ↦ record {
      under_ids = p.under_ids;
      has_place = λ k q. ground (arith, p.has_place k, n);
    }
    | inr (w, e) ↦ record {
      under_ids = p.under_ids;
      has_place = λ k q. ground (arith, p.has_place k, e, laws.settle_releases id w k, eq_iff id k);
    }
  ]

  reap-place : (now retry : ℕ) (id : String) (s : Scheduler W) → P s → P (reap pool now retry id s)
  unfolding reap log_line append_event
  reap-place now retry id s p =
      if_ind P (discard_retained pool id s).0 _ _
        (λ h.
          if_found_ind P _ (get id (discard_retained pool id s).1.store.runs) _ (λ n. discarded)
            (λ run e. record { under_ids = discarded.under_ids; has_place = discarded.has_place }))
        (λ h. same_place pool laws _ _ _ refl refl discarded)
    where
      discarded : P (discard_retained pool id s).1
      discarded = let kept = discard_retained-place pool laws id s.queue s p in rw kept.1 kept.0

  maybe_reap-place :
      (now retry : ℕ) (id : String) (s : Scheduler W) → P s → P (maybe_reap pool now retry id s)
  unfolding maybe_reap
  maybe_reap-place now retry id s p =
      if_found_ind P fired (retained_until_of (get id s.store.runs)) _ (λ n. fired_place)
        λ due e.
          if_ind P (ltb now due) (schedule_reap id fired) _
            (λ h.
              let kept = schedule_reap-place pool laws id s.queue fired fired_place in
              rw kept.1 kept.0)
            (λ h. reap-place now retry id fired fired_place)
    where
      fired : Scheduler W
      fired = record s { reap_timers = delete id s.reap_timers }

      fired_place : P fired
      fired_place = same_place pool laws s.queue s fired refl refl p

  pushed_store-Requeues :
      (now interval : ℕ) (logged : Bool) (id : String) (store : RunStore)
      → Requeues false id store (pushed_store now interval logged id store)
  unfolding pushed_store
  pushed_store-Requeues now interval logged id store =
      if_ind (Requeues false id store) logged _ _ (λ h. event-Requeues false id _ store _ updated)
        (λ h. updated)
    where
      updated : Requeues false id store (update_quietly id (with_resume_at (now + interval)) store)
      updated =
          update_quietly-Requeues false id (with_resume_at (now + interval)) store (λ r. refl)
            (λ r h. h)

  push_out-place :
      (now interval : ℕ) (logged : Bool) (id : String) (s : Scheduler W)
      → P s
      → P (push_out pool now interval logged id s)
  unfolding push_out
  push_out-place now interval logged id s p = schedule_resume-place pool laws now id _ (
      place-moves pool false id s.queue s.queue s
        (record s { store = pushed_store now interval logged id s.store }) p
        (pushed_store-Requeues now interval logged id s.store) (λ k q h. ground (arith, h)))

  try_resume-place :
      (now interval : ℕ) (id : String) (ready : Option Bool) (s : Scheduler W)
      → P s
      → P (try_resume pool now interval id ready s)
  unfolding try_resume log_line append_event
  try_resume-place now interval id ready s p =
      if_ind P (s.stopped || not (is_waiting_run (get id s.store.runs))) fired _ (λ h. fired_place)
        λ h.
          if_found_ind P _ ready _ (λ n. push_out-place now interval false id fired fired_place)
            λ lifted e.
              if_ind P lifted _ _
                (λ g.
                  requeue-place pool laws now id none
                    (log_line (log_event id now "limit lifted") fired)
                    (record {
                      under_ids = fired_place.under_ids;
                      has_place = fired_place.has_place;
                    }))
                (λ g. push_out-place now interval true id fired fired_place)
    where
      fired : Scheduler W
      fired = record s { resume_timers = delete id s.resume_timers }

      fired_place : P fired
      fired_place = same_place pool laws s.queue s fired refl refl p

  reported-Requeues :
      (id : String) (patch : Run → Run)
      → KeepsId patch
      → NeverQueues patch
      → (store : RunStore) → Requeues false id store (update_quietly id patch store)
  reported-Requeues id patch k n store = update_quietly-Requeues false id patch store k n

  completed-place :
      (now : ℕ) (id : String) (status : RunStatus)
      → status_is_queued status ≡ false
      → (s : Scheduler W) → P s
      → P (
          settle_in pool id
            (record s { store = set_status_quietly id status (λ run. run) now s.store }))
  unfolding settle_in
  completed-place now id status n s p =
      unqueued_place pool id s.queue (settle_in pool id ended)
        (set_status_quietly-leaves id status (λ run. run) now s.store n)
        (settle_in-place id ended (
          place-moves pool false id s.queue s.queue s ended p
            (set_status_quietly-Requeues false id status (λ run. run) now s.store (λ r. refl)
              (λ h. ground (arith, h, n)))
            (λ j q h. ground (arith, h))))
    where
      ended : Scheduler W
      ended = record s { store = set_status_quietly id status (λ run. run) now s.store }

  pub scheduler_step-place :
      (step : SchedulerStep) (s : Scheduler W) → P s → P (scheduler_step pool step s)
  unfolding scheduler_step
  scheduler_step-place (ticket_queued now new_id ticket_id) s p =
      queue_ticket-place pool laws now new_id ticket_id s p
  scheduler_step-place (ticket_polled now new_id ticket) s p =
      maybe_auto_queue-place pool laws now new_id ticket s p
  scheduler_step-place (cancel_asked now id) s p = run_cancel-place pool laws now id s p
  scheduler_step-place (archive_asked now id) s p = archive_run-place pool laws now id s p
  scheduler_step-place (unarchive_asked id) s p = unarchive_run-place pool laws id s p
  scheduler_step-place (retry_asked now id) s p = retry_run-place pool laws now id s p
  scheduler_step-place (follow_up_asked id) s p = follow_up_start-place pool laws id s p
  scheduler_step-place (follow_up_answered now id answer) s p =
      follow_up_end-place pool laws now id answer s p
  scheduler_step-place (capacity_changed now) s p = dispatch_queued-place pool laws now s p
  scheduler_step-place (reap_due now retry id) s p = maybe_reap-place now retry id s p
  scheduler_step-place (resume_due now interval id ready) s p =
      try_resume-place now interval id ready s p
  scheduler_step-place (reported id patch k n) s p =
      place-moves pool false id s.queue s.queue s
        (record s { store = update_quietly id patch s.store }) p
        (reported-Requeues id patch k n s.store) (λ j q h. ground (arith, h))
  scheduler_step-place (completed_with now id status n) s p =
      on_run_settled-place pool laws now id _ (completed-place now id status n s p)
  scheduler_step-place (dispatch_lost now id reason follow_up) s p =
      on_run_rejected-place pool laws now id reason follow_up (settle_in pool id s)
        (settle_in-place id s p)
  scheduler_step-place (lease_lost now id reason follow_up branch found) s p =
      on_run_interrupted-place pool laws now id reason follow_up branch found (settle_in pool id s)
        (settle_in-place id s p)
