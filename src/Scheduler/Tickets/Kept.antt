-- ===== src/Scheduler/Tickets/Kept.antt =====
-- Serialized commands keep at most one unfinished run of a ticket
-- (packages/orchestrator/src/scheduler.ts).
use brevi.Base.{
  ◌∷◌, ℕ, ◌≡◌, refl, arith, String, false, not, ◌&&◌, ◌||◌, Option, none, some, [], ◌++◌,
  if_found_ind, if_ind, get, contains,
}
use brevi.Runs.{cancelled, is_terminal, Ticket, Run}
use brevi.Registry.{CancelOutcome, sent_now, pending, unknown}
use brevi.Store.{update, set_status, create_run, new_run}
use brevi.Scheduler.{
  WorkerPool, Scheduler, active_or_queued, status_is_waiting, status_is_queued, log_line,
  clear_resume, Reply, returned, raised, not_found, invalid, conflict, other_error,
}
use brevi.Scheduler.Places.{UnderIds}
use brevi.Scheduler.Commands.{
  at_end, at_end_unparked, with_archived, find_ticket, has_repo, enqueue, queue_ticket,
  maybe_auto_queue, cancel_at, set_cancelled, leave_queue, cancel_with, cancel_live, run_cancel,
  updated_reply, archive_run, unarchive_run, retry_run,
}
use brevi.Scheduler.Commands.Guards.{leave_queue-store}
use brevi.Scheduler.Tickets.{
  Revives, same-Revives, chain-Revives, quiet-Revives, event-Revives, update-Revives,
  set_status-Revives,
}
use brevi.Scheduler.Tickets.Dispatched.{Quiet, dispatch_queued-Quiet, requeue-Revives}
use brevi.Scheduler.Tickets.Unique.{
  IsUnique, quiet-IsUnique, revive-IsUnique, no_clash-alone, inactive-none, created-IsUnique,
}

module _ {W : Type 0} (pool : WorkerPool W) where
  abbrev pub Unique : Scheduler W → Type 0
  Unique s = IsUnique s.store

  abbrev QuietReply : Scheduler W → Reply × Scheduler W → Type 0
  QuietReply s r = Revives false "" s.store r.1.store

  pub same : (s : Scheduler W) → Quiet pool s s
  same s = same-Revives false "" s.store

  enqueue-Unique :
      (now : ℕ) (new_id : String) (ticket : Ticket) (s : Scheduler W)
      → active_or_queued ticket.id s.store ≡ false
      → Unique s
      → Unique (enqueue pool now new_id ticket s).1
  unfolding enqueue new_run
  enqueue-Unique now new_id ticket s h u =
      quiet-IsUnique "" _ _
        (dispatch_queued-Quiet pool now
          (record s { store = create_run run s.store; queue = s.queue ++ new_id ∷ [] }))
        (created-IsUnique run s.store (λ k. inactive-none ticket.id k s.store h) u)
    where
      run : Run
      run = new_run new_id now ticket

  pub queue_ticket-Unique :
      (now : ℕ) (new_id ticket_id : String) (s : Scheduler W)
      → Unique s
      → Unique (queue_ticket pool now new_id ticket_id s).1
  unfolding queue_ticket
  queue_ticket-Unique now new_id ticket_id s u =
      if_found_ind Q (raised not_found, s) (find_ticket ticket_id s.tickets) _ (λ n. u)
        λ ticket e.
          if_ind Q (not (has_repo ticket) || not s.config.github_connected) (raised invalid, s) _
            (λ h. u)
            λ h.
              if_ind Q (active_or_queued ticket.id s.store) (raised conflict, s) _ (λ g. u)
                (λ g. enqueue-Unique now new_id ticket s g u)
    where
      Q : Reply × Scheduler W → Type 0
      Q r = Unique r.1

  pub maybe_auto_queue-Unique :
      (now : ℕ) (new_id : String) (ticket : Ticket) (s : Scheduler W)
      → Unique s
      → Unique (maybe_auto_queue pool now new_id ticket s)
  unfolding maybe_auto_queue
  maybe_auto_queue-Unique now new_id ticket s u =
      if_ind Unique (not (has_repo ticket) || not s.config.github_connected) s _ (λ h. u)
        λ h.
          if_ind Unique _ s _ (λ g. u)
            (λ g. enqueue-Unique now new_id ticket s (ground (arith, g)) u)

  set_cancelled-Quiet :
      (now : ℕ) (id : String) (patch : Run → Run) (s : Scheduler W)
      → ((run : Run) → (patch run).ticket ≡ run.ticket)
      → QuietReply s (set_cancelled pool now id patch s)
  unfolding set_cancelled is_terminal
  set_cancelled-Quiet now id patch s k =
      if_found_ind (QuietReply s) (raised other_error, s)
        (set_status id cancelled patch now s.store) _ (λ n. same s)
        λ store e.
          quiet-Revives false id "" s.store store
            (set_status-Revives false id cancelled patch now s.store store k (λ h. ground arith) e)

  cancel_with-Quiet :
      (now : ℕ) (id : String) (run : Run) (outcome : CancelOutcome) (s : Scheduler W)
      → QuietReply s (cancel_with pool now id run outcome s)
  unfolding cancel_with log_line
  cancel_with-Quiet now id run sent_now s = same s
  cancel_with-Quiet now id run pending s = event-Revives false "" _ s.store
  cancel_with-Quiet now id run unknown s = set_cancelled-Quiet now id (at_end now) s (λ r. refl)

  left : (id : String) (s : Scheduler W) → Quiet pool s (leave_queue pool id s)
  left id s = rw (leave_queue-store pool id s).0 (same s)

  pub run_cancel-Quiet :
      (now : ℕ) (id : String) (s : Scheduler W) → QuietReply s (run_cancel pool now id s)
  unfolding run_cancel cancel_live clear_resume
  run_cancel-Quiet now id s =
      if_found_ind (QuietReply s) (raised not_found, s) (get id s.store.runs) _ (λ n. same s)
        λ run e.
          if_ind (QuietReply s) (is_terminal run.status) (returned run, s) _ (λ h. same s)
            λ h.
              if_ind (QuietReply s) (status_is_waiting run.status) _ _
                (λ g.
                  set_cancelled-Quiet now id (at_end_unparked now) (clear_resume id s) (λ r. refl))
                λ g.
                  if_ind (QuietReply s) (status_is_queued run.status && contains id s.queue) _ _
                    (λ q.
                      chain-Revives
                        (set_cancelled-Quiet now id (at_end now) (leave_queue pool id s)
                          (λ r. refl))
                        (left id s))
                    (λ q.
                      cancel_with-Quiet now id run (cancel_at pool id s.workers).0
                        (record s { workers = (cancel_at pool id s.workers).1 }))

  updated_reply-Quiet :
      (id : String) (at : Option ℕ) (s : Scheduler W)
      → QuietReply s (updated_reply pool id (with_archived at) s)
  unfolding updated_reply
  updated_reply-Quiet id at s =
      if_found_ind (QuietReply s) (raised other_error, s) (update id (with_archived at) s.store) _
        (λ n. same s)
        λ store e. quiet-Revives false id "" s.store store (
          update-Revives false id (with_archived at) s.store store (λ r. refl)
            (λ r f t. ground (arith, t)) e)

  pub archive_run-Quiet :
      (now : ℕ) (id : String) (s : Scheduler W) → QuietReply s (archive_run pool now id s)
  unfolding archive_run
  archive_run-Quiet now id s =
      if_found_ind (QuietReply s) (raised not_found, s) (get id s.store.runs) _ (λ n. same s)
        λ run e.
          if_ind (QuietReply s) (not (is_terminal run.status)) (raised conflict, s) _ (λ h. same s)
            λ h.
              if_found_ind (QuietReply s) _ run.archived_at _
                (λ n. updated_reply-Quiet id (some now) s) (λ at f. same s)

  pub unarchive_run-Quiet : (id : String) (s : Scheduler W) → QuietReply s (unarchive_run pool id s)
  unfolding unarchive_run
  unarchive_run-Quiet id s =
      if_found_ind (QuietReply s) (raised not_found, s) (get id s.store.runs) _ (λ n. same s)
        λ run e.
          if_found_ind (QuietReply s) (returned run, s) run.archived_at _ (λ n. same s)
            (λ at f. updated_reply-Quiet id none s)

  pub retry_run-Unique :
      (now : ℕ) (id : String) (s : Scheduler W)
      → UnderIds s.store
      → Unique s
      → Unique (retry_run pool now id s).1
  unfolding retry_run
  retry_run-Unique now id s under u =
      if_found_ind Q (raised not_found, s) (get id s.store.runs) _ (λ n. u)
        λ run e.
          if_ind Q _ (raised conflict, s) _ (λ h. u)
            λ h.
              revive-IsUnique id s.store _ (requeue-Revives pool now id none s)
                (no_clash-alone id run s.store under e (ground (arith, h))) u
    where
      Q : Reply × Scheduler W → Type 0
      Q r = Unique r.1
