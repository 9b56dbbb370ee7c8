-- ===== src/Scheduler/Commands/Placed.antt =====
-- The commands of packages/orchestrator/src/scheduler.ts keep that every queued run is in the queue or
-- with a worker.
use brevi.Base.{
  ◌∷◌, ℕ, ◌≡◌, refl, arith, String, true, false, not, ◌&&◌, ◌||◌, Option, none, some, [], ◌++◌,
  if_found_ind, if_ind, get, delete, contains, remove_key, contains-append, contains-remove_key,
  eq_iff, get-put,
}
use brevi.Runs.{queued, cancelled, is_terminal, Ticket, PrState, Run}
use brevi.Registry.{CancelOutcome, sent_now, pending, unknown}
use brevi.Store.{
  update, set_status, append_event, persist, set_run, create_run, create_start, create_end, new_run,
}
use brevi.Scheduler.{
  WorkerPool, Scheduler, status_is_queued, status_is_waiting, join_queue, log_line, clear_resume,
  schedule_reap, Reply, returned, raised, not_found, invalid, conflict, other_error,
  active_or_queued, clashes,
}
use brevi.Scheduler.Places.{
  PoolLaws, IsPlacedWith, held, update-Requeues, set_status-Requeues, set_status-leaves,
  place-moves, contains-join_queue, unqueued_place, weaken_place, set_status-unknown,
}
use brevi.Scheduler.Dispatch.Drained.{IsPlaced, dispatch_queued-place}
use brevi.Scheduler.Kept.{same_place, requeue-place, schedule_reap-place}
use brevi.Scheduler.Commands.{
  at_end, at_end_unparked, with_archived, follow_up_shed, enqueue, queue_ticket, maybe_auto_queue,
  find_ticket, has_repo, cancel_at, set_cancelled, leave_queue, cancel_with, cancel_live,
  run_cancel, updated_reply, archive_run, unarchive_run, retry_run, release, start_follow_up,
  follow_up_start, follow_up_end, result_pr, attached,
}

module _ {W : Type 0} (pool : WorkerPool W) (laws : PoolLaws pool) where
  abbrev P : Scheduler W → Type 0
  P s = IsPlaced pool laws s

  abbrev Q : Reply × Scheduler W → Type 0
  Q r = IsPlaced pool laws r.1

  pub enqueue-place :
      (now : ℕ) (new_id : String) (ticket : Ticket) (s : Scheduler W)
      → P s
      → Q (enqueue pool now new_id ticket s)
  unfolding enqueue new_run create_run create_start create_end persist set_run append_event
  enqueue-place now new_id ticket s p = dispatch_queued-place pool laws now joined (record {
    under_ids = λ k r h.
        ground (arith, get-put k new_id run s.store.runs, eq_iff new_id k, p.under_ids k r);
    has_place = λ k q.
        ground (
          arith,
          get-put k new_id run s.store.runs,
          contains-append k new_id s.queue,
          p.has_place k,
        );
  })
    where
      run : Run
      run = new_run new_id now ticket

      joined : Scheduler W
      joined = record s { store = create_run run s.store; queue = s.queue ++ new_id ∷ [] }

  pub queue_ticket-place :
      (now : ℕ) (new_id ticket_id : String) (s : Scheduler W)
      → P s
      → Q (queue_ticket pool now new_id ticket_id s)
  unfolding queue_ticket
  queue_ticket-place now new_id ticket_id s p =
      if_found_ind Q (raised not_found, s) (find_ticket ticket_id s.tickets) _ (λ n. p)
        λ ticket e.
          if_ind Q (not (has_repo ticket) || not s.config.github_connected) (raised invalid, s) _
            (λ h. p)
            λ h.
              if_ind Q (active_or_queued ticket.id s.store) (raised conflict, s) _ (λ g. p)
                λ g. enqueue-place now new_id ticket s p

  pub maybe_auto_queue-place :
      (now : ℕ) (new_id : String) (ticket : Ticket) (s : Scheduler W)
      → P s
      → P (maybe_auto_queue pool now new_id ticket s)
  unfolding maybe_auto_queue
  maybe_auto_queue-place now new_id ticket s p =
      if_ind P (not (has_repo ticket) || not s.config.github_connected) s _ (λ h. p)
        λ h. if_ind P _ s _ (λ g. p) (λ g. enqueue-place now new_id ticket s p)

  set_cancelled-place :
      (now : ℕ) (id : String) (patch : Run → Run) (s : Scheduler W)
      → ((run : Run) → (patch run).id ≡ run.id)
      → IsPlacedWith pool (id ∷ s.queue) s
      → Q (set_cancelled pool now id patch s)
  unfolding set_cancelled
  set_cancelled-place now id patch s k p =
      if_found_ind Q (raised other_error, s) (set_status id cancelled patch now s.store) _
        (λ n.
          unqueued_place pool id s.queue s (set_status-unknown id cancelled patch now s.store n) p)
        λ store e.
          unqueued_place pool id s.queue (record s { store = store })
            (set_status-leaves id cancelled patch now s.store store refl e)
            (place-moves pool false id (id ∷ s.queue) (id ∷ s.queue) s (record s { store = store })
              p
              (set_status-Requeues false id cancelled patch now s.store store k (λ h. ground arith)
                e)
              (λ j q h. ground (arith, h)))

  leave_queue-place :
      (id : String) (s : Scheduler W)
      → P s
      → IsPlacedWith pool (id ∷ (leave_queue pool id s).queue) (leave_queue pool id s)
  unfolding leave_queue
  leave_queue-place id s p =
      if_ind (λ t. IsPlacedWith pool (id ∷ t.queue) t) (contains id s.follow_ups)
        (schedule_reap id left) left
        (λ h.
          let reaped = schedule_reap-place pool laws id (id ∷ left.queue) left left_place in
          rw reaped.1 reaped.0)
        (λ h. left_place)
    where
      left : Scheduler W
      left = record s { queue = remove_key id s.queue; follow_ups = remove_key id s.follow_ups }

      left_place : IsPlacedWith pool (id ∷ left.queue) left
      left_place = record {
        under_ids = p.under_ids;
        has_place = λ k q. ground (arith, p.has_place k, contains-remove_key k id s.queue);
      }

  cancel_at-held :
      (id k : String) (workers : Option W)
      → held pool k (cancel_at pool id workers).1 ≡ held pool k workers
  unfolding cancel_at
  cancel_at-held id k none = refl
  cancel_at-held id k (some w) = laws.cancel_keeps id w k

  cancel_with-place :
      (now : ℕ) (id : String) (run : Run) (outcome : CancelOutcome) (s : Scheduler W)
      → P s
      → Q (cancel_with pool now id run outcome s)
  unfolding cancel_with log_line append_event
  cancel_with-place now id run sent_now s p = p
  cancel_with-place now id run pending s p = record {
    under_ids = p.under_ids;
    has_place = p.has_place;
  }
  cancel_with-place now id run unknown s p =
      set_cancelled-place now id (at_end now) s (λ r. refl) (weaken_place pool id s.queue s p)

  cancel_live-place :
      (now : ℕ) (id : String) (run : Run) (s : Scheduler W)
      → P s
      → Q (cancel_live pool now id run s)
  unfolding cancel_live clear_resume
  cancel_live-place now id run s p =
      if_ind Q (status_is_waiting run.status) _ _
        (λ h.
          set_cancelled-place now id (at_end_unparked now) (clear_resume id s) (λ r. refl)
            (weaken_place pool id s.queue _
              (same_place pool laws s.queue s (clear_resume id s) refl refl p)))
        λ h.
          if_ind Q (status_is_queued run.status && contains id s.queue) _ _
            (λ g.
              set_cancelled-place now id (at_end now) (leave_queue pool id s) (λ r. refl)
                (leave_queue-place id s p))
            (λ g. cancel_with-place now id run (cancel_at pool id s.workers).0 asked asked_place)
    where
      asked : Scheduler W
      asked = record s { workers = (cancel_at pool id s.workers).1 }

      asked_place : P asked
      asked_place = record {
        under_ids = p.under_ids;
        has_place = λ k q. ground (arith, p.has_place k, cancel_at-held id k s.workers);
      }

  pub run_cancel-place :
      (now : ℕ) (id : String) (s : Scheduler W) → P s → Q (run_cancel pool now id s)
  unfolding run_cancel
  run_cancel-place now id s p =
      if_found_ind Q (raised not_found, s) (get id s.store.runs) _ (λ n. p)
        λ run e.
          if_ind Q (is_terminal run.status) (returned run, s) _ (λ h. p)
            (λ h. cancel_live-place now id run s p)

  updated_reply-place :
      (id : String) (at : Option ℕ) (s : Scheduler W)
      → P s
      → Q (updated_reply pool id (with_archived at) s)
  unfolding updated_reply
  updated_reply-place id at s p =
      if_found_ind Q (raised other_error, s) (update id (with_archived at) s.store) _ (λ n. p)
        λ store e.
          place-moves pool false id s.queue s.queue s (record s { store = store }) p
            (update-Requeues false id (with_archived at) s.store store (λ r. refl) (λ r h. h) e)
            (λ j q h. ground (arith, h))

  pub archive_run-place :
      (now : ℕ) (id : String) (s : Scheduler W) → P s → Q (archive_run pool now id s)
  unfolding archive_run
  archive_run-place now id s p =
      if_found_ind Q (raised not_found, s) (get id s.store.runs) _ (λ n. p)
        λ run e.
          if_ind Q (not (is_terminal run.status)) (raised conflict, s) _ (λ h. p)
            λ h.
              if_found_ind Q _ run.archived_at _ (λ n. updated_reply-place id (some now) s p)
                (λ at f. p)

  pub unarchive_run-place : (id : String) (s : Scheduler W) → P s → Q (unarchive_run pool id s)
  unfolding unarchive_run
  unarchive_run-place id s p =
      if_found_ind Q (raised not_found, s) (get id s.store.runs) _ (λ n. p)
        λ run e.
          if_found_ind Q (returned run, s) run.archived_at _ (λ n. p)
            (λ at f. updated_reply-place id none s p)

  pub retry_run-place :
      (now : ℕ) (id : String) (s : Scheduler W) → P s → Q (retry_run pool now id s)
  unfolding retry_run
  retry_run-place now id s p =
      if_found_ind Q (raised not_found, s) (get id s.store.runs) _ (λ n. p)
        λ run e.
          if_ind Q _ (raised conflict, s) _ (λ h. p) (λ h. requeue-place pool laws now id none s p)

  release-place : (id : String) (s : Scheduler W) → P s → P (release pool id s)
  unfolding release
  release-place id s p =
      let reaped =
        schedule_reap-place pool laws id s.queue
          (record s { follow_ups = remove_key id s.follow_ups })
          (same_place pool laws s.queue s (record s { follow_ups = remove_key id s.follow_ups })
            refl refl p) in
      rw reaped.1 reaped.0

  start_follow_up-place :
      (now : ℕ) (id : String) (s : Scheduler W) → P s → Q (start_follow_up pool now id s)
  unfolding start_follow_up
  start_follow_up-place now id s p =
      if_found_ind Q _ (set_status id queued (follow_up_shed now) now s.store) _
        (λ n. release-place id _ (same_place pool laws s.queue s cleared refl refl p))
        λ store e. dispatch_queued-place pool laws now _ (
          place-moves pool true id s.queue (join_queue id s.queue) s
            (record cleared { store = store; queue = join_queue id s.queue }) p
            (set_status-Requeues true id queued (follow_up_shed now) now s.store store (λ r. refl)
              (λ h. refl) e)
            λ k q h. ground (arith, h, contains-join_queue k id s.queue))
    where
      cleared : Scheduler W
      cleared = record s { reap_timers = delete id s.reap_timers }

  pub follow_up_start-place :
      (id : String) (s : Scheduler W) → P s → P (follow_up_start pool id s).1
  unfolding follow_up_start
  follow_up_start-place id s p =
      if_found_ind R _ (get id s.store.runs) _ (λ n. p)
        λ run e.
          if_ind R (contains id s.follow_ups || not (is_terminal run.status)) _ _ (λ h. p)
            λ h.
              if_found_ind R _ (result_pr run) _ (λ n. p)
                λ url f.
                  if_ind R (not s.config.github_connected) _ _ (λ g. p)
                    λ g.
                      if_ind R (clashes run s.store || attached pool id s.workers) _ _ (λ q. p)
                        (λ q. same_place pool laws s.queue s _ refl refl p)
    where
      R : Option Reply × Scheduler W → Type 0
      R r = P r.1

  pub follow_up_end-place :
      (now : ℕ) (id : String) (answer : Option PrState) (s : Scheduler W)
      → P s
      → Q (follow_up_end pool now id answer s)
  unfolding follow_up_end
  follow_up_end-place now id answer s p =
      if_found_ind Q _ answer _ (λ n. release-place id s p)
        λ state e.
          if_ind Q _ _ _ (λ h. start_follow_up-place now id s p) (λ h. release-place id s p)
