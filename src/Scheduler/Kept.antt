-- ===== src/Scheduler/Kept.antt =====
-- The callbacks and commands of packages/orchestrator/src/scheduler.ts keep that every queued run is
-- in the queue or with a worker.
use brevi.Base.{
  ◌∷◌, ℕ, ◌≡◌, refl, ap, ◌∙◌, arith, String, Bool, true, false, not, ◌&&◌, Option, none, some, List,
  if◌then◌else◌, if_found_ind, if_ind, get, delete, contains, eq_iff,
}
use brevi.Runs.{RunStatus, queued, completed, is_terminal, RunAttempt, Run, log_event}
use brevi.Store.{RunStore, update, set_status, end_attempt, append_event, close_last}
use brevi.Scheduler.{
  WorkerPool, Scheduler, or_store, update_quietly, set_status_quietly, status_is_queued,
  is_queued_run, status_is_waiting, join_queue, log_line, clear_resume, schedule_reap,
  retained_until_of, Reply, raised, other_error,
}
use brevi.Scheduler.Places.{
  PoolLaws, IsPlacedWith, Requeues, held, update-Requeues, same-Requeues, event-Requeues,
  set_status-Requeues, or_store-Requeues, update_quietly-Requeues, set_status_quietly-Requeues,
  set_status_quietly-leaves, place-moves, chain-Requeues, contains-join_queue, set_status-unknown,
  unqueued_place, weaken_place,
}
use brevi.Scheduler.Dispatch.Drained.{IsPlaced, dispatch_queued-place}
use brevi.Scheduler.Callbacks.{
  shed, not_retained, close_failed, FoundPullRequest, adopted_pull_request, with_adopted,
  discard_from, discard_retained, enqueue_for_attempt, requeue, schedule_resume, on_run_settled,
  on_run_rejected, is_waiting_run, requeue_interrupted, adopt, marked_interrupted,
  on_run_interrupted,
}

module _ {W : Type 0} (pool : WorkerPool W) (laws : PoolLaws pool) where
  abbrev pub After : (A : Type 0) → A × Scheduler W → Type 0
  After A r = IsPlaced pool laws r.1

  -- Other fields than the store and the workers do not matter.
  pub same_place :
      (queue : List String) (s s' : Scheduler W)
      → s.store ≡ s'.store
      → s.workers ≡ s'.workers
      → IsPlacedWith pool queue s
      → IsPlacedWith pool queue s'
  same_place queue s s' e g p = record {
    under_ids = rw (← e) p.under_ids;
    has_place = λ k h. ground (arith, p.has_place k, e, g, h);
  }

  discard_from-held :
      (id k : String) (workers : Option W)
      → held pool k (discard_from pool id workers).1 ≡ held pool k workers
  unfolding discard_from
  discard_from-held id k none = refl
  discard_from-held id k (some w) = laws.discard_keeps id w k

  -- Discarding a disk moves no run.
  pub discard_retained-place :
      (id : String) (queue : List String) (s : Scheduler W)
      → IsPlacedWith pool queue s
      → IsPlacedWith pool queue (discard_retained pool id s).1
        × ((discard_retained pool id s).1.queue ≡ s.queue)
  unfolding discard_retained
  discard_retained-place id queue s p =
      if_found_ind Kept _ (retained_until_of (get id s.store.runs)) _
        (λ n. (same_place queue s _ refl refl p, refl))
        λ due e.
          if_ind Kept (discard_from pool id s.workers).0 _ _
            (λ h. (
              moved (update_quietly id not_retained s.store)
                  (update_quietly-Requeues false id not_retained s.store (λ r. refl) (λ r g. g)),
              refl,
            ))
            (λ h. (moved s.store (same-Requeues false id s.store), refl))
    where
      Kept : Bool × Scheduler W → Type 0
      Kept r = IsPlacedWith pool queue r.1 × (r.1.queue ≡ s.queue)

      moved :
          (store : RunStore)
          → Requeues false id s.store store
          → IsPlacedWith pool queue (record s {
            reap_timers = delete id s.reap_timers;
            workers = (discard_from pool id s.workers).1;
            store = store;
          })
      moved store r =
          place-moves pool false id queue queue s _ p r
            λ k q h. ground (arith, h, discard_from-held id k s.workers)

  -- It has a place again, wherever the run was.
  pub enqueue_for_attempt-place :
      (now : ℕ) (id : String) (reason : Option String) (s : Scheduler W)
      → IsPlacedWith pool (id ∷ s.queue) s
      → IsPlaced pool laws (enqueue_for_attempt pool now id reason s).1
  unfolding enqueue_for_attempt
  enqueue_for_attempt-place now id reason s p =
      if_found_ind (After Reply) (raised other_error, s)
        (set_status id queued (shed now reason) now s.store) _
        (λ n.
          unqueued_place pool id s.queue s
            (set_status-unknown id queued (shed now reason) now s.store n) p)
        λ store e. dispatch_queued-place pool laws now _ (
          place-moves pool true id (id ∷ s.queue) (join_queue id s.queue) s
            (record s { store = store; queue = join_queue id s.queue }) p
            (set_status-Requeues true id queued (shed now reason) now s.store store (λ r. refl)
              (λ h. refl) e)
            λ k q h. ground (arith, h, contains-join_queue k id s.queue))

  pub requeue-place :
      (now : ℕ) (id : String) (reason : Option String) (s : Scheduler W)
      → IsPlaced pool laws s
      → IsPlaced pool laws (requeue pool now id reason s).1
  unfolding requeue clear_resume
  requeue-place now id reason s p =
      if_ind (After Reply) (discard_retained pool id (clear_resume id s)).0 _ _
        (λ h. enqueue_for_attempt-place now id reason _ (weaken_place pool id _ _ kept)) (λ h. kept)
    where
      kept : IsPlaced pool laws (discard_retained pool id (clear_resume id s)).1
      kept =
          let discarded =
            discard_retained-place id s.queue (clear_resume id s)
              (same_place s.queue s (clear_resume id s) refl refl p) in
          rw discarded.1 discarded.0

  pub schedule_reap-place :
      (id : String) (queue : List String) (s : Scheduler W)
      → IsPlacedWith pool queue s
      → IsPlacedWith pool queue (schedule_reap id s) × ((schedule_reap id s).queue ≡ s.queue)
  unfolding schedule_reap
  schedule_reap-place id queue s p =
      if_found_ind Kept _ (retained_until_of (get id s.store.runs)) _
        (λ n. (same_place queue s _ refl refl p, refl))
        (λ due e. (same_place queue s _ refl refl p, refl))
    where
      Kept : Scheduler W → Type 0
      Kept t = IsPlacedWith pool queue t × (t.queue ≡ s.queue)

  pub schedule_resume-place :
      (now : ℕ) (id : String) (s : Scheduler W)
      → IsPlaced pool laws s
      → IsPlaced pool laws (schedule_resume pool now id s)
  unfolding schedule_resume clear_resume
  schedule_resume-place now id s p =
      if_ind (IsPlaced pool laws) s.stopped s _ (λ h. p)
        λ h.
          if_found_ind (IsPlaced pool laws) (clear_resume id s) (get id s.store.runs) _
            (λ n. cleared)
            λ run e.
              if_ind (IsPlaced pool laws) (status_is_waiting run.status) _ (clear_resume id s)
                (λ g. same_place s.queue s _ refl refl p) (λ g. cleared)
    where
      cleared : IsPlaced pool laws (clear_resume id s)
      cleared = same_place s.queue s (clear_resume id s) refl refl p

  pub on_run_settled-place :
      (now : ℕ) (id : String) (s : Scheduler W)
      → IsPlaced pool laws s
      → IsPlaced pool laws (on_run_settled pool now id s)
  unfolding on_run_settled
  on_run_settled-place now id s p = dispatch_queued-place pool laws now _ (
      if_found_ind (IsPlaced pool laws) _ (retained_until_of (get id s.store.runs)) _ (λ n. resumed)
        (λ due e. let reaped = schedule_reap-place id _ _ resumed in rw reaped.1 reaped.0))
    where
      resumed :
          IsPlaced pool laws
            (if is_waiting_run (get id s.store.runs) then schedule_resume pool now id s else s)
      resumed =
          if_ind (IsPlaced pool laws) (is_waiting_run (get id s.store.runs)) _ s
            (λ h. schedule_resume-place now id s p) (λ h. p)

  -- Called when the lease of a dispatched run is gone, wherever the run was.
  pub on_run_rejected-place :
      (now : ℕ) (id reason : String) (follow_up : Bool) (s : Scheduler W)
      → IsPlacedWith pool (id ∷ s.queue) s
      → IsPlaced pool laws (on_run_rejected pool now id reason follow_up s)
  unfolding on_run_rejected log_line append_event
  on_run_rejected-place now id reason follow_up s p =
      if_ind (IsPlaced pool laws) (is_queued_run (get id s.store.runs) && not (contains id s.queue))
        _ _
        (λ h. record {
          under_ids = p.under_ids;
          has_place = λ k q. ground (arith, p.has_place k, q);
        })
        (λ h. record {
          under_ids = p.under_ids;
          has_place = λ k q. ground (arith, p.has_place k, q, h, eq_iff id k);
        })

  end_attempt_quietly-Requeues :
      (id reason : String) (now : ℕ) (store : RunStore)
      → Requeues false id store (or_store store (end_attempt id (close_failed reason) now store))
  unfolding end_attempt
  end_attempt_quietly-Requeues id reason now store =
      if_found_ind P (some store) (get id store.runs) _ (λ n. same-Requeues false id store)
        λ run e.
          if_found_ind P (some store) (close_last (close_failed reason) now run.attempts) _
            (λ n. same-Requeues false id store)
            λ closed f.
              or_store-Requeues false id store (update id (with_attempts closed) store) λ next g.
                update-Requeues false id (with_attempts closed) store next (λ r. refl) (λ r h. h) g
    where
      P : Option RunStore → Type 0
      P o = Requeues false id store (or_store store o)

      with_attempts : List RunAttempt → Run → Run
      with_attempts closed existing = record existing { attempts = closed }

  marked-place :
      (now : ℕ) (id reason : String) (follow_up : Bool) (s : Scheduler W)
      → IsPlacedWith pool (id ∷ s.queue) s
      → IsPlacedWith pool (id ∷ s.queue) (marked_interrupted pool now id reason follow_up s)
  marked-place now id reason follow_up s p =
      place-moves pool false id (id ∷ s.queue) (id ∷ s.queue) s _ p
        (chain-Requeues
          (end_attempt_quietly-Requeues id reason now
            (append_event (log_event id now reason) s.store))
          (event-Requeues false id (log_event id now reason) s.store s.store
            (same-Requeues false id s.store)))
        λ k q h. ground (arith, h)

  adopt-place :
      (now : ℕ) (id branch : String) (pr : FoundPullRequest) (s : Scheduler W)
      → IsPlacedWith pool (id ∷ s.queue) s
      → IsPlaced pool laws (adopt pool now id branch pr s)
  unfolding adopt
  adopt-place now id branch pr s p = on_run_settled-place now id _ (
      place-moves pool false id (id ∷ s.queue) s.queue s
        (record s {
          store = set_status_quietly id completed (with_adopted now branch pr) now s.store;
        })
        p
        (set_status_quietly-Requeues false id completed (with_adopted now branch pr) now s.store
          (λ r. refl) (λ h. ground arith))
        λ k q h. ground (
          arith,
          h,
          q,
          eq_iff id k,
          set_status_quietly-leaves id completed (with_adopted now branch pr) now s.store refl,
        ))

  requeue_interrupted-place :
      (now : ℕ) (id reason : String) (s : Scheduler W)
      → IsPlacedWith pool (id ∷ s.queue) s
      → IsPlaced pool laws (requeue_interrupted pool now id reason s)
  unfolding requeue_interrupted clear_resume
  requeue_interrupted-place now id reason s p =
      let discarded = discard_retained-place id (id ∷ s.queue) s p in
      enqueue_for_attempt-place now id (some reason)
        (clear_resume id (discard_retained pool id s).1)
        (rw discarded.1 (same_place (id ∷ s.queue) _ _ refl refl discarded.0))

  pub on_run_interrupted-place :
      (now : ℕ) (id reason : String) (follow_up : Bool) (branch : String)
      (found : Option FoundPullRequest) (s : Scheduler W)
      → IsPlacedWith pool (id ∷ s.queue) s
      → IsPlaced pool laws (on_run_interrupted pool now id reason follow_up branch found s)
  unfolding on_run_interrupted is_terminal
  on_run_interrupted-place now id reason follow_up branch found s p =
      if_found_ind (IsPlaced pool laws) s (get id s.store.runs) _
        (λ n. unqueued_place pool id s.queue s (ap is_queued_run n) p)
        λ run e.
          if_ind (IsPlaced pool laws) (is_terminal run.status) s _
            (λ h.
              unqueued_place pool id s.queue s (ap is_queued_run e ∙ terminal_unqueued run.status h)
                p)
            λ h. decided (adopted_pull_request s.config run follow_up found)
    where
      terminal_unqueued :
          (status : RunStatus) → is_terminal status ≡ true → status_is_queued status ≡ false
      terminal_unqueued queued h = ground arith
      terminal_unqueued _ h = ground arith

      decided :
          (o : Option FoundPullRequest)
          → IsPlaced pool laws (elim o [
            | some pr ↦
                adopt pool now id branch pr (marked_interrupted pool now id reason follow_up s)
            | none ↦
                requeue_interrupted pool now id reason
                  (marked_interrupted pool now id reason follow_up s)
          ])
      decided none =
          requeue_interrupted-place now id reason _ (marked-place now id reason follow_up s p)
      decided (some pr) = adopt-place now id branch pr _ (marked-place now id reason follow_up s p)
