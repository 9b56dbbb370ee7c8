-- ===== src/Scheduler/Tickets/Callbacks.antt =====
-- The callbacks and timers make no second run of a ticket unfinished
-- (packages/orchestrator/src/scheduler.ts).
use brevi.Base.{
  ℕ, ◌+◌, ◌≡◌, refl, ◌∙◌, inl, inr, arith, String, Bool, true, false, not, ◌||◌, Option, none, some,
  List, if◌then◌else◌, if_found, if_found_ind, if_ind, ltb, get, delete, contains, Option-cases,
}
use brevi.Runs.{RunStatus, waiting, is_terminal, RunAttempt, Run, log_event}
use brevi.Store.{RunStore, update, end_attempt, close_last, append_event}
use brevi.Scheduler.{
  WorkerPool, Scheduler, clashes, update_quietly, or_store, status_is_waiting, retained_until_of,
  log_line, clear_resume, schedule_reap, Reply,
}
use brevi.Scheduler.Callbacks.{
  is_waiting_run, close_failed, discard_retained, requeue, schedule_resume, on_run_settled,
  on_run_rejected, marked_interrupted,
}
use brevi.Scheduler.Commands.{follow_up_start, result_pr, attached}
use brevi.Scheduler.Commands.Timers.{
  pushed_store, reap, maybe_reap, with_resume_at, push_out, try_resume,
}
use brevi.Scheduler.Tickets.{
  Revives, same-Revives, chain-Revives, quiet-Revives, event-Revives, update-Revives,
  update_quietly-Revives,
}
use brevi.Scheduler.Tickets.Dispatched.{
  Quiet, dispatch_queued-Quiet, discard_retained-Revives, requeue-Revives,
}
use brevi.Scheduler.Tickets.Unique.{IsUnique, quiet-IsUnique, revive-IsUnique}
use brevi.Scheduler.Tickets.Kept.{Unique, same}

module _ {W : Type 0} (pool : WorkerPool W) where
  pub follow_up_start-store :
      (id : String) (s : Scheduler W) → (follow_up_start pool id s).1.store ≡ s.store
  unfolding follow_up_start
  follow_up_start-store id s =
      if_found_ind R _ (get id s.store.runs) _ (λ n. refl)
        λ run e.
          if_ind R (contains id s.follow_ups || not (is_terminal run.status)) _ _ (λ h. refl)
            λ h.
              if_found_ind R _ (result_pr run) _ (λ n. refl)
                λ url f.
                  if_ind R (not s.config.github_connected) _ _ (λ g. refl)
                    λ g.
                      if_ind R (clashes run s.store || attached pool id s.workers) _ _ (λ q. refl)
                        (λ q. refl)
    where
      R : Option Reply × Scheduler W → Type 0
      R r = r.1.store ≡ s.store

  pub schedule_reap-store : (id : String) (s : Scheduler W) → (schedule_reap id s).store ≡ s.store
  unfolding schedule_reap
  schedule_reap-store id s =
      if_found_ind (λ (t : Scheduler W). t.store ≡ s.store) _
        (retained_until_of (get id s.store.runs)) _ (λ n. refl) (λ due e. refl)

  schedule_resume-store :
      (now : ℕ) (id : String) (s : Scheduler W) → (schedule_resume pool now id s).store ≡ s.store
  unfolding schedule_resume clear_resume
  schedule_resume-store now id s =
      if_ind Same s.stopped s _ (λ h. refl)
        λ h.
          if_found_ind Same (clear_resume id s) (get id s.store.runs) _ (λ n. refl)
            λ run e.
              if_ind Same (status_is_waiting run.status) _ (clear_resume id s) (λ g. refl)
                (λ g. refl)
    where
      Same : Scheduler W → Type 0
      Same t = t.store ≡ s.store

  pub on_run_settled-Quiet :
      (now : ℕ) (id : String) (s : Scheduler W) → Quiet pool s (on_run_settled pool now id s)
  unfolding on_run_settled
  on_run_settled-Quiet now id s =
      chain-Revives (dispatch_queued-Quiet pool now reaped) (rw reaped_store (same pool s))
    where
      resumed : Scheduler W
      resumed = if is_waiting_run (get id s.store.runs) then schedule_resume pool now id s else s

      reaped : Scheduler W
      reaped =
          if_found resumed (retained_until_of (get id s.store.runs))
            (λ due. schedule_reap id resumed)

      resumed_store : resumed.store ≡ s.store
      resumed_store =
          if_ind (λ (t : Scheduler W). t.store ≡ s.store) (is_waiting_run (get id s.store.runs)) _ s
            (λ h. schedule_resume-store now id s) (λ h. refl)

      reaped_store : reaped.store ≡ s.store
      reaped_store =
          if_found_ind (λ (t : Scheduler W). t.store ≡ s.store) resumed
            (retained_until_of (get id s.store.runs)) _ (λ n. resumed_store)
            (λ due e. schedule_reap-store id resumed ∙ resumed_store)

  pub on_run_rejected-Quiet :
      (now : ℕ) (id reason : String) (follow_up : Bool) (s : Scheduler W)
      → Quiet pool s (on_run_rejected pool now id reason follow_up s)
  unfolding on_run_rejected log_line
  on_run_rejected-Quiet now id reason follow_up s =
      if_ind (Quiet pool s) _ _ _ (λ h. event-Revives false "" (log_event id now reason) s.store)
        (λ h. event-Revives false "" (log_event id now reason) s.store)

  reap-Quiet :
      (now retry : ℕ) (id : String) (s : Scheduler W) → Quiet pool s (reap pool now retry id s)
  unfolding reap log_line
  reap-Quiet now retry id s =
      if_ind (Quiet pool s) (discard_retained pool id s).0 _ _
        (λ h.
          if_found_ind (Quiet pool s) _ (get id (discard_retained pool id s).1.store.runs) _
            (λ n. discarded) (λ run e. chain-Revives (event-Revives false "" _ _) discarded))
        (λ h. discarded)
    where
      discarded : Quiet pool s (discard_retained pool id s).1
      discarded = quiet-Revives false id "" _ _ (discard_retained-Revives pool false id s)

  pub maybe_reap-Quiet :
      (now retry : ℕ) (id : String) (s : Scheduler W)
      → Quiet pool s (maybe_reap pool now retry id s)
  unfolding maybe_reap
  maybe_reap-Quiet now retry id s =
      if_found_ind (Quiet pool s) fired (retained_until_of (get id s.store.runs)) _
        (λ n. same pool s)
        λ due e.
          if_ind (Quiet pool s) (ltb now due) (schedule_reap id fired) _
            (λ h. rw (schedule_reap-store id fired) (same pool s))
            (λ h. reap-Quiet now retry id fired)
    where
      fired : Scheduler W
      fired = record s { reap_timers = delete id s.reap_timers }

  push_out-Quiet :
      (now interval : ℕ) (logged : Bool) (id : String) (s : Scheduler W)
      → Quiet pool s (push_out pool now interval logged id s)
  unfolding push_out pushed_store
  push_out-Quiet now interval logged id s =
      rw
        (schedule_resume-store now id
          (record s { store = pushed_store now interval logged id s.store }))
        (if_ind (Revives false "" s.store) logged _ _
          (λ h. chain-Revives (event-Revives false "" _ _) updated) (λ h. updated))
    where
      updated :
          Revives false "" s.store (update_quietly id (with_resume_at (now + interval)) s.store)
      updated = quiet-Revives false id "" _ _ (
          update_quietly-Revives id (with_resume_at (now + interval)) s.store (λ r. refl)
            (λ r f t. t))

  -- A run that is unfinished already may be requeued.
  pub unfinished-Unique :
      (id : String) (run : Run) (a b : RunStore)
      → get id a.runs ≡ some run
      → is_terminal run.status ≡ false
      → Revives true id a b
      → IsUnique a
      → IsUnique b
  unfinished-Unique id run a b e h r u =
      revive-IsUnique id a b r (λ t k g f. u.one t id k (ground (arith, e, h, g)) f) u

  pub try_resume-Unique :
      (now interval : ℕ) (id : String) (ready : Option Bool) (s : Scheduler W)
      → Unique pool s
      → Unique pool (try_resume pool now interval id ready s)
  unfolding try_resume log_line is_terminal
  try_resume-Unique now interval id ready s u =
      if_ind (Unique pool) (s.stopped || not (is_waiting_run (get id s.store.runs))) fired _
        (λ h. u)
        λ h.
          if_found_ind (Unique pool) _ ready _
            (λ n. quiet-IsUnique "" _ _ (push_out-Quiet now interval false id fired) u)
            λ lifted e.
              if_ind (Unique pool) lifted _ _ (λ g. resumed (ground (arith, h)))
                (λ g. quiet-IsUnique "" _ _ (push_out-Quiet now interval true id fired) u)
    where
      fired : Scheduler W
      fired = record s { resume_timers = delete id s.resume_timers }

      waiting_unfinished :
          (status : RunStatus) → status_is_waiting status ≡ true → is_terminal status ≡ false
      waiting_unfinished waiting h = refl
      waiting_unfinished _ h = ground arith

      resumed :
          is_waiting_run (get id s.store.runs) ≡ true
          → Unique pool
              (requeue pool now id none (log_line (log_event id now "limit lifted") fired)).1
      resumed h = elim (Option-cases (get id s.store.runs)) [
        | inl n ↦ ground (arith, h, n)
        | inr (run, e) ↦
            unfinished-Unique id run s.store _ e
              (waiting_unfinished run.status (ground (arith, h, e)))
              (chain-Revives
                (requeue-Revives pool now id none
                  (log_line (log_event id now "limit lifted") fired))
                (event-Revives true id _ s.store))
              u
      ]

  pub marked-Revives :
      (now : ℕ) (id reason : String) (follow_up : Bool) (s : Scheduler W)
      → Revives true id s.store (marked_interrupted pool now id reason follow_up s).store
  unfolding end_attempt
  marked-Revives now id reason follow_up s =
      chain-Revives
        (if_found_ind R (some logged) (get id logged.runs) _ (λ n. same-Revives true id logged)
          λ run e.
            if_found_ind R (some logged) (close_last (close_failed reason) now run.attempts) _
              (λ n. same-Revives true id logged)
              λ closed f. closed_run closed (update id (with_attempts closed) logged) refl)
        (event-Revives true id _ s.store)
    where
      logged : RunStore
      logged = append_event (log_event id now reason) s.store

      R : Option RunStore → Type 0
      R o = Revives true id logged (or_store logged o)

      with_attempts : List RunAttempt → Run → Run
      with_attempts closed existing = record existing { attempts = closed }

      closed_run :
          (closed : List RunAttempt) (o : Option RunStore)
          → update id (with_attempts closed) logged ≡ o
          → R o
      closed_run closed none e = same-Revives true id logged
      closed_run closed (some next) e =
          update-Revives true id (with_attempts closed) logged next (λ r. refl) (λ r f t. refl) e
