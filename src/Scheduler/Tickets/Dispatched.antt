-- ===== src/Scheduler/Tickets/Dispatched.antt =====
-- `#dispatchQueued` and the requeueing of packages/orchestrator/src/scheduler.ts make no run
-- unfinished but the one requeued.
use brevi.Base.{
  ◌∷◌, ℕ, refl, String, Bool, true, false, Option, none, some, List, [], if_found_ind, if_ind, get,
}
use brevi.Runs.{queued, failed, is_terminal, log_event}
use brevi.Store.{RunStore, set_status, append_event}
use brevi.Scheduler.{
  DispatchPayload, DispatchOutcome, was_placed, not_placed, WorkerPool, Scheduler, status_is_queued,
  join_queue, retained_until_of, clear_resume, Reply, raised, other_error,
}
use brevi.Scheduler.Dispatch.{
  resolved_repo, same_reason, with_reason, note_one, note_reason, with_failure, fail_unmapped, Turn,
  leaves, stays, build_payload, after_dispatch, dispatch_run, visit_head, drain, dispatch_queued,
}
use brevi.Scheduler.Callbacks.{
  shed, not_retained, discard_from, discard_retained, enqueue_for_attempt, requeue,
}
use brevi.Scheduler.Tickets.{
  Revives, same-Revives, chain-Revives, quiet-Revives, event-Revives, update_quietly-Revives,
  set_status_quietly-Revives, set_status-Revives,
}

note_one-Revives :
    (id : String) (reason : Option String) (k : String) (store : RunStore)
    → Revives false id store (note_one reason k store)
unfolding note_one
note_one-Revives id reason k store =
    if_found_ind (Revives false id store) store (get k store.runs) _
      (λ n. same-Revives false id store)
      λ run e.
        if_ind (Revives false id store) (same_reason run.queue_reason reason) _ _
          (λ h. same-Revives false id store)
          (λ h.
            quiet-Revives false k id store _
              (update_quietly-Revives k (with_reason reason) store (λ r. refl) (λ r f t. t)))

note_reason-Revives :
    (id : String) (reason : Option String) (ids : List String) (store : RunStore)
    → Revives false id store (note_reason reason ids store)
unfolding note_reason
note_reason-Revives id reason [] store = same-Revives false id store
note_reason-Revives id reason (k ∷ ks) store =
    chain-Revives (note_reason-Revives id reason ks (note_one reason k store))
      (note_one-Revives id reason k store)

fail_unmapped-Revives :
    (id : String) (now : ℕ) (store : RunStore) → Revives false id store (fail_unmapped id now store)
unfolding fail_unmapped is_terminal
fail_unmapped-Revives id now store =
    chain-Revives
      (set_status_quietly-Revives id failed (with_failure text now) now
        (append_event (log_event id now text) store) (λ r. refl) refl)
      (event-Revives false id (log_event id now text) store)
  where
    text : String
    text = "ticket has no resolved repo mapping"

module _ {W : Type 0} (pool : WorkerPool W) where
  abbrev pub Quiet : Scheduler W → Scheduler W → Type 0
  Quiet s t = Revives false "" s.store t.store

  abbrev QuietTurn : Scheduler W → Turn × Scheduler W → Type 0
  QuietTurn s r = Quiet s r.1

  after_dispatch-Quiet :
      (id : String) (payload : DispatchPayload) (queue : List String)
      (outcome : DispatchOutcome × W) (s : Scheduler W)
      → QuietTurn s (after_dispatch pool id payload queue outcome s)
  unfolding after_dispatch
  after_dispatch-Quiet id payload queue (not_placed reason, w) s =
      note_reason-Revives "" (some reason) queue s.store
  after_dispatch-Quiet id payload queue (was_placed, w) s =
      if_ind (Revives false "" s.store) (same_reason payload.run.queue_reason none) _ _
        (λ h. same-Revives false "" s.store)
        (λ h.
          quiet-Revives false id "" s.store _
            (update_quietly-Revives id (with_reason none) s.store (λ r. refl) (λ r f t. t)))

  visit_head-Quiet :
      (now : ℕ) (id : String) (queue : List String) (w : W) (s : Scheduler W)
      → QuietTurn s (visit_head pool now id queue w s)
  unfolding visit_head dispatch_run
  visit_head-Quiet now id queue w s =
      if_found_ind (QuietTurn s) (leaves, s) (get id s.store.runs) _
        (λ n. same-Revives false "" s.store)
        λ run e.
          if_ind (QuietTurn s) (status_is_queued run.status) _ (leaves, s)
            (λ h.
              if_found_ind (QuietTurn s) _ (resolved_repo s.config run) _
                (λ n. quiet-Revives false id "" s.store _ (fail_unmapped-Revives id now s.store))
                (λ key f. after_dispatch-Quiet id (build_payload pool id run key s) queue _ s))
            (λ h. same-Revives false "" s.store)

  turn-Quiet :
      (id : String) (queue : List String) (rest : Scheduler W → Scheduler W) (s : Scheduler W)
      (r : Turn × Scheduler W)
      → ((t : Scheduler W) → Quiet t (rest t))
      → QuietTurn s r
      → Quiet s (elim r.0 [ leaves ↦ rest r.1 | stays ↦ record r.1 { queue = id ∷ queue } ])
  turn-Quiet id queue rest s (leaves, t) ih h = chain-Revives (ih t) h
  turn-Quiet id queue rest s (stays, t) ih h = h

  drain-Quiet : (now : ℕ) (queue : List String) (s : Scheduler W) → Quiet s (drain pool now queue s)
  unfolding drain
  drain-Quiet now [] s = same-Revives false "" s.store
  drain-Quiet now (id ∷ queue) s =
      if_found_ind (Quiet s) (record s { queue = id ∷ queue }) s.workers _
        (λ n. same-Revives false "" s.store)
        λ w e.
          turn-Quiet id queue (drain pool now queue) s (visit_head pool now id (id ∷ queue) w s)
            (drain-Quiet now queue) (visit_head-Quiet now id (id ∷ queue) w s)

  pub dispatch_queued-Quiet : (now : ℕ) (s : Scheduler W) → Quiet s (dispatch_queued pool now s)
  unfolding dispatch_queued
  dispatch_queued-Quiet now s =
      if_ind (Quiet s) s.stopped s _ (λ h. same-Revives false "" s.store)
        λ h.
          if_found_ind (Quiet s) s s.workers _ (λ n. same-Revives false "" s.store)
            (λ w e. drain-Quiet now s.queue s)

  abbrev pub ReplyRevives : (A : Type 0) → String → Scheduler W → A × Scheduler W → Type 0
  ReplyRevives A id s r = Revives true id s.store r.1.store

  pub discard_retained-Revives :
      (q : Bool) (id : String) (s : Scheduler W)
      → Revives q id s.store (discard_retained pool id s).1.store
  unfolding discard_retained
  discard_retained-Revives q id s =
      if_found_ind R _ (retained_until_of (get id s.store.runs)) _ (λ n. same-Revives q id s.store)
        λ due e.
          if_ind R (discard_from pool id s.workers).0 _ _
            (λ h.
              quiet-Revives q id id s.store _
                (update_quietly-Revives id not_retained s.store (λ r. refl) (λ r f t. t)))
            (λ h. same-Revives q id s.store)
    where
      R : Bool × Scheduler W → Type 0
      R r = Revives q id s.store r.1.store

  pub enqueue_for_attempt-Revives :
      (now : ℕ) (id : String) (reason : Option String) (s : Scheduler W)
      → ReplyRevives Reply id s (enqueue_for_attempt pool now id reason s)
  unfolding enqueue_for_attempt
  enqueue_for_attempt-Revives now id reason s =
      if_found_ind (ReplyRevives Reply id s) (raised other_error, s)
        (set_status id queued (shed now reason) now s.store) _ (λ n. same-Revives true id s.store)
        λ store e.
          chain-Revives
            (quiet-Revives true "" id _ _ (
              dispatch_queued-Quiet now
                (record s { store = store; queue = join_queue id s.queue })))
            (set_status-Revives true id queued (shed now reason) now s.store store (λ r. refl)
              (λ h. refl) e)

  pub requeue-Revives :
      (now : ℕ) (id : String) (reason : Option String) (s : Scheduler W)
      → ReplyRevives Reply id s (requeue pool now id reason s)
  unfolding requeue clear_resume
  requeue-Revives now id reason s =
      if_ind (ReplyRevives Reply id s) (discard_retained pool id (clear_resume id s)).0 _ _
        (λ h.
          chain-Revives (enqueue_for_attempt-Revives now id reason _)
            (discard_retained-Revives true id (clear_resume id s)))
        (λ h. discard_retained-Revives true id (clear_resume id s))
