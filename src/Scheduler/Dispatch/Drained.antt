-- ===== src/Scheduler/Dispatch/Drained.antt =====
-- No queued run is lost by `#dispatchQueued` of packages/orchestrator/src/scheduler.ts.
use brevi.Base.{
  ◌∷◌, ℕ, ◌≡◌, refl, ap, ◌∙◌, arith, String, false, Option, none, some, List, [], if◌then◌else◌,
  if_found_ind, if_ind, get, eq_iff,
}
use brevi.Runs.{failed, Run, log_event}
use brevi.Store.{RunStore, append_event}
use brevi.Scheduler.{
  DispatchPayload, DispatchOutcome, was_placed, not_placed, WorkerPool, Scheduler, update_quietly,
  status_is_queued, is_queued_run,
}
use brevi.Scheduler.Places.{
  PoolLaws, IsPlacedWith, Requeues, is_queued_in, same-Requeues, event-Requeues,
  update_quietly-Requeues, set_status_quietly-Requeues, set_status_quietly-leaves, place-moves,
  chain-Requeues, relabel,
}
use brevi.Scheduler.Dispatch.{
  resolved_repo, same_reason, with_reason, note_one, note_reason, with_failure, fail_unmapped, Turn,
  leaves, stays, build_payload, after_dispatch, dispatch_run, visit_head, drain, dispatch_queued,
}

note_one-Requeues :
    (id : String) (reason : Option String) (k : String) (store : RunStore)
    → Requeues false id store (note_one reason k store)
unfolding note_one
note_one-Requeues id reason k store =
    if_found_ind (Requeues false id store) store (get k store.runs) _
      (λ n. same-Requeues false id store)
      λ run e.
        if_ind (Requeues false id store) (same_reason run.queue_reason reason) _ _
          (λ h. same-Requeues false id store)
          (λ h.
            relabel k id store _
              (update_quietly-Requeues false k (with_reason reason) store (λ r. refl) (λ r g. g)))

pub note_reason-Requeues :
    (id : String) (reason : Option String) (ids : List String) (store : RunStore)
    → Requeues false id store (note_reason reason ids store)
unfolding note_reason
note_reason-Requeues id reason [] store = same-Requeues false id store
note_reason-Requeues id reason (k ∷ ks) store =
    chain-Requeues (note_reason-Requeues id reason ks (note_one reason k store))
      (note_one-Requeues id reason k store)

fail_unmapped-Requeues :
    (id : String) (now : ℕ) (store : RunStore)
    → Requeues false id store (fail_unmapped id now store)
unfolding fail_unmapped
fail_unmapped-Requeues id now store =
    chain-Requeues
      (set_status_quietly-Requeues false id failed (with_failure text now) now
        (append_event (log_event id now text) store) (λ r. refl) (λ h. ground arith))
      (event-Requeues false id (log_event id now text) store store (same-Requeues false id store))
  where
    text : String
    text = "ticket has no resolved repo mapping"

-- It is queued no longer.
fail_unmapped-leaves :
    (id : String) (now : ℕ) (store : RunStore)
    → is_queued_in id (fail_unmapped id now store) ≡ false
unfolding fail_unmapped
fail_unmapped-leaves id now store =
    set_status_quietly-leaves id failed (with_failure "ticket has no resolved repo mapping" now) now
      _ refl

module _ {W : Type 0} (pool : WorkerPool W) (laws : PoolLaws pool) where
  -- What a round leaves: every queued run has its place in what is left of the queue.
  abbrev AfterTurn : (id : String) (queue : List String) → Turn × Scheduler W → Type 0
  AfterTurn id queue (leaves, s) = IsPlacedWith pool queue s
  AfterTurn id queue (stays, s) = IsPlacedWith pool (id ∷ queue) s

  abbrev clear_reason : String → Run → RunStore → RunStore
  clear_reason id run store =
      if same_reason run.queue_reason none
      then store
      else update_quietly id (with_reason none) store

  clear_reason-Requeues :
      (id : String) (run : Run) (store : RunStore)
      → Requeues false id store (clear_reason id run store)
  clear_reason-Requeues id run store =
      if_ind (Requeues false id store) (same_reason run.queue_reason none) _ _
        (λ h. same-Requeues false id store)
        (λ h. update_quietly-Requeues false id (with_reason none) store (λ r. refl) (λ r g. g))

  after_dispatch-place :
      (id : String) (payload : DispatchPayload) (queue : List String) (w : W) (s : Scheduler W)
      (outcome : DispatchOutcome × W)
      → s.workers ≡ some w
      → payload.run.id ≡ id
      → pool.request_dispatch payload w ≡ outcome
      → IsPlacedWith pool (id ∷ queue) s
      → AfterTurn id queue (after_dispatch pool id payload (id ∷ queue) outcome s)
  unfolding after_dispatch
  after_dispatch-place id payload queue w s (not_placed reason, w') e f g p =
      place-moves pool false id (id ∷ queue) (id ∷ queue) s _ p
        (note_reason-Requeues id (some reason) (id ∷ queue) s.store)
        λ k q h. ground (arith, laws.dispatch_keeps payload w k, e, g, h)
  after_dispatch-place id payload queue w s (was_placed, w') e f g p =
      place-moves pool false id (id ∷ queue) queue s _ p
        (clear_reason-Requeues id payload.run s.store)
        λ k q h. ground (
          arith,
          laws.dispatch_keeps payload w k,
          laws.dispatch_holds payload w,
          e,
          f,
          g,
          h,
          eq_iff id k,
        )

  dispatch_run-place :
      (now : ℕ) (id : String) (queue : List String) (run : Run) (w : W) (s : Scheduler W)
      → s.workers ≡ some w
      → get id s.store.runs ≡ some run
      → IsPlacedWith pool (id ∷ queue) s
      → AfterTurn id queue (dispatch_run pool now id (id ∷ queue) run w s)
  unfolding dispatch_run build_payload
  dispatch_run-place now id queue run w s e f p =
      if_found_ind (AfterTurn id queue) _ (resolved_repo s.config run) _ (λ n. failed_place)
        (λ key g.
          after_dispatch-place id (build_payload pool id run key s) queue w s _ e
            (p.under_ids id run f) refl p)
    where
      failed_place : IsPlacedWith pool queue (record s { store = fail_unmapped id now s.store })
      failed_place =
          place-moves pool false id (id ∷ queue) queue s _ p (fail_unmapped-Requeues id now s.store)
            λ k q h. ground (arith, h, q, eq_iff id k, fail_unmapped-leaves id now s.store)

  visit_head-place :
      (now : ℕ) (id : String) (queue : List String) (w : W) (s : Scheduler W)
      → s.workers ≡ some w
      → IsPlacedWith pool (id ∷ queue) s
      → AfterTurn id queue (visit_head pool now id (id ∷ queue) w s)
  unfolding visit_head
  visit_head-place now id queue w s e p =
      if_found_ind (AfterTurn id queue) (leaves, s) (get id s.store.runs) _
        (λ n. dropped (ap is_queued_run n))
        λ run f.
          if_ind (AfterTurn id queue) (status_is_queued run.status) _ _
            (λ h. dispatch_run-place now id queue run w s e f p)
            (λ h. dropped (ap is_queued_run f ∙ h))
    where
      dropped : is_queued_in id s.store ≡ false → IsPlacedWith pool queue s
      dropped n =
          place-moves pool false id (id ∷ queue) queue s s p (same-Requeues false id s.store)
            λ k q h. ground (arith, h, q, eq_iff id k)

  abbrev pub IsPlaced : Scheduler W → Type 0
  IsPlaced s = IsPlacedWith pool s.queue s

  turned :
      (id : String) (queue : List String) (rest : Scheduler W → Scheduler W)
      (t : Turn × Scheduler W)
      → ((s : Scheduler W) → IsPlacedWith pool queue s → IsPlaced (rest s))
      → AfterTurn id queue t
      → IsPlaced (elim t.0 [ leaves ↦ rest t.1 | stays ↦ record t.1 { queue = id ∷ queue } ])
  turned id queue rest (leaves, s) ih p = ih s p
  turned id queue rest (stays, s) ih p = record { under_ids = p.under_ids; has_place = p.has_place }

  drain-place :
      (now : ℕ) (queue : List String) (s : Scheduler W)
      → IsPlacedWith pool queue s
      → IsPlaced (drain pool now queue s)
  unfolding drain
  drain-place now [] s p = record { under_ids = p.under_ids; has_place = p.has_place }
  drain-place now (id ∷ queue) s p =
      if_found_ind IsPlaced (record s { queue = id ∷ queue }) s.workers _
        (λ n. record { under_ids = p.under_ids; has_place = p.has_place })
        λ w e.
          turned id queue (drain pool now queue) (visit_head pool now id (id ∷ queue) w s)
            (drain-place now queue) (visit_head-place now id queue w s e p)

  -- The dispatch of the queue keeps that every queued run is in the queue or held by a worker.
  pub dispatch_queued-place :
      (now : ℕ) (s : Scheduler W) → IsPlaced s → IsPlaced (dispatch_queued pool now s)
  unfolding dispatch_queued
  dispatch_queued-place now s p =
      if_ind IsPlaced s.stopped s _ (λ h. p)
        (λ h. if_found_ind IsPlaced s s.workers _ (λ n. p) (λ w e. drain-place now s.queue s p))
