-- ===== src/Scheduler/Dispatch/Ends.antt =====
-- How the loop of `#dispatchQueued` (packages/orchestrator/src/scheduler.ts) ends.
use brevi.Base.{
  ◌∷◌, ℕ, ◌≡◌, ◌≢◌, ◌⊎◌, refl, ap, sym, inl, inr, arith, String, true, false, none, some, List, [],
  ◌++◌, if_found_ind, if_ind, get,
}
use brevi.Runs.{Run}
use brevi.Scheduler.{
  DispatchOutcome, was_placed, not_placed, WorkerPool, Scheduler, status_is_queued,
}
use brevi.Scheduler.Dispatch.{
  resolved_repo, Turn, leaves, stays, note_reason, build_payload, after_dispatch, dispatch_run,
  visit_head, drain, dispatch_queued,
}

module _ {W : Type 0} (pool : WorkerPool W) where
  -- The loop ended at the run: in the state `at` that the loop had come to, the store has it, queued,
  -- under this id, and its payload was refused by the workers of that state; in the final state the
  -- workers are as the refusal left them, and the reason is noted on the runs still queued.
  pub record Refused (id : String) (rest : List String) (final : Scheduler W) : Type 0 where
    pub at : Scheduler W
    pub run : Run
    pub key : String
    pub w : W
    pub reason : String
    pub stored : get id at.store.runs ≡ some run
    pub queued : status_is_queued run.status ≡ true
    pub mapped : resolved_repo at.config run ≡ some key
    pub asked : at.workers ≡ some w
    pub refusal : (pool.request_dispatch (build_payload pool id run key at) w).0 ≡ not_placed reason
    pub workers_after :
        final.workers ≡ some (pool.request_dispatch (build_payload pool id run key at) w).1
    pub noted : final.store ≡ note_reason (some reason) (id ∷ rest) at.store

  -- What the loop leaves: the end of the queue that it was given, empty or headed by a run that was
  -- refused.
  abbrev pub EndsWell : List String → Scheduler W → Type 0
  EndsWell before final =
      ((taken : List String) × (before ≡ taken ++ final.queue))
      × ((final.queue ≡ [])
          ⊎ ((id : String) × (rest : List String) × (final.queue ≡ id ∷ rest)
              × Refused id rest final))

  abbrev Turned : (id : String) → (rest : List String) → Turn × Scheduler W → Type 0
  Turned id rest (leaves, s) = s.workers ≢ none
  Turned id rest (stays, s) = Refused id rest s

  abbrev IsStarted : Scheduler W → Type 0
  IsStarted s = s.workers ≢ none

  some_workers : {w : W} → some w ≢ none
  some_workers e = ground arith

  after_dispatch-Turned :
      (id : String) (run : Run) (key : String) (rest : List String) (w : W) (s : Scheduler W)
      (outcome : DispatchOutcome × W)
      → get id s.store.runs ≡ some run
      → status_is_queued run.status ≡ true
      → resolved_repo s.config run ≡ some key
      → s.workers ≡ some w
      → pool.request_dispatch (build_payload pool id run key s) w ≡ outcome
      → Turned id rest
          (after_dispatch pool id (build_payload pool id run key s) (id ∷ rest) outcome s)
  unfolding after_dispatch
  after_dispatch-Turned id run key rest w s (not_placed reason, w') found q mapped asked e =
      record {
        at = s;
        run = run;
        key = key;
        w = w;
        reason = reason;
        stored = found;
        queued = q;
        mapped = mapped;
        asked = asked;
        refusal = ap (λ r. r.0) e;
        workers_after = ap (λ r. some r.1) (sym e);
        noted = refl;
      }
  after_dispatch-Turned id run key rest w s (was_placed, w') found q mapped asked e = some_workers

  visit_head-Turned :
      (now : ℕ) (id : String) (rest : List String) (w : W) (s : Scheduler W)
      → s.workers ≡ some w
      → IsStarted s
      → Turned id rest (visit_head pool now id (id ∷ rest) w s)
  unfolding visit_head dispatch_run
  visit_head-Turned now id rest w s asked h =
      if_found_ind (Turned id rest) (leaves, s) (get id s.store.runs) _ (λ n. h)
        λ run e.
          if_ind (Turned id rest) (status_is_queued run.status) _ (leaves, s)
            (λ q.
              if_found_ind (Turned id rest) _ (resolved_repo s.config run) _ (λ n. h)
                (λ key f. after_dispatch-Turned id run key rest w s _ e q f asked refl))
            (λ q. h)

  abbrev EndsAfter : List String → Scheduler W → Type 0
  EndsAfter before t = EndsWell before t

  Refused-queue :
      (id : String) (rest : List String) (s : Scheduler W)
      → Refused id rest s
      → Refused id rest (record s { queue = id ∷ rest })
  Refused-queue id rest s h = record {
    at = h.at;
    run = h.run;
    key = h.key;
    w = h.w;
    reason = h.reason;
    stored = h.stored;
    queued = h.queued;
    mapped = h.mapped;
    asked = h.asked;
    refusal = h.refusal;
    workers_after = h.workers_after;
    noted = h.noted;
  }

  Turned-ends :
      (id : String) (queue : List String) (rest : Scheduler W → Scheduler W)
      (t : Turn × Scheduler W)
      → ((s : Scheduler W) → IsStarted s → EndsWell queue (rest s))
      → Turned id queue t
      → EndsAfter
          (id ∷ queue)
          (elim t.0 [ leaves ↦ rest t.1 | stays ↦ record t.1 { queue = id ∷ queue } ])
  Turned-ends id queue rest (leaves, s) ih h =
      let (taken, e) = (ih s h).0 in ((id ∷ taken, ap (λ q. id ∷ q) e), (ih s h).1)
  Turned-ends id queue rest (stays, s) ih h =
      (([], refl), inr (id, queue, refl, Refused-queue id queue s h))

  drain-ends :
      (now : ℕ) (queue : List String) (s : Scheduler W)
      → IsStarted s
      → EndsWell queue (drain pool now queue s)
  unfolding drain
  drain-ends now [] s h = (([], refl), inl refl)
  drain-ends now (id ∷ queue) s h =
      if_found_ind (EndsWell (id ∷ queue)) (record s { queue = id ∷ queue }) s.workers _
        (λ n. absurd (h n))
        λ w e.
          Turned-ends id queue (drain pool now queue) (visit_head pool now id (id ∷ queue) w s)
            (drain-ends now queue) (visit_head-Turned now id queue w s e h)

  -- Once the scheduler is started and not stopped, the dispatch of the queue ends, whatever the
  -- workers answer: it takes runs off the front in their order, and what it leaves is empty or headed
  -- by a run which, in the state that the loop had come to, the store had as queued and the workers
  -- refused when they were asked for its payload; the workers are then as the refusal left them, and
  -- its reason is noted on the runs that are left.
  pub dispatch_stops_at_refusal :
      (now : ℕ) (s : Scheduler W)
      → s.stopped ≡ false
      → s.workers ≢ none
      → EndsWell s.queue (dispatch_queued pool now s)
  unfolding dispatch_queued
  dispatch_stops_at_refusal now s h g =
      if_ind (EndsWell s.queue) s.stopped s _ (λ e. ground arith)
        λ e.
          if_found_ind (EndsWell s.queue) s s.workers _ (λ n. absurd (g n))
            (λ w f. drain-ends now s.queue s g)
