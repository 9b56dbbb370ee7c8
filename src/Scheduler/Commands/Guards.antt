-- ===== src/Scheduler/Commands/Guards.antt =====
-- What the guards of the commands of packages/orchestrator/src/scheduler.ts let through.
use brevi.Base.{
  ℕ, ◌≡◌, ◌≢◌, refl, ap, ◌∙◌, inl, inr, arith, String, Bool, true, false, not, ◌&&◌, Option, none,
  some, List, [], ◌∷◌, Dict, Bool-cases, if_found, if_found_ind, if_ind, get, put, delete, ◌++◌,
  contains, remove_key, contains-remove_key, str_eq, eq_iff, get-put, Option-cases,
}
use brevi.Runs.{RunStatus, queued, cancelled, is_terminal, pr_open, Ticket, Run, status_event}
use brevi.Registry.{CancelOutcome, sent_now, pending, unknown}
use brevi.Store.{
  RunStore, run_values, update, set_status, append_event, log_after, persist, set_run, create_start,
  create_end, new_run,
}
use brevi.Scheduler.{
  WorkerPool, Scheduler, status_is_queued, status_is_waiting, clear_resume, schedule_reap,
  retained_until_of, Reply, returned, raised, not_found, other_error, active_or_queued,
}
use brevi.Scheduler.{clashes, any_run, join_queue}
use brevi.Scheduler.Dispatch.{dispatch_queued}
use brevi.Scheduler.Commands.{
  reply_of, follow_up_end, start_follow_up, follow_up_shed, still_eligible, at_end, at_end_unparked,
  cancel_at, set_cancelled, leave_queue, cancel_with, cancel_live, run_cancel,
}

abbrev pub status_in : String → RunStore → Option RunStatus
status_in id store = if_found none (get id store.runs) (λ run. some run.status)

-- Two requests for one ticket of packages/orchestrator/src/scheduler.ts (`queueTicket`), the second of
-- which is checked while the first waits for the disk.
unfoldable pub two_requests : (now : ℕ) (a b : String) → Ticket → RunStore → RunStore
unfolding new_run create_start create_end
two_requests now a b ticket store =
    let first = new_run a now ticket in
    let second = new_run b now ticket in
    create_end second (create_end first (create_start second (create_start first store)))

-- A run that is being created is not yet seen by the check for an active run of its ticket: a second
-- request for the ticket passes the check that the first one passed, and then both are queued runs
-- of the ticket.
pub second_request_passes :
    (now : ℕ) (a b : String) (ticket : Ticket) (store : RunStore)
    → str_eq a b ≡ false
    → (active_or_queued ticket.id (create_start (new_run a now ticket) store)
        ≡ active_or_queued ticket.id store)
      × (get a (two_requests now a b ticket store).runs ≡ some (new_run a now ticket))
      × (get b (two_requests now a b ticket store).runs ≡ some (new_run b now ticket))
unfolding two_requests new_run create_start create_end persist set_run append_event active_or_queued
second_request_passes now a b ticket store h = (
  refl,
  ground (
    arith,
    get-put a b second (put a first store.runs),
    get-put a a first store.runs,
    eq_iff a b,
    eq_iff b a,
    eq_iff a a,
    h,
  ),
  ground (arith, get-put b b second (put a first store.runs), eq_iff b b),
)
  where
    first : Run
    first = new_run a now ticket

    second : Run
    second = new_run b now ticket

set_status-sets :
    (id : String) (status : RunStatus) (patch : Run → Run) (now : ℕ) (store next : RunStore)
    → set_status id status patch now store ≡ some next
    → status_in id next ≡ some status
unfolding set_status update log_after append_event persist set_run
set_status-sets id status patch now store next e = elim (Option-cases (get id store.runs)) [
  | inl n ↦ ground (arith, e, n)
  | inr (run, f) ↦
      let same : append_event (status_event id now status) (
            persist (record (patch run) { status = status })
              (set_run id (record (patch run) { status = status }) store))
          ≡ next =
        ground (arith, e, f) in
      rw (← same) (
        ground
          (arith, get-put id id (record (patch run) { status = status }) store.runs, eq_iff id id))
]

set_status-known :
    (id : String) (status : RunStatus) (patch : Run → Run) (now : ℕ) (run : Run) (store : RunStore)
    → get id store.runs ≡ some run
    → set_status id status patch now store ≢ none
unfolding set_status update log_after
set_status-known id status patch now run store e n = ground (arith, n, e)

module _ {W : Type 0} (pool : WorkerPool W) where
  -- The run is over, and the queue holds it only if it did so before and was not queued.
  pub record CancelledIn (id : String) (queue : List String) (s : Scheduler W) : Type 0 where
    pub status : status_in id s.store ≡ some cancelled
    pub queue_is : s.queue ≡ queue

  set_cancelled-lem :
      (now : ℕ) (id : String) (patch : Run → Run) (run : Run) (s : Scheduler W)
      → get id s.store.runs ≡ some run
      → CancelledIn id s.queue (set_cancelled pool now id patch s).1
  unfolding set_cancelled
  set_cancelled-lem now id patch run s e =
      if_found_ind (λ (r : Reply × Scheduler W). CancelledIn id s.queue r.1) (raised other_error, s)
        (set_status id cancelled patch now s.store) _
        (λ n. absurd (set_status-known id cancelled patch now run s.store e n))
        (λ store f. record {
          status = set_status-sets id cancelled patch now s.store store f;
          queue_is = refl;
        })

  pub leave_queue-store :
      (id : String) (s : Scheduler W)
      → ((leave_queue pool id s).store ≡ s.store)
        × ((leave_queue pool id s).queue ≡ remove_key id s.queue)
  unfolding leave_queue schedule_reap
  leave_queue-store id s =
      if_ind Same (contains id s.follow_ups) _ _
        (λ h.
          if_found_ind Same _ (retained_until_of (get id s.store.runs)) _ (λ n. (refl, refl))
            (λ due e. (refl, refl)))
        (λ h. (refl, refl))
    where
      Same : Scheduler W → Type 0
      Same t = (t.store ≡ s.store) × (t.queue ≡ remove_key id s.queue)

  abbrev IsOver : (id : String) → Run → Reply × Scheduler W → Type 0
  IsOver id run r =
      (status_in id r.1.store ≡ some cancelled)
      × (status_is_queued run.status ≡ true → contains id r.1.queue ≡ false)

  -- Cancelling an unfinished run that no worker holds ends it: it is cancelled in the store, and a
  -- queued one is out of the queue, whether it was waiting for a limit, queued, or left over.
  pub cancel_without_worker :
      (now : ℕ) (id : String) (run : Run) (s : Scheduler W)
      → get id s.store.runs ≡ some run
      → is_terminal run.status ≡ false
      → (cancel_at pool id s.workers).0 ≡ unknown
      → (status_in id (run_cancel pool now id s).1.store ≡ some cancelled)
        × (status_is_queued run.status ≡ true
            → contains id (run_cancel pool now id s).1.queue ≡ false)
  unfolding run_cancel cancel_live clear_resume cancel_with
  cancel_without_worker now id run s e h u =
      if_found_ind (IsOver id run) (raised not_found, s) (get id s.store.runs) _
        (λ n. ground (arith, n, e))
        λ found f.
          let same : found ≡ run = ground (arith, e, f) in
          if_ind (IsOver id run) (is_terminal found.status) (returned found, s) _
            (λ g. ground (arith, g, h, same)) (λ g. live found same)
    where
      over :
          (patch : Run → Run) (t : Scheduler W)
          → get id t.store.runs ≡ some run
          → (status_is_queued run.status ≡ true → contains id t.queue ≡ false)
          → IsOver id run (set_cancelled pool now id patch t)
      over patch t f q =
          let c = set_cancelled-lem now id patch run t f in
          (c.status, λ g. ground (arith, c.queue_is, q g))

      waiting_unqueued :
          (status : RunStatus)
          → status_is_waiting status ≡ true
          → status_is_queued status ≡ true
          → contains id s.queue ≡ false
      waiting_unqueued queued g q = ground arith
      waiting_unqueued _ g q = ground arith

      unheld :
          (outcome : CancelOutcome)
          → outcome ≡ unknown
          → (status_is_queued run.status ≡ true → contains id s.queue ≡ false)
          → IsOver id run (
              cancel_with pool now id run outcome
                (record s { workers = (cancel_at pool id s.workers).1 }))
      unheld unknown v q =
          over (at_end now) (record s { workers = (cancel_at pool id s.workers).1 }) e q
      unheld sent_now v q = ground arith
      unheld pending v q = ground arith

      live : (found : Run) → found ≡ run → IsOver id run (cancel_live pool now id found s)
      live found same = rw same (
          if_ind (IsOver id run) (status_is_waiting run.status) _ _
            (λ g.
              over (at_end_unparked now) (clear_resume id s) e
                (λ q. waiting_unqueued run.status g q))
            λ g.
              if_ind (IsOver id run) (status_is_queued run.status && contains id s.queue) _ _
                (λ q.
                  over (at_end now) (leave_queue pool id s)
                    (ap (λ t. get id t.runs) (leave_queue-store id s).0 ∙ e)
                    (λ _. ground (
                      arith,
                      (leave_queue-store id s).1,
                      contains-remove_key id id s.queue,
                      eq_iff id id,
                    )))
                (λ q. unheld (cancel_at pool id s.workers).0 u (λ r. ground (arith, q, r))))

abbrev requeued : (now : ℕ) → Run → Run
requeued now run = record (follow_up_shed now run) { status = queued }

abbrev after_requeue : (now : ℕ) → String → Run → RunStore → RunStore
after_requeue now id run store =
    append_event (status_event id now queued)
      (persist (requeued now run) (set_run id (requeued now run) store))

set_status-next :
    (id : String) (patch : Run → Run) (now : ℕ) (run : Run) (store : RunStore)
    → get id store.runs ≡ some run
    → set_status id queued patch now store
      ≡ some (
          append_event (status_event id now queued) (
            persist
              (record (patch run) { status = queued })
              (set_run id (record (patch run) { status = queued }) store)))
unfolding set_status update log_after
set_status-next id patch now run store e = rw e refl

contains-snoc : (id : String) (queue : List String) → contains id (queue ++ id ∷ []) ≡ true
contains-snoc id [] = ground (arith, eq_iff id id)
contains-snoc id (x ∷ xs) = ground (arith, contains-snoc id xs)

joins : (id : String) (queue : List String) → contains id (join_queue id queue) ≡ true
joins id queue = elim (Bool-cases (contains id queue)) [
  | inl e ↦ rw e e
  | inr e ↦ rw e (contains-snoc id queue)
]

any_run-put :
    (p : Run → Bool) (id : String) (run next : Run) (m : Dict Run)
    → get id m ≡ some run
    → p run ≡ false
    → any_run p (run_values m) ≡ true
    → any_run p (run_values (put id next m)) ≡ true
any_run-put p id run next [] e h g = ground arith
any_run-put p id run next ((k, r) ∷ m) e h g = elim (Bool-cases (str_eq k id)) [
  | inl f ↦
      let same : r ≡ run = ground (arith, e, f) in
      let rest : any_run p (run_values m) ≡ true = ground (arith, g, h, ap p same) in
      ground (arith, f, rest)
  | inr f ↦ ground (arith, f, g, any_run-put p id run next m (ground (arith, e, f)) h)
]

module _ {W : Type 0} (pool : WorkerPool W) where
  -- The run is queued, and another run of its ticket is unfinished.
  pub record QueuedAgain (id : String) (run : Run) (result : Reply × Scheduler W) : Type 0 where
    pub ready : Scheduler W
    pub queued_run : Run
    pub reply : result.0 ≡ returned queued_run
    pub stored : get id ready.store.runs ≡ some queued_run
    pub status : queued_run.status ≡ queued
    pub same_ticket : queued_run.ticket ≡ run.ticket
    pub joined : contains id ready.queue ≡ true
    pub two : clashes queued_run ready.store ≡ true
    pub dispatched : (now : ℕ) × (result.1 ≡ dispatch_queued pool now ready)

  follow_up-dispatches :
      (now : ℕ) (id : String) (run : Run) (s : Scheduler W)
      → get id s.store.runs ≡ some run
      → still_eligible pool id s ≡ true
      → follow_up_end pool now id (some pr_open) s ≡ (
        reply_of (get id (after_requeue now id run s.store).runs),
        dispatch_queued pool now (record s {
          reap_timers = delete id s.reap_timers;
          store = after_requeue now id run s.store;
          queue = join_queue id s.queue;
        }),
      )
  unfolding follow_up_end start_follow_up
  follow_up-dispatches now id run s e h =
      let set = set_status-next id (follow_up_shed now) now run s.store e in rw (h, set) refl

  -- A follow-up of a finished run waits for GitHub. If the pull request is open and the run still has
  -- it, the run is queued again, also where by then another run of its ticket is unfinished: in the
  -- state whose queue is dispatched next, the ticket has two unfinished runs, the one that the reply
  -- names and another.
  pub follow_up_ignores_newer_run :
      (now : ℕ) (id : String) (run : Run) (s : Scheduler W)
      → get id s.store.runs ≡ some run
      → clashes run s.store ≡ true
      → still_eligible pool id s ≡ true
      → QueuedAgain id run (follow_up_end pool now id (some pr_open) s)
  unfolding clashes append_event persist set_run
  follow_up_ignores_newer_run now id run s e c h =
      let next = requeued now run in
      let store = after_requeue now id run s.store in
      let result = follow_up-dispatches now id run s e h in
      let kept : get id store.runs ≡ some next =
        get-put id id next s.store.runs ∙ ground (arith, eq_iff id id) in
      record {
        ready = record s {
          reap_timers = delete id s.reap_timers;
          store = store;
          queue = join_queue id s.queue;
        };
        queued_run = next;
        reply = ap (λ r. r.0) result ∙ ap reply_of kept;
        stored = kept;
        status = refl;
        same_ticket = refl;
        joined = joins id s.queue;
        two =
            any_run-put
              (λ other.
                str_eq other.ticket.id run.ticket.id
                && (not (str_eq other.id run.id) && not (is_terminal other.status)))
              id run next s.store.runs e (ground (arith, eq_iff run.id run.id)) c;
        dispatched = (now, ap (λ r. r.1) result);
      }
