-- ===== src/Scheduler/Pool.antt =====
-- The worker registry (packages/orchestrator/src/workers.ts) as the scheduler's pool of workers. What
-- the registry takes from outside is a parameter: the order of names, the drawn lease ids, the text of
-- a refusal, whether a run's worker is reachable, and the attach sessions.
use brevi.Base.{
  ℕ, ◌≡◌, refl, ap, ◌∙◌, inl, inr, arith, String, Bool, true, false, not, ◌&&◌, ◌||◌, Option, none,
  some, if◌then◌else◌, if_found, if_found_ind, if_ind, Dict, get, put, delete, get-put, get-delete,
  str_eq, eq_iff, Bool-cases, Option-cases,
}
use brevi.Watermark.{DispatchKind, implementation, follow_up, Lease, FleetTimes}
use brevi.Registry.{Registry, settle_lease, cancel, send}
use brevi.Registry.Place.{
  Refusal, Placement, placed, refused, place_worker, DispatchRequest, new_lease, dispatch,
}
use brevi.Scheduler.{DispatchPayload, DispatchOutcome, was_placed, not_placed, WorkerPool}
use brevi.Scheduler.Places.{PoolLaws}

abbrev pub kind_of : Bool → DispatchKind
kind_of true = follow_up
kind_of false = implementation

abbrev pub is_for : String → Option Lease → Bool
is_for run_id none = false
is_for run_id (some lease) = str_eq lease.run_id run_id

-- Whether the registry's lease of the run is one of the run.
abbrev pub lease_holds : String → Registry → Bool
lease_holds run_id reg =
    if_found false (get run_id reg.lease_by_run) (λ id. is_for run_id (get id reg.leases))

-- The run's lease settled.
abbrev pub settle_run : String → Registry → Registry
settle_run run_id reg =
    if_found reg (get run_id reg.lease_by_run)
      λ id. if is_for run_id (get id reg.leases) then settle_lease id reg else reg

abbrev pub outcome_of : (Refusal → String) → Placement × Registry → DispatchOutcome × Registry
outcome_of describe (placed worker, reg) = (was_placed, reg)
outcome_of describe (refused refusal, reg) = (not_placed (describe refusal), reg)

abbrev lookup_holds : String → Dict String → Dict Lease → Bool
lookup_holds run_id by_run leases =
    if_found false (get run_id by_run) (λ id. is_for run_id (get id leases))

deleted-holds :
    (run_id id : String) (lease : Lease) (by_run : Dict String) (l : String) (leases : Dict Lease)
    → get run_id by_run ≡ some l
    → get l leases ≡ some lease
    → lease.run_id ≡ run_id
    → lookup_holds id (delete run_id by_run) (delete l leases)
      ≡ (not (str_eq run_id id) && lookup_holds id by_run leases)
deleted-holds run_id id lease by_run l leases e f g = elim (Option-cases (get id by_run)) [
  | inl n ↦ ground (arith, n, get-delete id run_id by_run)
  | inr (m, h) ↦ elim (Bool-cases (str_eq l m)) [
    | inl q ↦ ground (
      arith,
      h,
      q,
      e,
      f,
      g,
      get-delete id run_id by_run,
      get-delete m l leases,
      eq_iff l m,
      eq_iff run_id id,
    )
    | inr q ↦ ground (arith, h, q, get-delete id run_id by_run, get-delete m l leases)
  ]
]

added-holds :
    (run_id id : String) (lease : Lease) (by_run : Dict String) (l : String) (leases : Dict Lease)
    → get l leases ≡ none
    → lease.run_id ≡ run_id
    → lookup_holds id (put run_id l by_run) (put l lease leases)
      ≡ (str_eq run_id id || lookup_holds id by_run leases)
added-holds run_id id lease by_run l leases e g = elim (Option-cases (get id by_run)) [
  | inl n ↦ ground (
    arith,
    n,
    g,
    get-put id run_id l by_run,
    get-put l l lease leases,
    eq_iff l l,
    eq_iff run_id id,
  )
  | inr (m, h) ↦ elim (Bool-cases (str_eq l m)) [
    | inl q ↦ ground (
      arith,
      h,
      q,
      e,
      g,
      get-put id run_id l by_run,
      get-put l l lease leases,
      get-put m l lease leases,
      eq_iff l m,
      eq_iff l l,
      eq_iff run_id id,
    )
    | inr q ↦ ground (
      arith,
      h,
      q,
      g,
      get-put id run_id l by_run,
      get-put l l lease leases,
      get-put m l lease leases,
      eq_iff l l,
      eq_iff run_id id,
    )
  ]
]

cancel-same :
    (run_id : String) (reg : Registry)
    → ((cancel run_id reg).1.leases ≡ reg.leases)
      × ((cancel run_id reg).1.lease_by_run ≡ reg.lease_by_run)
unfolding cancel send
cancel-same run_id reg = elim (Option-cases (get run_id reg.lease_by_run)) [
  | inl n ↦ rw (n, cancel) (refl, refl)
  | inr (l, e) ↦ elim (Option-cases (get l reg.leases)) [
    | inl n ↦ rw (e, n, cancel) (refl, refl)
    | inr (lease, f) ↦ elim (Option-cases (get lease.worker_id reg.workers)) [
      | inl n ↦ rw (e, f, n, cancel) (refl, refl)
      | inr (worker, g) ↦ rw (e, f, g, cancel) (refl, refl)
    ]
  ]
]

settled-same :
    (run_id l : String) (lease : Lease) (reg : Registry)
    → get run_id reg.lease_by_run ≡ some l
    → get l reg.leases ≡ some lease
    → lease.run_id ≡ run_id
    → ((settle_lease l reg).leases ≡ delete l reg.leases)
      × ((settle_lease l reg).lease_by_run ≡ delete run_id reg.lease_by_run)
unfolding settle_lease
settled-same run_id l lease reg e f g =
    let held : get lease.run_id reg.lease_by_run ≡ some l =
      ap (λ k. get k reg.lease_by_run) g ∙ e in
    rw (f, held, settle_lease)
      (refl, same (str_eq l l) (ground (arith, eq_iff l l)) ∙ ap (λ k. delete k reg.lease_by_run) g)
  where
    same :
        (b : Bool)
        → b ≡ true
        → (if b then delete lease.run_id reg.lease_by_run else reg.lease_by_run)
          ≡ delete lease.run_id reg.lease_by_run
    same true h = refl
    same false h = ground arith

abbrev Released : (run_id id : String) → Registry → Registry → Type 0
Released run_id id reg settled =
    lease_holds id settled ≡ (not (str_eq run_id id) && lease_holds id reg)

module _ (locale_after : String → String → Bool) (times : FleetTimes) (now : ℕ)
    (agent_command : String) (draw_id : Registry → String) (describe : Refusal → String)
    (reaches has_session : String → Registry → Bool) where
  abbrev request : DispatchPayload → DispatchRequest
  request payload = record {
    run_id = payload.run.id;
    kind = kind_of payload.follow_up;
    agent_command = agent_command;
  }

  unfoldable pub registry_pool : WorkerPool Registry
  unfolding dispatch cancel settle_lease
  registry_pool = record {
    request_dispatch = λ payload reg.
        outcome_of describe (dispatch locale_after times now (draw_id reg) (request payload) reg);
    request_cancel = cancel;
    discard = λ run_id reg. (reaches run_id reg, reg);
    has_attach_session = has_session;
    settle = settle_run;
    holds = lease_holds;
  }

  module _ (drawn_is_new : (reg : Registry) → get (draw_id reg) reg.leases ≡ none) where
    cancel-holds :
        (run_id : String) (reg : Registry) (id : String)
        → lease_holds id (cancel run_id reg).1 ≡ lease_holds id reg
    cancel-holds run_id reg id =
        ap (λ m. lookup_holds id m (cancel run_id reg).1.leases) (cancel-same run_id reg).1
        ∙ ap (lookup_holds id reg.lease_by_run) (cancel-same run_id reg).0

    settle-holds :
        (run_id : String) (reg : Registry) (id : String)
        → lease_holds id (settle_run run_id reg) ≡ (not (str_eq run_id id) && lease_holds id reg)
    settle-holds run_id reg id =
        if_found_ind (Released run_id id reg) reg (get run_id reg.lease_by_run) _
          (λ n. ground (arith, n, eq_iff run_id id))
          λ l e.
            if_ind (Released run_id id reg) (is_for run_id (get l reg.leases)) _ _
              (λ h. elim (Option-cases (get l reg.leases)) [
                | inl n ↦ ground (arith, n, h)
                | inr (lease, f) ↦
                    let g : lease.run_id ≡ run_id =
                      ground (arith, f, h, eq_iff lease.run_id run_id) in
                    let same = settled-same run_id l lease reg e f g in
                    ap (λ m. lookup_holds id m (settle_lease l reg).leases) same.1
                    ∙ ap (lookup_holds id (delete run_id reg.lease_by_run)) same.0
                    ∙ deleted-holds run_id id lease reg.lease_by_run l reg.leases e f g
              ])
              (λ h. ground (arith, e, h, eq_iff run_id id))

    dispatched-holds :
        (payload : DispatchPayload) (reg : Registry) (id : String)
        → (outcome_of describe
            (dispatch locale_after times now (draw_id reg) (request payload) reg)).0
          ≡ was_placed
        → lease_holds id
            (outcome_of describe
              (dispatch locale_after times now (draw_id reg) (request payload) reg)).1
          ≡ (str_eq payload.run.id id || lease_holds id reg)
    unfolding dispatch
    dispatched-holds payload reg id h = outcome (place_worker locale_after agent_command reg) refl
      where
        outcome :
            (placement : Placement)
            → place_worker locale_after agent_command reg ≡ placement
            → lease_holds id
                (outcome_of describe
                  (dispatch locale_after times now (draw_id reg) (request payload) reg)).1
              ≡ (str_eq payload.run.id id || lease_holds id reg)
        outcome (placed target) e =
            rw (e, lease_holds, outcome_of, dispatch)
              (added-holds payload.run.id id
                (new_lease times now (draw_id reg) (request payload) target) reg.lease_by_run
                (draw_id reg) reg.leases (drawn_is_new reg) refl)
        outcome (refused refusal) e = ground (arith, h, e)

    refused-holds :
        (payload : DispatchPayload) (reg : Registry) (id : String)
        → lease_holds id reg ≡ true
        → lease_holds id
            (outcome_of describe
              (dispatch locale_after times now (draw_id reg) (request payload) reg)).1
          ≡ true
    unfolding dispatch
    refused-holds payload reg id h = outcome (place_worker locale_after agent_command reg) refl
      where
        outcome :
            (placement : Placement)
            → place_worker locale_after agent_command reg ≡ placement
            → lease_holds id
                (outcome_of describe
                  (dispatch locale_after times now (draw_id reg) (request payload) reg)).1
              ≡ true
        outcome (refused refusal) e = rw (e, lease_holds, outcome_of, dispatch) h
        outcome (placed target) e =
            rw (e, lease_holds, outcome_of, dispatch)
              (added-holds payload.run.id id
                  (new_lease times now (draw_id reg) (request payload) target) reg.lease_by_run
                  (draw_id reg) reg.leases (drawn_is_new reg) refl
                ∙ ground (arith, h))

    -- The worker registry, with lease ids that it has not drawn before, is a pool of workers as the
    -- scheduler relies on it: a run that it places is held until its lease is settled, and nothing
    -- else takes a run from its worker or gives one to it.
    pub registry_pool-PoolLaws : PoolLaws registry_pool
    unfolding registry_pool
    registry_pool-PoolLaws = record {
      dispatch_holds = λ payload reg h.
          dispatched-holds payload reg payload.run.id h
          ∙ ground (arith, eq_iff payload.run.id payload.run.id);
      dispatch_keeps = λ payload reg id h. refused-holds payload reg id h;
      cancel_keeps = λ run_id reg id. cancel-holds run_id reg id;
      discard_keeps = λ run_id reg id. refl;
      settle_releases = λ run_id reg id. settle-holds run_id reg id;
    }
