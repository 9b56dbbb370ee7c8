-- ===== src/Registry.antt =====
-- packages/orchestrator/src/workers.ts, `WorkerRegistry`: connections, leases and what is sent. What
-- the code takes from outside is an argument: the time, the identifiers it draws, the settings of
-- the fleet. A socket is a number; `sent` are the frames sent and `calls` the callbacks made, the
-- latest first. Console lines, the views for the interface and the attach sessions are left out.
pub mod Place
pub mod Reports
pub mod Connection
mod Tests
use brevi.Base.{
  ◌∷◌, ℕ, zero, suc, ◌+◌, ◌-◌, String, Bool, true, false, not, ◌&&◌, ◌||◌, Option, none, some, List,
  [], if◌then◌else◌, Dict, get, put, delete, keep, map, length, contains, add_key, remove_key,
  str_eq, ltb, leb,
}
use brevi.Runs.{RunStatus, is_terminal}
use brevi.Watermark.{
  DispatchKind, Lease, FleetTimes, renew_lease, pull_in_lease_deadline, contiguous_below,
}
use brevi.Fleet.{WorkerState, active, draining, WorkerCapabilities, WorkerRecord, FleetStore}
use brevi.Leases.{LeaseStore, PersistedLease, put_lease, put_durable, delete_lease, to_persisted}

pub record ConnectedWorker : Type 0 where
  pub id : String
  pub name : String
  pub socket : ℕ
  pub capabilities : WorkerCapabilities
  pub last_seen_at : ℕ

-- The frames to a worker, with what the properties read of them.
pub data HostMessage : Type 0 where
  dispatched : (lease_id run_id : String) → HostMessage
  cancel_run : (lease_id run_id : String) → HostMessage
  lease_lost : (lease_id run_id : String) → HostMessage
  lease_ack : (lease_id run_id : String) (seq expires_at : ℕ) → HostMessage
  registered : (worker_id : String) → HostMessage
  run_complete_ack : (lease_id run_id : String) → HostMessage
  revoked : HostMessage

-- The callbacks into the scheduler.
pub data SchedulerCall : Type 0 where
  run_settled : String → SchedulerCall
  run_rejected : String → String → DispatchKind → SchedulerCall
  run_interrupted : String → String → DispatchKind → SchedulerCall

-- A `run-complete` frame: the worker that sent it, its number and the outcome.
pub record Completion : Type 0 where
  pub worker_id : String
  pub seq : Option ℕ
  pub outcome : RunStatus

-- `grace` are the workers whose reconnect window is open, with the leases it is open for;
-- `finishing` the completions whose state is being written. A write that is still running when its
-- lease is settled refers to the lease's object: `settled_leases` are these.
pub record Registry : Type 0 where
  pub fleet : FleetStore
  pub runs : Dict RunStatus
  pub workers : Dict ConnectedWorker
  pub leases : Dict Lease
  pub settled_leases : Dict Lease
  pub lease_by_run : Dict String
  pub cancel_intents : List String
  pub saved_artifacts : Dict (List String)
  pub completing : List String
  pub pending_completions : Dict Completion
  pub finishing : Dict Completion
  pub grace : Dict (List String)
  pub lease_store : LeaseStore
  pub sent : List (ℕ × HostMessage)
  pub calls : List SchedulerCall

abbrev pub values {ℓ} : {V : Type ℓ} → Dict V → List V
values [] = []
values ((k, v) ∷ m) = v ∷ values m

unfoldable pub leases_for_worker : String → Registry → List Lease
leases_for_worker worker_id reg = keep (λ l. str_eq l.worker_id worker_id) (values reg.leases)

abbrev is_draining_state : WorkerState → Bool
is_draining_state active = false
is_draining_state draining = true

unfoldable pub is_draining : String → Registry → Bool
is_draining worker_id reg = elim (get worker_id reg.fleet.workers) [
  | none ↦ false
  | some enrolled ↦ is_draining_state enrolled.state
]

-- `#freeCapacity(worker)`, stopped at 0: the source asks only whether it is above 0, compares two
-- that are, or takes its maximum with 0.
unfoldable pub free_capacity : Registry → ConnectedWorker → ℕ
unfolding leases_for_worker
free_capacity reg worker =
    worker.capabilities.max_concurrency - length (leases_for_worker worker.id reg)

unfoldable pub send : ℕ → HostMessage → Registry → Registry
send socket message reg = record reg { sent = (socket, message) ∷ reg.sent }

unfoldable pub call : SchedulerCall → Registry → Registry
call c reg = record reg { calls = c ∷ reg.calls }

-- Replace a lease by its successor, and persist it.
unfoldable pub save_lease : Lease → Registry → Registry
save_lease lease reg = record reg {
  leases = put lease.id lease reg.leases;
  lease_store = put_lease (to_persisted lease) reg.lease_store;
}

-- `#settleLease`: everything that is kept for the lease goes.
unfoldable pub settle_lease : String → Registry → Registry
unfolding delete_lease
settle_lease lease_id reg = elim (get lease_id reg.leases) [
  | none ↦ reg
  | some lease ↦ record reg {
    leases = delete lease_id reg.leases;
    settled_leases = put lease_id lease reg.settled_leases;
    lease_by_run = elim (get lease.run_id reg.lease_by_run) [
      | none ↦ reg.lease_by_run
      | some held ↦
          if str_eq held lease_id then delete lease.run_id reg.lease_by_run else reg.lease_by_run
    ];
    cancel_intents = remove_key lease_id reg.cancel_intents;
    saved_artifacts = delete lease_id reg.saved_artifacts;
    completing = remove_key lease_id reg.completing;
    pending_completions = delete lease_id reg.pending_completions;
    lease_store = delete_lease lease_id reg.lease_store;
  }
]

-- Whether the run is in the store and not over.
unfoldable pub is_live : String → Registry → Bool
unfolding is_terminal
is_live run_id reg = elim (get run_id reg.runs) [
  | none ↦ false
  | some status ↦ not (is_terminal status)
]

unfoldable pub expire_lease : String → String → Registry → Registry
unfolding settle_lease is_live call
expire_lease lease_id reason reg = elim (get lease_id reg.leases) [
  | none ↦ reg
  | some lease ↦
      (let settled = settle_lease lease_id reg in
        if is_live lease.run_id settled
        then call (run_interrupted lease.run_id reason lease.kind) settled
        else settled)
]

unfoldable pub active_lease : String → String → Registry → Option Lease
active_lease worker_id lease_id reg = elim (get lease_id reg.leases) [
  | none ↦ none
  | some lease ↦ if str_eq lease.worker_id worker_id then some lease else none
]

-- The lease a frame may act on, renewed, with the registry after it.
unfoldable pub lease_for :
    FleetTimes → ℕ → (worker_id lease_id run_id : String) → Registry → Option Lease × Registry
unfolding active_lease save_lease
lease_for times now worker_id lease_id run_id reg = elim (active_lease worker_id lease_id reg) [
  | none ↦ (none, reg)
  | some lease ↦
      if str_eq lease.run_id run_id
      then (let renewed = renew_lease times now lease in (some renewed, save_lease renewed reg))
      else (none, reg)
]

pub data CancelOutcome : Type 0 where
  sent_now pending unknown : CancelOutcome

unfoldable pub cancel : String → Registry → CancelOutcome × Registry
unfolding send
cancel run_id reg = elim (get run_id reg.lease_by_run) [
  | none ↦ (unknown, reg)
  | some lease_id ↦ elim (get lease_id reg.leases) [
    | none ↦ (unknown, reg)
    | some lease ↦
        let marked = record reg { cancel_intents = add_key lease.id reg.cancel_intents } in
        elim (get lease.worker_id reg.workers) [
          | none ↦ (pending, marked)
          | some worker ↦ (sent_now, send worker.socket (cancel_run lease.id run_id) marked)
        ]
  ]
]
