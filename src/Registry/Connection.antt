-- ===== src/Registry/Connection.antt =====
-- A worker's connection (`#handleRegister` once the record is found, `#handleDisconnect`, the grace
-- timer, the sweep of expired leases, heartbeats, `revoke` and `restore` of workers.ts). The console
-- lines and the heartbeat watchdog's timer are left out; the watchdog's effect is a disconnect.
pub mod Claims
pub mod Renewal
use brevi.Base.{
  ◌∷◌, ℕ, zero, suc, ◌+◌, ◌*◌, String, Bool, true, false, not, ◌&&◌, ◌||◌, Option, none, some, List,
  [], if◌then◌else◌, Dict, get, put, delete, map, contains, leb, ltb, ◌==◌, str_eq, keep,
}
use brevi.Runs.{is_terminal}
use brevi.Watermark.{Lease, FleetTimes, renew_lease, pull_in_lease_deadline}
use brevi.Fleet.{WorkerCapabilities, WorkerRecord, FleetStore}
use brevi.Leases.{LeaseStore, PersistedLease, put_lease, delete_lease}
use brevi.Registry.{
  ConnectedWorker, Registry, values, leases_for_worker, send, save_lease, settle_lease,
  expire_lease, is_live, lease_lost, lease_ack, registered, revoked, cancel_run,
}

-- A lease as a worker claims it when it registers.
pub record ClaimedLease : Type 0 where
  pub id : String
  pub run_id : String

abbrev pub claims : String → List ClaimedLease → Bool
claims id [] = false
claims id (c ∷ cs) = str_eq c.id id || claims id cs

abbrev pub is_held : String → Registry → Bool
is_held id reg = elim (get id reg.leases) [ none ↦ false | some lease ↦ true ]

-- The leases the worker no longer claims are given up.
unfoldable pub expire_unclaimed : List ClaimedLease → List Lease → Registry → Registry
unfolding expire_lease
expire_unclaimed claimed [] reg = reg
expire_unclaimed claimed (lease ∷ leases) reg = expire_unclaimed claimed leases (
    if claims lease.id claimed
    then reg
    else expire_lease lease.id "the worker reconnected without this run" reg)

-- The claims that the host does not know are told to be lost.
unfoldable pub answer_claims : ℕ → List ClaimedLease → Registry → Registry
unfolding send
answer_claims socket [] reg = reg
answer_claims socket (c ∷ cs) reg =
    answer_claims socket cs
      (if is_held c.id reg then reg else send socket (lease_lost c.id c.run_id) reg)

-- The cancellations that are still meant are sent again.
unfoldable pub replay_cancels : ℕ → List Lease → Registry → Registry
unfolding send
replay_cancels socket [] reg = reg
replay_cancels socket (lease ∷ leases) reg = replay_cancels socket leases (
    if contains lease.id reg.cancel_intents
    then send socket (cancel_run lease.id lease.run_id) reg
    else reg)

abbrev pub renew_and_ack : FleetTimes → ℕ → ℕ → Lease → Registry → Registry
renew_and_ack times now socket lease reg =
    let renewed = renew_lease times now lease in
    send socket (lease_ack renewed.id renewed.run_id renewed.applied_seq renewed.expires_at)
      (save_lease renewed reg)

unfoldable pub renew_all : FleetTimes → ℕ → ℕ → List Lease → Registry → Registry
unfolding send save_lease
renew_all times now socket [] reg = reg
renew_all times now socket (lease ∷ leases) reg =
    renew_all times now socket leases (renew_and_ack times now socket lease reg)

-- The connection takes the place of an earlier one, and the reconnect window is closed.
unfoldable pub connect_worker :
    (socket now : ℕ) → WorkerCapabilities → WorkerRecord → Registry → Registry
connect_worker socket now capabilities worker reg =
    let entry : ConnectedWorker = record {
      id = worker.id;
      name = worker.name;
      socket = socket;
      capabilities = capabilities;
      last_seen_at = now;
    } in
    record reg { workers = put worker.id entry reg.workers; grace = delete worker.id reg.grace }

-- What follows in `#handleRegister` once the record of the worker is found, up to where it waits
-- for the leases' writes.
unfoldable pub install :
    (socket now : ℕ) → WorkerCapabilities → List ClaimedLease → WorkerRecord → Registry → Registry
unfolding connect_worker leases_for_worker expire_unclaimed answer_claims replay_cancels send
install socket now capabilities claimed worker reg =
    let connected = connect_worker socket now capabilities worker reg in
    let kept = expire_unclaimed claimed (leases_for_worker worker.id connected) connected in
    let answered = answer_claims socket claimed (send socket (registered worker.id) kept) in
    replay_cancels socket (leases_for_worker worker.id answered) answered

-- The end of `#handleRegister`, the writes drained; and what a heartbeat does to the leases.
unfoldable pub renew_worker_leases : FleetTimes → (now socket : ℕ) → String → Registry → Registry
unfolding leases_for_worker renew_all
renew_worker_leases times now socket worker_id reg =
    renew_all times now socket (leases_for_worker worker_id reg) reg

unfoldable pub pull_in_all : FleetTimes → ℕ → List Lease → Registry → Registry
unfolding save_lease
pull_in_all times now [] reg = reg
pull_in_all times now (lease ∷ leases) reg =
    pull_in_all times now leases (save_lease (pull_in_lease_deadline times now lease) reg)

abbrev lease_ids : List Lease → List String
lease_ids [] = []
lease_ids (lease ∷ leases) = lease.id ∷ lease_ids leases

abbrev open_grace : FleetTimes → ℕ → String → List Lease → Registry → Registry
open_grace times now worker_id [] reg = reg
open_grace times now worker_id (l ∷ ls) reg =
    let pulled = pull_in_all times now (l ∷ ls) reg in
    record pulled { grace = put worker_id (lease_ids (l ∷ ls)) pulled.grace }

-- `#handleDisconnect(entry)`: a socket that was replaced changes nothing.
unfoldable pub handle_disconnect : FleetTimes → ℕ → ConnectedWorker → Registry → Registry
unfolding leases_for_worker pull_in_all
handle_disconnect times now entry reg =
    let replaced : Bool = elim (get entry.id reg.workers) [
      | none ↦ false
      | some current ↦ not (current.socket == entry.socket)
    ] in
    if replaced
    then reg
    else (let gone = record reg { workers = delete entry.id reg.workers } in
        open_grace times now entry.id (leases_for_worker entry.id gone) gone)

unfoldable pub expire_all : String → List String → Registry → Registry
unfolding expire_lease
expire_all reason [] reg = reg
expire_all reason (id ∷ ids) reg = expire_all reason ids (expire_lease id reason reg)

-- The grace timer of a worker fires.
unfoldable pub grace_over : String → Registry → Registry
unfolding expire_all
grace_over worker_id reg = elim (get worker_id reg.grace) [
  | none ↦ reg
  | some ids ↦
      expire_all "the worker stopped reporting" ids
        (record reg { grace = delete worker_id reg.grace })
]

-- `#sweepExpiredLeases`.
unfoldable pub sweep_expired_leases : ℕ → Registry → Registry
unfolding expire_all
sweep_expired_leases now reg =
    expire_all "the worker stopped reporting"
      (lease_ids (keep (λ lease. leb lease.expires_at now) (values reg.leases))) reg

-- The loop of `restore` over what the lease store loaded.
unfoldable pub restore_leases : FleetTimes → ℕ → List PersistedLease → Registry → Registry
unfolding is_live save_lease
restore_leases times now [] reg = reg
restore_leases times now (entry ∷ entries) reg =
    let lease : Lease = record {
      id = entry.id;
      run_id = entry.run_id;
      worker_id = entry.worker_id;
      worker_name = entry.worker_name;
      kind = entry.kind;
      issued_at = entry.issued_at;
      expires_at = now + times.reconnect_grace_seconds * 1000;
      applied_seq = entry.applied_seq;
      applied_ahead = [];
      in_flight_seqs = [];
    } in
    restore_leases times now entries (
      if is_live entry.run_id reg
      then save_lease lease
          (record reg { lease_by_run = put entry.run_id entry.id reg.lease_by_run })
      else record reg { lease_store = delete_lease entry.id reg.lease_store })
