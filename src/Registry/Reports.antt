-- ===== src/Registry/Reports.antt =====
-- The reporting frames of a worker and the completion of a run (`#handleMessage`, `#applyReported`,
-- `#markApplied`, `#skipLeaseGap`, `#completeRun`, `#finishCompletion` of workers.ts).
pub mod Mirror
pub mod Stored
pub mod History
pub mod Agreement
pub mod Late
use brevi.Base.{
  ◌∷◌, ℕ, zero, suc, ◌+◌, ◌-◌, String, Bool, true, false, not, ◌&&◌, ◌||◌, Option, none, some, List,
  [], if◌then◌else◌, Dict, get, put, delete, contains, add_key, remove_key, str_eq,
}
use brevi.Runs.{RunStatus}
use brevi.Watermark.{
  Lease, FleetTimes, admit_frame, write_failed, mark_applied, skip_lease_gap, contiguous_below,
}
use brevi.Leases.{put_lease, to_persisted}
use brevi.Registry.{
  Completion, Registry, send, call, settle_lease, lease_for, run_settled, run_rejected,
  run_complete_ack,
}

-- The object of a lease, also of one that was settled while something still refers to it.
unfoldable pub lease_object : String → Registry → Option Lease
lease_object lease_id reg = elim (get lease_id reg.leases) [
  | some lease ↦ some lease
  | none ↦ get lease_id reg.settled_leases
]

-- A change of the lease's object.
unfoldable pub set_lease : Lease → Registry → Registry
set_lease lease reg = elim (get lease.id reg.leases) [
  | some before ↦ record reg { leases = put lease.id lease reg.leases }
  | none ↦ record reg { settled_leases = put lease.id lease reg.settled_leases }
]

-- `this.#leaseStore.put(this.#toPersisted(lease))`.
unfoldable pub persist_lease : Lease → Registry → Registry
persist_lease lease reg = record reg {
  lease_store = put_lease (to_persisted lease) reg.lease_store;
}

-- `#maybeFinishPendingCompletion`.
unfoldable pub maybe_finish_pending : Lease → Registry → Registry
maybe_finish_pending lease reg = elim (get lease.id reg.pending_completions) [
  | none ↦ reg
  | some completion ↦
      if contiguous_below lease completion.seq
      then record reg {
        pending_completions = delete lease.id reg.pending_completions;
        finishing = put lease.id completion reg.finishing;
      }
      else reg
]

-- A sequenced frame arrives: whether its write is started.
unfoldable pub on_frame :
    FleetTimes → ℕ → (worker_id lease_id run_id : String) → Option ℕ → Registry → Bool × Registry
unfolding lease_for set_lease
on_frame times now worker_id lease_id run_id seq reg =
    let (found, renewed) = lease_for times now worker_id lease_id run_id reg in
    elim found [
      | none ↦ (false, renewed)
      | some lease ↦
          let (admitted, after) = admit_frame lease seq in (admitted, set_lease after renewed)
    ]

-- The write of a frame fails.
unfoldable pub on_write_failed : String → Option ℕ → Registry → Registry
unfolding set_lease lease_object
on_write_failed lease_id seq reg = elim (lease_object lease_id reg) [
  | none ↦ reg
  | some lease ↦ set_lease (write_failed lease seq) reg
]

-- A watermark that moved is persisted, and a parked completion looked at again.
abbrev pub after_mark : Lease × Bool → Registry → Registry
after_mark (lease, true) reg =
    maybe_finish_pending lease (persist_lease lease (set_lease lease reg))
after_mark (lease, false) reg = set_lease lease reg

-- The write of a frame lands.
unfoldable pub on_write_landed : String → Option ℕ → Registry → Registry
unfolding set_lease maybe_finish_pending persist_lease lease_object
on_write_landed lease_id seq reg = elim (lease_object lease_id reg) [
  | none ↦ reg
  | some lease ↦ after_mark (mark_applied lease seq) reg
]

-- A `lease-gap` frame arrives.
unfoldable pub on_gap :
    FleetTimes → ℕ → (worker_id lease_id run_id : String) → ℕ → Registry → Registry
unfolding lease_for set_lease maybe_finish_pending persist_lease
on_gap times now worker_id lease_id run_id through_seq reg =
    let (found, renewed) = lease_for times now worker_id lease_id run_id reg in
    elim found [
      | none ↦ renewed
      | some lease ↦ after_mark (skip_lease_gap lease through_seq) renewed
    ]

-- A `dispatch-rejected` frame arrives.
unfoldable pub on_dispatch_rejected :
    FleetTimes → ℕ → (worker_id lease_id run_id reason : String) → Registry → Registry
unfolding lease_for settle_lease call
on_dispatch_rejected times now worker_id lease_id run_id reason reg =
    let (found, renewed) = lease_for times now worker_id lease_id run_id reg in
    elim found [
      | none ↦ renewed
      | some lease ↦
          call (run_rejected lease.run_id reason lease.kind) (settle_lease lease.id renewed)
    ]

-- A `run-complete` frame arrives: whether its handling is started.
unfoldable pub on_completion :
    FleetTimes → ℕ → (worker_id lease_id run_id : String) → Option ℕ → Registry → Bool × Registry
unfolding on_frame
on_completion times now worker_id lease_id run_id seq reg =
    let (admitted, after) = on_frame times now worker_id lease_id run_id seq reg in
    if admitted && not (contains lease_id after.completing)
    then (true, record after { completing = add_key lease_id after.completing })
    else (false, after)

-- `#completeRun` after the writes of the lease are drained: parked, or being finished.
unfoldable pub complete_run : String → Completion → Registry → Registry
unfolding lease_object
complete_run lease_id completion reg = elim (lease_object lease_id reg) [
  | none ↦ reg
  | some lease ↦
      if contiguous_below lease completion.seq
      then record reg { finishing = put lease_id completion reg.finishing }
      else record reg { pending_completions = put lease_id completion reg.pending_completions }
]

abbrev pub ack_completion : Lease → Completion → Registry → Registry
ack_completion lease completion reg = elim (get completion.worker_id reg.workers) [
  | none ↦ reg
  | some worker ↦ send worker.socket (run_complete_ack lease.id lease.run_id) reg
]

-- The write of a completion's state settles (`#finishCompletion`, and the `catch` of its callers).
unfoldable pub on_completion_written : Bool → String → Registry → Registry
unfolding on_write_landed on_write_failed settle_lease send call lease_object
on_completion_written succeeds lease_id reg = elim (get lease_id reg.finishing) [
  | none ↦ reg
  | some completion ↦
      let taken = record reg { finishing = delete lease_id reg.finishing } in
      if succeeds
      then elim (lease_object lease_id taken) [
        | none ↦ taken
        | some lease ↦
            let written = record taken { runs = put lease.run_id completion.outcome taken.runs } in
            let marked = on_write_landed lease_id completion.seq written in
            call (run_settled lease.run_id)
              (settle_lease lease_id (ack_completion lease completion marked))
      ]
      else on_write_failed lease_id completion.seq
          (record taken { completing = remove_key lease_id taken.completing })
]
