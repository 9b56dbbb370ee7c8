-- ===== src/Registry/Reports/Agreement.antt =====
-- The registry over any history of dispatches, reports, completions, cancellations and expiries
-- (workers.ts).
use brevi.Base.{
  ◌∷◌, ℕ, ◌≡◌, refl, inl, inr, arith, String, Bool, true, false, Option, none, some, List, [], get,
  put, delete, remove_key, Option-cases,
}
use brevi.Watermark.{Lease, FleetTimes}
use brevi.Leases.{LeaseStore, run_write, to_persisted}
use brevi.Registry.{
  Registry, Completion, run_rejected, settle_lease, expire_lease, call, cancel, send, run_settled,
  dispatched,
}
use brevi.Registry.Place.{DispatchRequest, dispatch, claim_settled}
use brevi.Registry.Reports.{
  lease_object, ack_completion, on_frame, on_write_failed, on_write_landed, on_gap,
  on_dispatch_rejected, on_completion, complete_run, on_completion_written,
}
use brevi.Registry.Reports.Mirror.{IsMirrored, settle_lease-IsMirrored}
use brevi.Registry.Reports.Stored.{
  IsMirrored-same, expire_lease-IsMirrored, on_write_failed-IsMirrored, on_write_landed-IsMirrored,
}
use brevi.Registry.Reports.History.{
  on_frame-IsMirrored, on_gap-IsMirrored, on_dispatch_rejected-IsMirrored, dispatch-IsMirrored,
}

-- What may happen to the registry; the times, identifiers and outcomes are given.
pub data Event : Type 0 where
  dispatches : (now : ℕ) (lease_id : String) → DispatchRequest → Event
  claim_settles : Bool → ℕ → Lease → Event
  chain_writes : Bool → Event
  frame_arrives : (now : ℕ) (worker_id lease_id run_id : String) → Option ℕ → Event
  write_fails write_lands : String → Option ℕ → Event
  gap_arrives : (now : ℕ) (worker_id lease_id run_id : String) → ℕ → Event
  rejection_arrives : (now : ℕ) (worker_id lease_id run_id reason : String) → Event
  completion_arrives : (now : ℕ) (worker_id lease_id run_id : String) → Option ℕ → Event
  completes : String → Completion → Event
  completion_writes : Bool → String → Event
  expires : (lease_id reason : String) → Event
  cancels : String → Event

module _ (locale_after : String → String → Bool) (times : FleetTimes) where
  unfoldable pub step : Event → Registry → Registry
  unfolding on_completion complete_run cancel send
  step (dispatches now id payload) reg = (dispatch locale_after times now id payload reg).1
  step (claim_settles ok socket lease) reg = claim_settled ok socket lease reg
  step (chain_writes ok) reg = record reg { lease_store = run_write ok reg.lease_store }
  step (frame_arrives now w l r seq) reg = (on_frame times now w l r seq reg).1
  step (write_fails l seq) reg = on_write_failed l seq reg
  step (write_lands l seq) reg = on_write_landed l seq reg
  step (gap_arrives now w l r through) reg = on_gap times now w l r through reg
  step (rejection_arrives now w l r reason) reg = on_dispatch_rejected times now w l r reason reg
  step (completion_arrives now w l r seq) reg = (on_completion times now w l r seq reg).1
  step (completes l completion) reg = complete_run l completion reg
  step (completion_writes ok l) reg = on_completion_written ok l reg
  step (expires l reason) reg = expire_lease l reason reg
  step (cancels run_id) reg = (cancel run_id reg).1

  unfoldable pub steps : List Event → Registry → Registry
  unfolding step
  steps [] reg = reg
  steps (e ∷ es) reg = steps es (step e reg)

run_write-leases : (ok : Bool) (store : LeaseStore) → (run_write ok store).leases ≡ store.leases
unfolding run_write
run_write-leases ok store = ground arith

run_write-IsMirrored :
    (ok : Bool) (reg : Registry)
    → IsMirrored reg
    → IsMirrored (record reg { lease_store = run_write ok reg.lease_store })
run_write-IsMirrored ok reg v = record {
  held = λ j. rw (run_write-leases ok reg.lease_store) (v.held j);
  settled = v.settled;
}

claim_settled-IsMirrored :
    (ok : Bool) (socket : ℕ) (lease : Lease) (reg : Registry)
    → IsMirrored reg
    → IsMirrored (claim_settled ok socket lease reg)
unfolding claim_settled send call
claim_settled-IsMirrored true socket lease reg v =
    let written = record reg { lease_store = run_write true reg.lease_store } in
    IsMirrored-same (claim_settled true socket lease reg) written (ground arith) (ground arith)
      (ground arith) (run_write-IsMirrored true reg v)
claim_settled-IsMirrored false socket lease reg v =
    let written : Registry = record reg { lease_store = run_write false reg.lease_store } in
    let settled = settle_lease lease.id written in
    IsMirrored-same (claim_settled false socket lease reg) settled refl refl refl
      (settle_lease-IsMirrored lease.id written (run_write-IsMirrored false reg v))

ack_completion-IsMirrored :
    (lease : Lease) (completion : Completion) (reg : Registry)
    → IsMirrored reg
    → IsMirrored (ack_completion lease completion reg)
unfolding send
ack_completion-IsMirrored lease completion reg =
    IsMirrored-same (ack_completion lease completion reg) reg (ground arith) (ground arith)
      (ground arith)

finished-IsMirrored :
    (id : String) (lease : Lease) (completion : Completion) (reg : Registry)
    → IsMirrored reg
    → IsMirrored
        (call (run_settled lease.run_id) (settle_lease id (ack_completion lease completion reg)))
unfolding call
finished-IsMirrored id lease completion reg v =
    let settled = settle_lease id (ack_completion lease completion reg) in
    IsMirrored-same (call (run_settled lease.run_id) settled) settled refl refl refl (
      settle_lease-IsMirrored id (ack_completion lease completion reg)
        (ack_completion-IsMirrored lease completion reg v))

on_completion_written-IsMirrored :
    (ok : Bool) (id : String) (reg : Registry)
    → IsMirrored reg
    → IsMirrored (on_completion_written ok id reg)
unfolding on_completion_written
on_completion_written-IsMirrored false id reg v = elim (Option-cases (get id reg.finishing)) [
  | inl f ↦ rw (f, on_completion_written) v
  | inr (completion, f) ↦
      let freed : Registry = record reg {
        finishing = delete id reg.finishing;
        completing = remove_key id reg.completing;
      } in
      rw (f, on_completion_written)
        (on_write_failed-IsMirrored id completion.seq freed
          (IsMirrored-same freed reg refl refl refl v))
]
on_completion_written-IsMirrored true id reg v = elim (Option-cases (get id reg.finishing)) [
  | inl f ↦ rw (f, on_completion_written) v
  | inr (completion, f) ↦
      let taken : Registry = record reg { finishing = delete id reg.finishing } in
      elim (Option-cases (lease_object id taken)) [
        | inl g ↦ rw (f, g, on_completion_written) (IsMirrored-same taken reg refl refl refl v)
        | inr (lease, g) ↦
            let written : Registry = record taken {
              runs = put lease.run_id completion.outcome taken.runs;
            } in
            let marked = on_write_landed id completion.seq written in
            rw (f, g, on_completion_written)
              (finished-IsMirrored id lease completion marked (
                on_write_landed-IsMirrored id completion.seq written
                  (IsMirrored-same written reg refl refl refl v)))
      ]
]

step-IsMirrored :
    (locale_after : String → String → Bool) (times : FleetTimes) (e : Event) (reg : Registry)
    → IsMirrored reg
    → IsMirrored (step locale_after times e reg)
unfolding step on_completion complete_run cancel send
step-IsMirrored a times (dispatches now id payload) reg v =
    dispatch-IsMirrored a times now id payload reg v
step-IsMirrored a times (claim_settles ok socket lease) reg v =
    claim_settled-IsMirrored ok socket lease reg v
step-IsMirrored a times (chain_writes ok) reg v = run_write-IsMirrored ok reg v
step-IsMirrored a times (frame_arrives now w l r seq) reg v =
    on_frame-IsMirrored times now w l r seq reg v
step-IsMirrored a times (write_fails l seq) reg v = on_write_failed-IsMirrored l seq reg v
step-IsMirrored a times (write_lands l seq) reg v = on_write_landed-IsMirrored l seq reg v
step-IsMirrored a times (gap_arrives now w l r k) reg v = on_gap-IsMirrored times now w l r k reg v
step-IsMirrored a times (rejection_arrives now w l r reason) reg v =
    on_dispatch_rejected-IsMirrored times now w l r reason reg v
step-IsMirrored a times (completion_arrives now w l r seq) reg v =
    let after = (on_frame times now w l r seq reg).1 in
    IsMirrored-same (on_completion times now w l r seq reg).1 after (ground arith) (ground arith)
      (ground arith) (on_frame-IsMirrored times now w l r seq reg v)
step-IsMirrored a times (completes l completion) reg v =
    IsMirrored-same (complete_run l completion reg) reg (ground arith) (ground arith) (ground arith)
      v
step-IsMirrored a times (completion_writes ok l) reg v = on_completion_written-IsMirrored ok l reg v
step-IsMirrored a times (expires l reason) reg v = expire_lease-IsMirrored l reason reg v
step-IsMirrored a times (cancels run_id) reg v =
    IsMirrored-same (cancel run_id reg).1 reg (ground arith) (ground arith) (ground arith) v

-- If every lease that the registry holds is in the lease store as it is, under its own identifier,
-- and settled leases stand under theirs, then this is so after any history of dispatches, claims
-- written or not, other writes of the store that succeed or fail, frames, writes that land or fail (also late), gaps, rejections, completions,
-- expiries and cancellations.
pub leases_stay_stored :
    (locale_after : String → String → Bool) (times : FleetTimes) (es : List Event) (reg : Registry)
    → IsMirrored reg
    → IsMirrored (steps locale_after times es reg)
unfolding steps
leases_stay_stored a times [] reg v = v
leases_stay_stored a times (e ∷ es) reg v =
    leases_stay_stored a times es (step a times e reg) (step-IsMirrored a times e reg v)

-- What the registry sends, calls, holds and has on disk once the write of a claim settled.
abbrev pub IsClaimSettled :
    (write_succeeds : Bool) (socket : ℕ) → Lease → Registry → Registry → Type 0
IsClaimSettled true socket lease before after =
    (after.sent ≡ elim (get lease.id before.leases) [
      | none ↦ before.sent
      | some held ↦ (socket, dispatched lease.id lease.run_id) ∷ before.sent
    ])
    × (after.calls ≡ before.calls)
    × elim (get lease.id before.leases) [
      | none ↦ Unit
      | some held ↦ get lease.id after.lease_store.on_disk ≡ some (to_persisted held)
    ]
IsClaimSettled false socket lease before after =
    (after.sent ≡ before.sent)
    × (get lease.id after.leases ≡ none)
    × (after.calls
        ≡ run_rejected lease.run_id "the lease could not be persisted" lease.kind ∷ before.calls)
