-- ===== src/Registry/Reports/History.antt =====
-- The frames of a worker and a dispatch keep what the registry holds in agreement with the lease
-- store (workers.ts).
use brevi.Base.{
  ℕ, ◌≡◌, refl, ap, ◌∙◌, ◌⊎◌, inl, inr, arith, String, Bool, Option, none, some, if◌then◌else◌, get,
  str_eq, eq_iff, Bool-cases, Option-cases, get-put,
}
use brevi.Watermark.{Lease, FleetTimes, admit_frame, skip_lease_gap, with_watermark, renew_lease}
use brevi.Leases.{PersistedLease, LeaseStore, to_persisted, put_durable}
use brevi.Registry.{Registry, save_lease, settle_lease, lease_for, active_lease, call}
use brevi.Registry.Place.{
  DispatchRequest, Placement, placed, refused, place_worker, dispatch, new_lease,
}
use brevi.Registry.Reports.{lease_object, on_frame, on_gap, on_dispatch_rejected}
use brevi.Registry.Reports.Mirror.{
  IsMirrored, save_lease-IsMirrored, settle_lease-IsMirrored, set_lease-IsMirrored, Agrees-put,
}
use brevi.Registry.Reports.Stored.{
  IsMirrored-same, after_mark-IsMirrored, admit_frame-persisted, skip_lease_gap-persisted,
}

-- A frame finds no lease, or one that is renewed and saved.
lease_for-cases :
    (times : FleetTimes) (now : ℕ) (worker_id lease_id run_id : String) (reg : Registry)
    → (lease_for times now worker_id lease_id run_id reg ≡ (none, reg))
      ⊎ ((lease : Lease) × (lease_for times now worker_id lease_id run_id reg
            ≡ (some lease, save_lease lease reg)))
unfolding lease_for
lease_for-cases times now worker_id lease_id run_id reg =
    elim (Option-cases (active_lease worker_id lease_id reg)) [
      | inl f ↦ inl (rw (f, lease_for) refl)
      | inr (lease, f) ↦ elim (Bool-cases (str_eq lease.run_id run_id)) [
        | inl e ↦ inr (renew_lease times now lease, rw (f, e, lease_for) refl)
        | inr e ↦ inl (rw (f, e, lease_for) refl)
      ]
    ]

save_lease-object :
    (lease : Lease) (reg : Registry) → lease_object lease.id (save_lease lease reg) ≡ some lease
unfolding lease_object save_lease
save_lease-object lease reg =
    ground (arith, get-put lease.id lease.id lease reg.leases, eq_iff lease.id lease.id)

admit_frame-id : (lease : Lease) (seq : Option ℕ) → (admit_frame lease seq).1.id ≡ lease.id
unfolding admit_frame
admit_frame-id lease none = refl
admit_frame-id lease (some seq) = ground arith

skip_lease_gap-id : (lease : Lease) (through : ℕ) → (skip_lease_gap lease through).0.id ≡ lease.id
unfolding skip_lease_gap with_watermark
skip_lease_gap-id lease through = ground arith

pub on_frame-IsMirrored :
    (times : FleetTimes) (now : ℕ) (worker_id lease_id run_id : String) (seq : Option ℕ)
    (reg : Registry)
    → IsMirrored reg
    → IsMirrored (on_frame times now worker_id lease_id run_id seq reg).1
unfolding on_frame
on_frame-IsMirrored times now worker_id lease_id run_id seq reg v =
    elim (lease_for-cases times now worker_id lease_id run_id reg) [
      | inl e ↦ rw (ap (λ p. p.0) e, ap (λ p. p.1) e, on_frame) v
      | inr (lease, e) ↦
          rw (ap (λ p. p.0) e, ap (λ p. p.1) e, on_frame)
            (set_lease-IsMirrored (admit_frame lease seq).1 lease (save_lease lease reg)
              (ap (λ k. lease_object k (save_lease lease reg)) (admit_frame-id lease seq)
                ∙ save_lease-object lease reg)
              (admit_frame-persisted lease seq) (save_lease-IsMirrored lease reg v))
    ]

pub on_gap-IsMirrored :
    (times : FleetTimes) (now : ℕ) (worker_id lease_id run_id : String) (through : ℕ)
    (reg : Registry)
    → IsMirrored reg
    → IsMirrored (on_gap times now worker_id lease_id run_id through reg)
unfolding on_gap
on_gap-IsMirrored times now worker_id lease_id run_id through reg v =
    elim (lease_for-cases times now worker_id lease_id run_id reg) [
      | inl e ↦ rw (ap (λ p. p.0) e, ap (λ p. p.1) e, on_gap) v
      | inr (lease, e) ↦
          let skipped = skip_lease_gap lease through in
          rw (ap (λ p. p.0) e, ap (λ p. p.1) e, on_gap)
            (after_mark-IsMirrored skipped.0 lease skipped.1 (save_lease lease reg)
              (ap (λ k. lease_object k (save_lease lease reg)) (skip_lease_gap-id lease through)
                ∙ save_lease-object lease reg)
              (skip_lease_gap-persisted lease through) (save_lease-IsMirrored lease reg v))
    ]

pub on_dispatch_rejected-IsMirrored :
    (times : FleetTimes) (now : ℕ) (worker_id lease_id run_id reason : String) (reg : Registry)
    → IsMirrored reg
    → IsMirrored (on_dispatch_rejected times now worker_id lease_id run_id reason reg)
unfolding on_dispatch_rejected call
on_dispatch_rejected-IsMirrored times now worker_id lease_id run_id reason reg v =
    elim (lease_for-cases times now worker_id lease_id run_id reg) [
      | inl e ↦ rw (ap (λ p. p.0) e, ap (λ p. p.1) e, on_dispatch_rejected) v
      | inr (lease, e) ↦
          let settled = settle_lease lease.id (save_lease lease reg) in
          rw (ap (λ p. p.0) e, ap (λ p. p.1) e, on_dispatch_rejected)
            (IsMirrored-same (call _ settled) settled refl refl refl (
              settle_lease-IsMirrored lease.id (save_lease lease reg)
                (save_lease-IsMirrored lease reg v)))
    ]

stored-durable :
    (j : String) (p : PersistedLease) (store : LeaseStore)
    → get j (put_durable p store).leases ≡ (if str_eq p.id j then some p else get j store.leases)
unfolding put_durable
stored-durable j p store = get-put j p.id p store.leases

pub dispatch-IsMirrored :
    (after : String → String → Bool) (times : FleetTimes) (now : ℕ) (id : String)
    (payload : DispatchRequest) (reg : Registry)
    → IsMirrored reg
    → IsMirrored (dispatch after times now id payload reg).1
unfolding dispatch to_persisted
dispatch-IsMirrored after times now id payload reg v =
    go (place_worker after payload.agent_command reg) refl
  where
    go :
        (p : Placement)
        → place_worker after payload.agent_command reg ≡ p
        → IsMirrored (dispatch after times now id payload reg).1
    go (refused refusal) e = rw (e, dispatch) v
    go (placed target) e =
        rw (e, dispatch)
          (record {
            held = λ j.
                rw
                  (stored-durable j (to_persisted (new_lease times now id payload target))
                    reg.lease_store)
                  (Agrees-put j (new_lease times now id payload target) reg.leases
                    (get j reg.lease_store.leases) (v.held j));
            settled = v.settled;
          })
