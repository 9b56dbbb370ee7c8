-- ===== src/Registry/Reports/Late.antt =====
-- What a write does that is still running when its lease is given up (`#applyReported`,
-- `#markApplied`, `#expireLease` of workers.ts).
use brevi.Base.{
  ℕ, ◌≡◌, refl, sym, ap, ◌∙◌, arith, String, Bool, true, false, Option, none, some, get, get-put,
  get-delete, eq_iff,
}
use brevi.Watermark.{Lease, mark_applied, with_watermark}
use brevi.Leases.{PersistedLease, LeaseStore, to_persisted, put_lease, write_now, write_debounced}
use brevi.Registry.{Registry, expire_lease, settle_lease, call}
use brevi.Registry.Reports.{
  on_write_landed, after_mark, lease_object, set_lease, persist_lease, maybe_finish_pending,
}

settle_lease-object :
    (reg : Registry) (lease : Lease)
    → get lease.id reg.leases ≡ some lease
    → (get lease.id (settle_lease lease.id reg).leases ≡ none)
      × (get lease.id (settle_lease lease.id reg).settled_leases ≡ some lease)
unfolding settle_lease
settle_lease-object reg lease held =
    rw (held, settle_lease)
      (
        ground (arith, get-delete lease.id lease.id reg.leases, eq_iff lease.id lease.id),
        ground
            (arith, get-put lease.id lease.id lease reg.settled_leases, eq_iff lease.id lease.id),
      )

expire_lease-object :
    (reg : Registry) (lease : Lease) (reason : String)
    → get lease.id reg.leases ≡ some lease
    → (get lease.id (expire_lease lease.id reason reg).leases ≡ none)
      × (get lease.id (expire_lease lease.id reason reg).settled_leases ≡ some lease)
unfolding expire_lease call
expire_lease-object reg lease reason held =
    let settled = settle_lease-object reg lease held in
    (ground (arith, held, settled.0), ground (arith, held, settled.1))

put_lease-stores :
    (lease : PersistedLease) (store : LeaseStore)
    → get lease.id (put_lease lease store).leases ≡ some lease
unfolding put_lease write_now write_debounced
put_lease-stores lease store =
    ground (arith, get-put lease.id lease.id lease store.leases, eq_iff lease.id lease.id)

-- What is done with a mark does not touch the leases but the marked one's object.
after_mark-late :
    (reg : Registry) (marked : Lease × Bool)
    → marked.1 ≡ true
    → get marked.0.id reg.leases ≡ none
    → (get marked.0.id (after_mark marked reg).leases ≡ none)
      × (get marked.0.id (after_mark marked reg).lease_store.leases ≡ some (to_persisted marked.0))
unfolding set_lease persist_lease maybe_finish_pending to_persisted
after_mark-late reg (lease, true) moved gone =
    let stored = put_lease-stores (to_persisted lease) reg.lease_store in
    (ground (arith, gone), ground (arith, gone, stored))
after_mark-late reg (lease, false) moved gone = ground arith

mark_applied-id : (lease : Lease) (seq : ℕ) → (mark_applied lease (some seq)).0.id ≡ lease.id
unfolding mark_applied with_watermark
mark_applied-id lease seq = ground arith

on_write_landed-object :
    (id : String) (seq : Option ℕ) (reg : Registry) (lease : Lease)
    → lease_object id reg ≡ some lease
    → on_write_landed id seq reg ≡ after_mark (mark_applied lease seq) reg
unfolding on_write_landed
on_write_landed-object id seq reg lease found = rw (found, on_write_landed) refl

lease_object-settled :
    (id : String) (reg : Registry) (lease : Lease)
    → get id reg.leases ≡ none
    → get id reg.settled_leases ≡ some lease
    → lease_object id reg ≡ some lease
unfolding lease_object
lease_object-settled id reg lease gone held = rw (gone, lease_object) held

-- A lease is given up while a frame of it is being written. When that write lands and moves the
-- watermark, the lease is put into the lease store again, although the registry holds it no more.
pub late_write_restores_lease :
    (reg : Registry) (lease : Lease) (reason : String) (seq : ℕ)
    → get lease.id reg.leases ≡ some lease
    → (mark_applied lease (some seq)).1 ≡ true
    → (get lease.id (on_write_landed lease.id (some seq) (expire_lease lease.id reason reg)).leases
        ≡ none)
      × (get lease.id
            (on_write_landed lease.id
              (some seq)
              (expire_lease lease.id reason reg)).lease_store.leases
          ≡ some (to_persisted (mark_applied lease (some seq)).0))
late_write_restores_lease reg lease reason seq held moved =
    let given_up = expire_lease lease.id reason reg in
    let object = expire_lease-object reg lease reason held in
    let marked = mark_applied lease (some seq) in
    let same = mark_applied-id lease seq in
    let found = lease_object-settled lease.id given_up lease object.0 object.1 in
    let late =
      after_mark-late given_up marked moved (ap (λ k. get k given_up.leases) same ∙ object.0) in
    let landed = on_write_landed-object lease.id (some seq) given_up lease found in
    (
      ap (λ r. get lease.id r.leases) landed
          ∙ ap (λ k. get k (after_mark marked given_up).leases) (sym same)
          ∙ late.0,
      ap (λ r. get lease.id r.lease_store.leases) landed
          ∙ ap (λ k. get k (after_mark marked given_up).lease_store.leases) (sym same)
          ∙ late.1,
    )
