-- ===== src/Registry/Reports/Stored.antt =====
-- The operations on a lease's object keep what the registry holds in agreement with the lease store
-- (workers.ts).
use brevi.Base.{
  ℕ, ◌≡◌, refl, sym, ap, ◌∙◌, inl, inr, arith, String, Bool, true, false, Option, none, some, get,
  put, str_eq, eq_iff, Bool-cases, Option-cases,
}
use mathlib.Core.Path.{subst}
use brevi.Watermark.{Lease, admit_frame, write_failed, mark_applied, skip_lease_gap, with_watermark}
use brevi.Leases.{to_persisted, put_lease}
use brevi.Registry.{Registry, save_lease, settle_lease, expire_lease, call}
use brevi.Registry.Reports.{
  set_lease, persist_lease, maybe_finish_pending, lease_object, after_mark, on_write_failed,
  on_write_landed,
}
use brevi.Registry.Reports.Mirror.{
  IsMirrored, Agrees, Keyed, save_lease-IsMirrored, settle_lease-IsMirrored, set_lease-IsMirrored,
  get-put_lease, Keyed-put,
}

-- The invariant reads three fields.
pub IsMirrored-same :
    (a b : Registry)
    → a.leases ≡ b.leases
    → a.lease_store ≡ b.lease_store
    → a.settled_leases ≡ b.settled_leases
    → IsMirrored b
    → IsMirrored a
IsMirrored-same a b l s o v = record {
  held = λ id. rw (l, s) (v.held id);
  settled = λ id. rw o (v.settled id);
}

maybe_finish_pending-IsMirrored :
    (lease : Lease) (reg : Registry) → IsMirrored reg → IsMirrored (maybe_finish_pending lease reg)
unfolding maybe_finish_pending
maybe_finish_pending-IsMirrored lease reg =
    IsMirrored-same (maybe_finish_pending lease reg) reg (ground arith) (ground arith)
      (ground arith)

pub expire_lease-IsMirrored :
    (id reason : String) (reg : Registry) → IsMirrored reg → IsMirrored (expire_lease id reason reg)
unfolding expire_lease call
expire_lease-IsMirrored id reason reg v = elim (Option-cases (get id reg.leases)) [
  | inl f ↦ rw (f, expire_lease) v
  | inr (lease, f) ↦
      let settled = settle_lease id reg in
      IsMirrored-same (expire_lease id reason reg) settled (ground (arith, f)) (ground (arith, f))
        (ground (arith, f)) (settle_lease-IsMirrored id reg v)
]

lease_object-id :
    (id : String) (lease : Lease) (reg : Registry)
    → IsMirrored reg
    → lease_object id reg ≡ some lease
    → lease.id ≡ id
unfolding lease_object
lease_object-id id lease reg v found = elim (Option-cases (get id reg.leases)) [
  | inl f ↦
      let object : get id reg.settled_leases ≡ some lease = ground (arith, f, found) in
      subst (Keyed id) object (v.settled id)
  | inr (l, f) ↦
      let alike : some l ≡ some lease = ground (arith, f, found) in
      (subst (λ o. Agrees id o (get id reg.lease_store.leases)) (f ∙ alike) (v.held id)).0
]

pub Agrees-late :
    (j : String) (lease : Lease) (reg : Registry)
    → get lease.id reg.leases ≡ none
    → IsMirrored reg
    → Agrees j (get j reg.leases) (get j (put_lease (to_persisted lease) reg.lease_store).leases)
unfolding to_persisted
Agrees-late j lease reg f v = elim (Bool-cases (str_eq lease.id j)) [
  | inl e ↦
      let here : lease.id ≡ j = ground (arith, eq_iff lease.id j) in
      rw (ap (λ k. get k reg.leases) (sym here) ∙ f) tt
  | inr e ↦ rw (get-put_lease j (to_persisted lease) reg.lease_store, e) (v.held j)
]

-- A lease's object is changed and persisted.
persist_lease-IsMirrored :
    (lease : Lease) (reg : Registry)
    → IsMirrored reg
    → IsMirrored (persist_lease lease (set_lease lease reg))
unfolding persist_lease set_lease save_lease
persist_lease-IsMirrored lease reg v = elim (Option-cases (get lease.id reg.leases)) [
  | inl f ↦
      IsMirrored-same (persist_lease lease (set_lease lease reg))
        (record reg {
          settled_leases = put lease.id lease reg.settled_leases;
          lease_store = put_lease (to_persisted lease) reg.lease_store;
        })
        (ground (arith, f)) (ground (arith, f)) (ground (arith, f))
        (record {
          held = λ j. Agrees-late j lease reg f v;
          settled = λ j. Keyed-put j lease.id lease reg.settled_leases refl (v.settled j);
        })
  | inr (l, f) ↦
      let saved = save_lease-IsMirrored lease reg v in
      IsMirrored-same (persist_lease lease (set_lease lease reg)) (save_lease lease reg)
        (ground (arith, f)) (ground (arith, f)) (ground (arith, f)) saved
]

pub after_mark-IsMirrored :
    (lease before : Lease) (moved : Bool) (reg : Registry)
    → lease_object lease.id reg ≡ some before
    → (moved ≡ false → to_persisted lease ≡ to_persisted before)
    → IsMirrored reg
    → IsMirrored (after_mark (lease, moved) reg)
after_mark-IsMirrored lease before true reg found same v =
    maybe_finish_pending-IsMirrored lease (persist_lease lease (set_lease lease reg))
      (persist_lease-IsMirrored lease reg v)
after_mark-IsMirrored lease before false reg found same v =
    set_lease-IsMirrored lease before reg found (same refl) v

-- What admission, a failed write and a mark that moves nothing leave of a lease.
pub admit_frame-persisted :
    (lease : Lease) (seq : Option ℕ) → to_persisted (admit_frame lease seq).1 ≡ to_persisted lease
unfolding admit_frame to_persisted
admit_frame-persisted lease none = refl
admit_frame-persisted lease (some seq) = ground arith

write_failed-persisted :
    (lease : Lease) (seq : Option ℕ) → to_persisted (write_failed lease seq) ≡ to_persisted lease
unfolding write_failed to_persisted
write_failed-persisted lease none = refl
write_failed-persisted lease (some seq) = refl

mark_applied-persisted :
    (lease : Lease) (seq : Option ℕ)
    → (mark_applied lease seq).1 ≡ false
    → to_persisted (mark_applied lease seq).0 ≡ to_persisted lease
unfolding mark_applied with_watermark to_persisted
mark_applied-persisted lease none h = refl
mark_applied-persisted lease (some seq) h = ground arith

pub skip_lease_gap-persisted :
    (lease : Lease) (through : ℕ)
    → (skip_lease_gap lease through).1 ≡ false
    → to_persisted (skip_lease_gap lease through).0 ≡ to_persisted lease
unfolding skip_lease_gap with_watermark to_persisted
skip_lease_gap-persisted lease through h = ground arith

mark_applied-id : (lease : Lease) (seq : Option ℕ) → (mark_applied lease seq).0.id ≡ lease.id
unfolding mark_applied with_watermark
mark_applied-id lease none = refl
mark_applied-id lease (some seq) = ground arith

write_failed-id : (lease : Lease) (seq : Option ℕ) → (write_failed lease seq).id ≡ lease.id
unfolding write_failed
write_failed-id lease none = refl
write_failed-id lease (some seq) = refl

pub on_write_failed-IsMirrored :
    (id : String) (seq : Option ℕ) (reg : Registry)
    → IsMirrored reg
    → IsMirrored (on_write_failed id seq reg)
unfolding on_write_failed
on_write_failed-IsMirrored id seq reg v = elim (Option-cases (lease_object id reg)) [
  | inl f ↦ rw (f, on_write_failed) v
  | inr (lease, f) ↦
      let here = lease_object-id id lease reg v f in
      let kept = write_failed-id lease seq ∙ here in
      rw (f, on_write_failed)
        (set_lease-IsMirrored (write_failed lease seq) lease reg
          (ap (λ k. lease_object k reg) kept ∙ f) (write_failed-persisted lease seq) v)
]

pub on_write_landed-IsMirrored :
    (id : String) (seq : Option ℕ) (reg : Registry)
    → IsMirrored reg
    → IsMirrored (on_write_landed id seq reg)
unfolding on_write_landed
on_write_landed-IsMirrored id seq reg v = elim (Option-cases (lease_object id reg)) [
  | inl f ↦ rw (f, on_write_landed) v
  | inr (lease, f) ↦
      let marked = mark_applied lease seq in
      let here = lease_object-id id lease reg v f in
      rw (f, on_write_landed)
        (after_mark-IsMirrored marked.0 lease marked.1 reg
          (ap (λ k. lease_object k reg) (mark_applied-id lease seq ∙ here) ∙ f)
          (mark_applied-persisted lease seq) v)
]
