-- ===== src/Registry/Reports/Mirror.antt =====
-- Every lease that the registry holds is in the lease store as it is (`#leases` against
-- `#leaseStore` of workers.ts).
use brevi.Base.{
  ◌≡◌, ◌≢◌, refl, sym, ap, ◌∙◌, inl, inr, arith, String, Bool, true, false, Option, none, some,
  List, if◌then◌else◌, get, put, get-put, get-delete, str_eq, eq_iff, Bool-cases, Option-cases,
}
use mathlib.Core.Path.{subst}
use brevi.Watermark.{Lease}
use brevi.Leases.{
  PersistedLease, LeaseStore, to_persisted, put_lease, delete_lease, write_now, write_debounced,
}
use brevi.Registry.{Registry, save_lease, settle_lease}
use brevi.Registry.Reports.{set_lease, lease_object}

-- A lease that is held under a key has that key as its identifier, and is stored as it is.
abbrev pub Agrees : String → Option Lease → Option PersistedLease → Type 0
Agrees id none stored = Unit
Agrees id (some lease) stored = (lease.id ≡ id) × (stored ≡ some (to_persisted lease))

abbrev pub Keyed : String → Option Lease → Type 0
Keyed id none = Unit
Keyed id (some lease) = lease.id ≡ id

pub record IsMirrored (reg : Registry) : Type 0 where
  pub held : (id : String) → Agrees id (get id reg.leases) (get id reg.lease_store.leases)
  pub settled : (id : String) → Keyed id (get id reg.settled_leases)

pub get-put_lease :
    (id : String) (p : PersistedLease) (store : LeaseStore)
    → get id (put_lease p store).leases ≡ (if str_eq p.id id then some p else get id store.leases)
unfolding put_lease write_now write_debounced
get-put_lease id p store = ground (arith, get-put id p.id p store.leases)

get-delete_lease :
    (j id : String) (store : LeaseStore)
    → get j (delete_lease id store).leases ≡ (if str_eq id j then none else get j store.leases)
unfolding delete_lease write_now
get-delete_lease j id store = ground (arith, get-delete j id store.leases, eq_iff id j)

-- Putting a lease and what is stored of it at once.
pub Agrees-put :
    (id : String) (lease : Lease) (held : List (String × Lease)) (stored : Option PersistedLease)
    → Agrees id (get id held) stored
    → Agrees id
        (get id (put lease.id lease held))
        (if str_eq lease.id id then some (to_persisted lease) else stored)
Agrees-put id lease held stored h = elim (Bool-cases (str_eq lease.id id)) [
  | inl e ↦
      let same : lease.id ≡ id = ground (arith, eq_iff lease.id id) in
      rw (get-put id lease.id lease held, e) (same, refl)
  | inr e ↦ rw (get-put id lease.id lease held, e) h
]

pub save_lease-IsMirrored :
    (lease : Lease) (reg : Registry) → IsMirrored reg → IsMirrored (save_lease lease reg)
unfolding save_lease to_persisted
save_lease-IsMirrored lease reg v = record {
  held = λ id.
      rw (get-put_lease id (to_persisted lease) reg.lease_store)
        (Agrees-put id lease reg.leases (get id reg.lease_store.leases) (v.held id));
  settled = v.settled;
}

settle_lease-leases :
    (id j : String) (reg : Registry)
    → get j (settle_lease id reg).leases ≡ (if str_eq id j then none else get j reg.leases)
unfolding settle_lease
settle_lease-leases id j reg = elim (Option-cases (get id reg.leases)) [
  | inl f ↦ ground (arith, f, eq_iff id j)
  | inr (lease, f) ↦ ground (arith, f, get-delete j id reg.leases)
]

settle_lease-stored :
    (id j : String) (reg : Registry)
    → get id reg.leases ≢ none
    → get j (settle_lease id reg).lease_store.leases
      ≡ (if str_eq id j then none else get j reg.lease_store.leases)
unfolding settle_lease
settle_lease-stored id j reg held = elim (Option-cases (get id reg.leases)) [
  | inl f ↦ absurd (held f)
  | inr (lease, f) ↦ ground (arith, f, get-delete_lease j id reg.lease_store)
]

settle_lease-settled :
    (id : String) (lease : Lease) (reg : Registry)
    → get id reg.leases ≡ some lease
    → (settle_lease id reg).settled_leases ≡ put id lease reg.settled_leases
unfolding settle_lease
settle_lease-settled id lease reg f = rw (f, settle_lease) refl

Agrees-delete :
    (b : Bool) (id : String) (lease : Option Lease) (stored : Option PersistedLease)
    → Agrees id lease stored
    → Agrees id (if b then none else lease) (if b then none else stored)
Agrees-delete true id lease stored h = tt
Agrees-delete false id lease stored h = h

pub Keyed-put :
    (j id : String) (lease : Lease) (m : List (String × Lease))
    → lease.id ≡ id
    → Keyed j (get j m)
    → Keyed j (get j (put id lease m))
Keyed-put j id lease m same h = elim (Bool-cases (str_eq id j)) [
  | inl e ↦
      let here : id ≡ j = ground (arith, eq_iff id j) in rw (get-put j id lease m, e) (same ∙ here)
  | inr e ↦ rw (get-put j id lease m, e) h
]

pub settle_lease-IsMirrored :
    (id : String) (reg : Registry) → IsMirrored reg → IsMirrored (settle_lease id reg)
unfolding settle_lease
settle_lease-IsMirrored id reg v = elim (Option-cases (get id reg.leases)) [
  | inl f ↦ rw (f, settle_lease) v
  | inr (lease, f) ↦
      let here : Agrees id (some lease) (get id reg.lease_store.leases) =
        subst (λ o. Agrees id o (get id reg.lease_store.leases)) f (v.held id) in
      let held : get id reg.leases ≢ none = λ n. ground (arith, f, n) in
      record {
        held = λ j.
            rw (settle_lease-leases id j reg, settle_lease-stored id j reg held)
              (Agrees-delete (str_eq id j) j (get j reg.leases) (get j reg.lease_store.leases)
                (v.held j));
        settled = λ j.
            rw (settle_lease-settled id lease reg f)
              (Keyed-put j id lease reg.settled_leases here.0 (v.settled j));
      }
]

Agrees-set :
    (j : String) (lease before : Lease) (held : List (String × Lease))
    (stored : Option PersistedLease)
    → get lease.id held ≡ some before
    → to_persisted lease ≡ to_persisted before
    → Agrees j (get j held) stored
    → Agrees j (get j (put lease.id lease held)) stored
Agrees-set j lease before held stored f same h = elim (Bool-cases (str_eq lease.id j)) [
  | inl e ↦
      let here : lease.id ≡ j = ground (arith, eq_iff lease.id j) in
      let old : Agrees j (some before) stored =
        subst (λ o. Agrees j o stored) (ap (λ k. get k held) (sym here) ∙ f) h in
      rw (get-put j lease.id lease held, e) (here, old.1 ∙ ap some (sym same))
  | inr e ↦ rw (get-put j lease.id lease held, e) h
]

-- A change of a lease's object that leaves what is persisted of it.
pub set_lease-IsMirrored :
    (lease before : Lease) (reg : Registry)
    → lease_object lease.id reg ≡ some before
    → to_persisted lease ≡ to_persisted before
    → IsMirrored reg
    → IsMirrored (set_lease lease reg)
unfolding set_lease lease_object
set_lease-IsMirrored lease before reg found same v = elim (Option-cases (get lease.id reg.leases)) [
  | inl f ↦
      rw (f, set_lease)
        (record {
          held = v.held;
          settled = λ j. Keyed-put j lease.id lease reg.settled_leases refl (v.settled j);
        })
  | inr (l, f) ↦
      let object : lease_object lease.id reg ≡ some l = rw (f, lease_object) refl in
      let alike : l ≡ before = ground (arith, object, found) in
      let kept : to_persisted lease ≡ to_persisted l = same ∙ ap to_persisted (sym alike) in
      rw (f, set_lease)
        (record {
          held =
              λ j. Agrees-set j lease l reg.leases (get j reg.lease_store.leases) f kept (v.held j);
          settled = v.settled;
        })
]
