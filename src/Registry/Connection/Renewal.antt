-- ===== src/Registry/Connection/Renewal.antt =====
-- Registration as a whole (`#handleRegister` of workers.ts): what follows once the record is found,
-- and the renewal of the worker's leases that it ends with.
use brevi.Base.{
  ◌∷◌, ℕ, ◌≡◌, refl, ap, ◌∙◌, inl, inr, arith, String, true, not, ◌&&◌, Option, none, some, List,
  [], if◌then◌else◌, Dict, get, get-put, get-delete, delete, put, str_eq, eq_iff, keep, Bool-cases,
  Option-cases, if_ind,
}
use mathlib.Core.Path.{sym}
use brevi.Watermark.{Lease, FleetTimes, renew_lease}
use brevi.Fleet.{WorkerCapabilities, WorkerRecord}
use brevi.Registry.{
  Registry, values, leases_for_worker, send, settle_lease, expire_lease, save_lease, call,
  registered,
}
use brevi.Registry.Connection.{
  ClaimedLease, claims, expire_unclaimed, answer_claims, renew_all, renew_and_ack,
  renew_worker_leases, connect_worker, install,
}
use brevi.Registry.Connection.Claims.{
  well_keyed, has_id, has_id-values, owned_by, install-leases, answer_claims-leases,
  replay_cancels-leases,
}

abbrev pub renewed : FleetTimes → ℕ → Option Lease → Option Lease
renewed times now none = none
renewed times now (some lease) = some (renew_lease times now lease)

-- Renewed, the leases of a list are what is held under their identifiers.
abbrev AllHeld : FleetTimes → ℕ → Dict Lease → List Lease → Type 0
AllHeld times now m [] = Unit
AllHeld times now m (lease ∷ ls) =
    (renewed times now (get lease.id m) ≡ some (renew_lease times now lease))
    × AllHeld times now m ls

module _ (times : FleetTimes) (now : ℕ) where
  renew_one :
      (j : String) (lease : Lease) (m : Dict Lease)
      → renewed times now (get lease.id m) ≡ some (renew_lease times now lease)
      → get j (put lease.id (renew_lease times now lease) m)
        ≡ (if str_eq lease.id j then renewed times now (get j m) else get j m)
  renew_one j lease m h = elim (Bool-cases (str_eq lease.id j)) [
    | inl e ↦
        let same : lease.id ≡ j = ground (arith, eq_iff lease.id j) in
        get-put j lease.id (renew_lease times now lease) m
        ∙ rw e (sym h ∙ ap (λ k. renewed times now (get k m)) same)
    | inr e ↦ get-put j lease.id (renew_lease times now lease) m ∙ rw e refl
  ]

  renewed_twice : (o : Option Lease) → renewed times now (renewed times now o) ≡ renewed times now o
  unfolding renew_lease
  renewed_twice none = refl
  renewed_twice (some lease) = refl

  AllHeld-put :
      (lease : Lease) (m : Dict Lease) (ls : List Lease)
      → renewed times now (get lease.id m) ≡ some (renew_lease times now lease)
      → AllHeld times now m ls
      → AllHeld times now (put lease.id (renew_lease times now lease) m) ls
  AllHeld-put lease m [] h g = tt
  AllHeld-put lease m (l ∷ ls) h g = elim (Bool-cases (str_eq lease.id l.id)) [
    | inl e ↦ (
      ap (renewed times now) (renew_one l.id lease m h) ∙ rw e (renewed_twice (get l.id m) ∙ g.0),
      AllHeld-put lease m ls h g.1,
    )
    | inr e ↦
        (ap (renewed times now) (renew_one l.id lease m h) ∙ rw e g.0, AllHeld-put lease m ls h g.1)
  ]

  renew_all-leases :
      (socket : ℕ) (ls : List Lease) (reg : Registry) (j : String)
      → AllHeld times now reg.leases ls
      → get j (renew_all times now socket ls reg).leases
        ≡ (if has_id j ls then renewed times now (get j reg.leases) else get j reg.leases)
  unfolding renew_all send save_lease renew_lease
  renew_all-leases socket [] reg j h = refl
  renew_all-leases socket (lease ∷ ls) reg j h =
      let next = renew_and_ack times now socket lease reg in
      let rest = renew_all-leases socket ls next j (AllHeld-put lease reg.leases ls h.0 h.1) in
      rest ∙ elim (Bool-cases (str_eq lease.id j)) [
        | inl e ↦ rw e (elim (Bool-cases (has_id j ls)) [
          | inl f ↦ rw f (
              ap (renewed times now) (renew_one j lease reg.leases h.0)
              ∙ rw e (renewed_twice (get j reg.leases)))
          | inr f ↦ rw f (renew_one j lease reg.leases h.0 ∙ rw e refl)
        ])
        | inr e ↦ rw e (elim (Bool-cases (has_id j ls)) [
          | inl f ↦ rw f (ap (renewed times now) (renew_one j lease reg.leases h.0) ∙ rw e refl)
          | inr f ↦ rw f (renew_one j lease reg.leases h.0 ∙ rw e refl)
        ])
      ]

abbrev AllIn : Dict Lease → Dict Lease → Type 0
AllIn m [] = Unit
AllIn m ((k, lease) ∷ rest) = (get lease.id m ≡ some lease) × AllIn m rest

AllIn-cons :
    (k : String) (lease : Lease) (m rest : Dict Lease)
    → get k m ≡ none
    → AllIn m rest
    → AllIn ((k, lease) ∷ m) rest
AllIn-cons k lease m [] h g = tt
AllIn-cons k lease m ((j, l) ∷ rest) h g =
    (ground (arith, eq_iff k l.id, g.0), AllIn-cons k lease m rest h g.1)

keyed-AllIn : (m : Dict Lease) → well_keyed m ≡ true → AllIn m m
keyed-AllIn [] h = tt
keyed-AllIn ((k, lease) ∷ m) h =
    let fresh : get k m ≡ none = ground arith in
    let rest : well_keyed m ≡ true = ground arith in
    (
      ground (arith, eq_iff lease.id k, eq_iff k lease.id),
      AllIn-cons k lease m m fresh (keyed-AllIn m rest),
    )

AllIn-AllHeld :
    (times : FleetTimes) (now : ℕ) (worker_id : String) (m rest : Dict Lease)
    → AllIn m rest
    → AllHeld times now m (keep (λ l. str_eq l.worker_id worker_id) (values rest))
AllIn-AllHeld times now worker_id m [] h = tt
AllIn-AllHeld times now worker_id m ((k, lease) ∷ rest) h =
    if_ind (AllHeld times now m) (str_eq lease.worker_id worker_id) _ _
      (λ e. (ap (renewed times now) h.0, AllIn-AllHeld times now worker_id m rest h.1))
      (λ e. AllIn-AllHeld times now worker_id m rest h.1)

delete-keyed :
    (id : String) (m : Dict Lease) → well_keyed m ≡ true → well_keyed (delete id m) ≡ true
delete-keyed id [] h = ground arith
delete-keyed id ((k, lease) ∷ m) h =
    ground (arith, eq_iff id k, eq_iff k id, get-delete k id m, delete-keyed id m)

expire_lease-keyed :
    (id reason : String) (reg : Registry)
    → well_keyed reg.leases ≡ true
    → well_keyed (expire_lease id reason reg).leases ≡ true
unfolding expire_lease settle_lease call
expire_lease-keyed id reason reg h = elim (Option-cases (get id reg.leases)) [
  | inl f ↦ ground (arith, f, h)
  | inr (lease, f) ↦ ground (arith, f, delete-keyed id reg.leases h)
]

expire_unclaimed-keyed :
    (claimed : List ClaimedLease) (leases : List Lease) (reg : Registry)
    → well_keyed reg.leases ≡ true
    → well_keyed (expire_unclaimed claimed leases reg).leases ≡ true
unfolding expire_unclaimed
expire_unclaimed-keyed claimed [] reg h = h
expire_unclaimed-keyed claimed (lease ∷ leases) reg h = expire_unclaimed-keyed claimed leases _ (
    if_ind (λ (r : Registry). well_keyed r.leases ≡ true) (claims lease.id claimed) _ _ (λ e. h)
      (λ e. expire_lease-keyed lease.id "the worker reconnected without this run" reg h))

-- What `#handleRegister` does once the record is found, the writes of the leases being done at once.
abbrev pub registration :
    FleetTimes
    → (socket now later : ℕ) → WorkerCapabilities
    → List ClaimedLease
    → WorkerRecord
    → Registry
    → Registry
registration times socket now later capabilities claimed worker reg =
    renew_worker_leases times later socket worker.id
      (install socket now capabilities claimed worker reg)

install-keyed :
    (socket now : ℕ) (capabilities : WorkerCapabilities) (claimed : List ClaimedLease)
    (worker : WorkerRecord) (reg : Registry)
    → well_keyed reg.leases ≡ true
    → well_keyed (install socket now capabilities claimed worker reg).leases ≡ true
unfolding install leases_for_worker connect_worker send
install-keyed socket now capabilities claimed worker reg keyed =
    let connected = connect_worker socket now capabilities worker reg in
    let held = leases_for_worker worker.id connected in
    let kept = expire_unclaimed claimed held connected in
    let told = send socket (registered worker.id) kept in
    let answered = answer_claims socket claimed told in
    ap well_keyed (
      replay_cancels-leases socket (leases_for_worker worker.id answered) answered
      ∙ answer_claims-leases socket claimed told)
    ∙ expire_unclaimed-keyed claimed held connected keyed

-- What a registration makes of a lease, by whether its worker claimed it.
abbrev pub after_registration :
    FleetTimes → (later : ℕ) → String → List ClaimedLease → String → Option Lease → Option Lease
after_registration times later worker_id claimed id lease =
    if not (owned_by worker_id lease)
    then lease
    else if claims id claimed
    then renewed times later lease
    else none

-- A worker's registration makes three of the leases, each of which stands under its identifier once:
-- one of the worker's that it claims is held and renewed to the time of the renewal, one of the
-- worker's that it does not claim is gone, and one of another worker is as it was. No other event
-- comes between the settling and the renewal, where the code waits for the leases' writes.
pub register_settles_unclaimed :
    (times : FleetTimes) (socket now later : ℕ) (capabilities : WorkerCapabilities)
    (claimed : List ClaimedLease) (worker : WorkerRecord) (reg : Registry) (id : String)
    → well_keyed reg.leases ≡ true
    → get id (registration times socket now later capabilities claimed worker reg).leases
      ≡ after_registration times later worker.id claimed id (get id reg.leases)
unfolding renew_worker_leases leases_for_worker
register_settles_unclaimed times socket now later capabilities claimed worker reg id keyed =
    let installed = install socket now capabilities claimed worker reg in
    let sound = install-keyed socket now capabilities claimed worker reg keyed in
    let settled = install-leases socket now capabilities claimed worker reg id keyed in
    let held =
      AllIn-AllHeld times later worker.id installed.leases installed.leases
        (keyed-AllIn installed.leases sound) in
    renew_all-leases times later socket (leases_for_worker worker.id installed) installed id held
    ∙ rw (has_id-values id worker.id installed.leases sound)
        (rw settled (split (get id reg.leases)))
  where
    split :
        (o : Option Lease)
        → let kept = if owned_by worker.id o && not (claims id claimed) then none else o in
          (if owned_by worker.id kept then renewed times later kept else kept)
          ≡ after_registration times later worker.id claimed id o
    split none = ground arith
    split (some lease) = ground arith
