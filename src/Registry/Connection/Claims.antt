-- ===== src/Registry/Connection/Claims.antt =====
-- What the leases of a worker are after it registered (`#handleRegister` of workers.ts).
use brevi.Base.{
  ◌∷◌, ℕ, ◌≡◌, refl, ap, ◌∙◌, inl, inr, arith, String, Bool, true, false, not, ◌&&◌, ◌||◌, Option,
  none, some, List, [], if◌then◌else◌, Dict, get, get-delete, contains, str_eq, eq_iff, keep,
  Bool-cases, Option-cases,
}
use brevi.Watermark.{Lease}
use brevi.Fleet.{WorkerCapabilities, WorkerRecord}
use brevi.Registry.{
  Registry, values, leases_for_worker, send, settle_lease, expire_lease, call, registered,
}
use brevi.Registry.Connection.{
  ClaimedLease, claims, is_held, expire_unclaimed, answer_claims, replay_cancels, connect_worker,
  install,
}

-- Every lease stands under its identifier, once.
abbrev pub well_keyed : Dict Lease → Bool
well_keyed [] = true
well_keyed ((k, lease) ∷ m) =
    str_eq lease.id k && elim (get k m) [ none ↦ true | some l ↦ false ] && well_keyed m

abbrev pub has_id : String → List Lease → Bool
has_id id [] = false
has_id id (lease ∷ leases) = str_eq lease.id id || has_id id leases

expire_lease-leases :
    (id : String) (reason : String) (reg : Registry) (j : String)
    → get j (expire_lease id reason reg).leases ≡ (if str_eq id j then none else get j reg.leases)
unfolding expire_lease settle_lease call
expire_lease-leases id reason reg j = elim (Option-cases (get id reg.leases)) [
  | inl f ↦ ground (arith, eq_iff id j, f)
  | inr (lease, f) ↦ ground (arith, eq_iff id j, f, get-delete j id reg.leases)
]

expire_unclaimed-leases :
    (claimed : List ClaimedLease) (leases : List Lease) (reg : Registry) (j : String)
    → get j (expire_unclaimed claimed leases reg).leases
      ≡ (if not (claims j claimed) && has_id j leases then none else get j reg.leases)
unfolding expire_unclaimed
expire_unclaimed-leases claimed [] reg j = ground arith
expire_unclaimed-leases claimed (lease ∷ leases) reg j =
    let reason : String = "the worker reconnected without this run" in
    elim (Bool-cases (claims lease.id claimed)) [
      | inl e ↦ ground (arith, e, eq_iff lease.id j, expire_unclaimed-leases claimed leases reg j)
      | inr e ↦ ground (
        arith,
        e,
        eq_iff lease.id j,
        expire_unclaimed-leases claimed leases (expire_lease lease.id reason reg) j,
        expire_lease-leases lease.id reason reg j,
      )
    ]

pub answer_claims-leases :
    (socket : ℕ) (cs : List ClaimedLease) (reg : Registry)
    → (answer_claims socket cs reg).leases ≡ reg.leases
unfolding answer_claims send
answer_claims-leases socket [] reg = refl
answer_claims-leases socket (c ∷ cs) reg = elim (Bool-cases (is_held c.id reg)) [
  | inl e ↦ rw (e, answer_claims) (answer_claims-leases socket cs reg)
  | inr e ↦ rw (e, answer_claims) (answer_claims-leases socket cs (send socket _ reg))
]

pub replay_cancels-leases :
    (socket : ℕ) (leases : List Lease) (reg : Registry)
    → (replay_cancels socket leases reg).leases ≡ reg.leases
unfolding replay_cancels send
replay_cancels-leases socket [] reg = refl
replay_cancels-leases socket (l ∷ ls) reg = elim (Bool-cases (contains l.id reg.cancel_intents)) [
  | inl e ↦ rw (e, replay_cancels) (replay_cancels-leases socket ls (send socket _ reg))
  | inr e ↦ rw (e, replay_cancels) (replay_cancels-leases socket ls reg)
]

-- Whether the worker holds the lease.
abbrev pub owned_by : String → Option Lease → Bool
owned_by worker_id none = false
owned_by worker_id (some lease) = str_eq lease.worker_id worker_id

pub has_id-values :
    (id worker_id : String) (m : Dict Lease)
    → well_keyed m ≡ true
    → has_id id (keep (λ l. str_eq l.worker_id worker_id) (values m))
      ≡ owned_by worker_id (get id m)
has_id-values id worker_id [] h = refl
has_id-values id worker_id ((k, lease) ∷ m) h =
    ground (arith, eq_iff lease.id k, eq_iff k id, has_id-values id worker_id m)

-- Up to where a registration waits for the leases' writes: a lease is gone exactly if the worker held
-- it and did not claim it; every other lease is as it was.
pub install-leases :
    (socket now : ℕ) (capabilities : WorkerCapabilities) (claimed : List ClaimedLease)
    (worker : WorkerRecord) (reg : Registry) (id : String)
    → well_keyed reg.leases ≡ true
    → get id (install socket now capabilities claimed worker reg).leases ≡ (
        if owned_by worker.id (get id reg.leases) && not (claims id claimed)
        then none
        else get id reg.leases)
unfolding install leases_for_worker connect_worker send
install-leases socket now capabilities claimed worker reg id keyed =
    let connected = connect_worker socket now capabilities worker reg in
    let held = leases_for_worker worker.id connected in
    let kept = expire_unclaimed claimed held connected in
    let told = send socket (registered worker.id) kept in
    let answered = answer_claims socket claimed told in
    ap (get id) (
      replay_cancels-leases socket (leases_for_worker worker.id answered) answered
      ∙ answer_claims-leases socket claimed told)
    ∙ ground (
      arith,
      expire_unclaimed-leases claimed held connected id,
      has_id-values id worker.id reg.leases keyed,
    )
