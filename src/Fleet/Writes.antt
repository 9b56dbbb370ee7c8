-- ===== src/Fleet/Writes.antt =====
-- The writes of the fleet's file one by one (`#persist` of packages/orchestrator/src/fleet.ts and
-- `WriteQueue` of packages/shared/src/jsonStore.ts): a call changes the records and queues a text of
-- them, and its continuation follows when that write settles.
use brevi.Base.{
  ◌∷◌, ℕ, ◌≡◌, refl, sym, ap, ◌∙◌, inl, inr, arith, String, Bool, true, false, Option, none, some,
  List, [], ◌++◌, if◌then◌else◌, Dict, get, put, delete, get-put, get-delete, leb, str_eq, eq_iff,
  Bool-cases,
}
use mathlib.Core.Path.{subst}
use brevi.Fleet.{
  WorkerCapabilities, WorkerRecord, FleetStore, Platform, enrolled, sweep_pairing_tokens,
  refreshed_by,
}

-- The texts that are queued hold the records as they were when they were queued.
pub record FleetWrites : Type 0 where
  pub store : FleetStore
  pub queued : List (Dict WorkerRecord)

unfoldable pub persist_call : FleetWrites → FleetWrites
persist_call fleet = record fleet { queued = fleet.queued ++ fleet.store.workers ∷ [] }

-- The first write on the chain settles.
unfoldable pub write_settles : Bool → FleetWrites → FleetWrites
write_settles ok fleet = elim fleet.queued [
  | [] ↦ fleet
  | text ∷ rest ↦
      if ok
      then record fleet { queued = rest; store = record fleet.store { on_disk = text } }
      else record fleet { queued = rest }
]

-- `touch` up to its write.
unfoldable pub touch_call :
    String → Option ℕ → Option WorkerCapabilities → FleetWrites → FleetWrites
unfolding persist_call
touch_call id seen capabilities fleet = elim (get id fleet.store.workers) [
  | none ↦ fleet
  | some worker ↦
      let workers = put id (refreshed_by seen capabilities worker) fleet.store.workers in
      persist_call (record fleet { store = record fleet.store { workers = workers } })
]

-- The `catch` of `redeemPairing`.
unfoldable pub redeem_undone : String → FleetWrites → FleetWrites
redeem_undone id fleet = record fleet {
  store = record fleet.store { workers = delete id fleet.store.workers };
}

-- The first of two queued writes fails, the enrolment of the worker is undone, and the second lands.
abbrev pub settled_apart : String → FleetWrites → FleetWrites
settled_apart id fleet = write_settles true (redeem_undone id (write_settles false fleet))

touch_call-known :
    (other : String) (seen : Option ℕ) (w : WorkerRecord) (fleet : FleetWrites)
    → get other fleet.store.workers ≡ some w
    → let workers = put other (refreshed_by seen none w) fleet.store.workers in
      touch_call other seen none fleet
      ≡ persist_call (record fleet { store = record fleet.store { workers = workers } })
unfolding touch_call
touch_call-known other seen w fleet e = rw (e, touch_call) refl

module _ (platform : Platform) where
  open platform use {sha256_hex}

  -- `redeemPairing` up to its write.
  unfoldable pub redeem_call :
      (token : String) (name : Option String) (capabilities : WorkerCapabilities) (now : ℕ)
      (id credential : String)
      → FleetWrites
      → FleetWrites
  unfolding sweep_pairing_tokens persist_call
  redeem_call token name capabilities now id credential fleet =
      let key = sha256_hex token in
      let swept = record fleet.store {
        pairing_tokens = sweep_pairing_tokens now (delete key fleet.store.pairing_tokens);
      } in
      elim (get key fleet.store.pairing_tokens) [
        | none ↦ record fleet { store = swept }
        | some expires_at ↦
            if leb expires_at now
            then record fleet { store = swept }
            else (let worker = enrolled platform id credential now name capabilities swept in
                persist_call
                  (record fleet { store = record swept { workers = put id worker swept.workers } }))
      ]

  abbrev swept_store : (token : String) → (now : ℕ) → FleetWrites → FleetStore
  swept_store token now fleet = record fleet.store {
    pairing_tokens =
        sweep_pairing_tokens now (delete (sha256_hex token) fleet.store.pairing_tokens);
  }

  differ :
      (id other : String) (w : WorkerRecord) (store : FleetStore)
      → get other store.workers ≡ some w
      → get id store.workers ≡ none
      → str_eq id other ≡ false
  differ id other w store held fresh = elim (Bool-cases (str_eq id other)) [
    | inr e ↦ e
    | inl e ↦
        let same : id ≡ other = ground (arith, eq_iff id other) in
        let found = ap (λ k. get k store.workers) same in ground (arith, found, held, fresh)
  ]

  redeem_call-valid :
      (token : String) (name : Option String) (capabilities : WorkerCapabilities) (now : ℕ)
      (id credential : String) (expires_at : ℕ) (fleet : FleetWrites)
      → get (sha256_hex token) fleet.store.pairing_tokens ≡ some expires_at
      → leb expires_at now ≡ false
      → let swept = swept_store token now fleet in
        let worker = enrolled platform id credential now name capabilities swept in
        redeem_call token name capabilities now id credential fleet
        ≡ persist_call
            (record fleet { store = record swept { workers = put id worker swept.workers } })
  unfolding redeem_call
  redeem_call-valid token name capabilities now id credential expires_at fleet valid early =
      rw (valid, early, redeem_call) refl

  -- The queue is empty, a token is redeemed for a new worker, and before the write is done a heartbeat
  -- touches another worker. The first write fails and the enrolment is undone, so that no worker has
  -- the identifier; but the second write then puts the worker on disk with its credential. The token
  -- is valid, the drawn identifier is new, and the other worker is enrolled.
  pub undone_enrolment_is_written :
      (token : String) (name : Option String) (capabilities : WorkerCapabilities) (now : ℕ)
      (id credential other : String) (seen : Option ℕ) (expires_at : ℕ) (w : WorkerRecord)
      (store : FleetStore)
      → get (sha256_hex token) store.pairing_tokens ≡ some expires_at
      → leb expires_at now ≡ false
      → get other store.workers ≡ some w
      → get id store.workers ≡ none
      → let fleet : FleetWrites = record { store = store; queued = [] } in
        let called = redeem_call token name capabilities now id credential fleet in
        let end = settled_apart id (touch_call other seen none called) in
        (get id end.store.workers ≡ none)
        × ((worker : WorkerRecord) × (get id end.store.on_disk ≡ some worker)
            × (worker.secret_hash ≡ sha256_hex credential))
  unfolding persist_call write_settles redeem_undone
  undone_enrolment_is_written token name capabilities now id credential other seen expires_at w
        store valid early held fresh =
      let fleet : FleetWrites = record { store = store; queued = [] } in
      let swept = swept_store token now fleet in
      let worker = enrolled platform id credential now name capabilities swept in
      let workers = put id worker store.workers in
      let called =
        redeem_call-valid token name capabilities now id credential expires_at fleet valid early in
      let apart : str_eq id other ≡ false = differ id other w store held fresh in
      let known : get other workers ≡ some w =
        get-put other id worker store.workers ∙ rw apart held in
      let touched =
        ap (touch_call other seen none) called ∙ touch_call-known other seen w _ known in
      subst
        (λ f.
          (get id (settled_apart id f).store.workers ≡ none)
          × ((x : WorkerRecord) × (get id (settled_apart id f).store.on_disk ≡ some x)
              × (x.secret_hash ≡ sha256_hex credential)))
        (sym touched)
        (
          get-delete id id (put other (refreshed_by seen none w) workers)
              ∙ ground (arith, eq_iff id id),
          (
            worker,
            get-put id other (refreshed_by seen none w) workers
                ∙ ground (
                  arith,
                  eq_iff id other,
                  eq_iff other id,
                  apart,
                  get-put id id worker store.workers,
                  eq_iff id id,
                ),
            refl,
          ),
        )
