-- ===== src/Leases/Durable.antt =====
-- What of the leases is on disk, over any sequence of operations and writes (leases.ts).
use brevi.Base.{
  ◌∷◌, ℕ, zero, suc, ◌-◌, ◌≡◌, refl, ap, ◌∙◌, inl, inr, arith, String, Bool, true, false, ◌&&◌,
  none, some, List, [], Dict, get, get-put, eq_iff, Option-cases,
}
use brevi.Leases.{
  PersistedLease, LeaseStore, put_lease, put_durable, delete_lease, flush, fire_timer, run_write,
  write_now, write_debounced,
}

-- What may happen to the store.
pub data Event : Type 0 where
  puts : PersistedLease → Event
  puts_durable : PersistedLease → Event
  deletes : String → Event
  flushes fires : Event
  writes : Bool → Event

unfoldable pub step : Event → LeaseStore → LeaseStore
unfolding put_lease put_durable delete_lease flush fire_timer run_write
step (puts lease) store = put_lease lease store
step (puts_durable lease) store = put_durable lease store
step (deletes id) store = delete_lease id store
step flushes store = flush store
step fires store = fire_timer store
step (writes succeeds) store = run_write succeeds store

unfoldable pub steps : List Event → LeaseStore → LeaseStore
unfolding step
steps [] store = store
steps (e ∷ es) store = steps es (step e store)

-- No write of the sequence fails.
abbrev pub all_written : List Event → Bool
all_written [] = true
all_written (writes succeeds ∷ es) = succeeds && all_written es
all_written (_ ∷ es) = all_written es

abbrev pub has {ℓ} : {V : Type ℓ} → String → Dict V → Bool
has id m = elim (get id m) [ none ↦ false | some v ↦ true ]

-- At one identifier: with no write on the chain the file knows it exactly when the map does, and with
-- no timer either it holds the same lease.
abbrev SavedAt : String → LeaseStore → Type 0
SavedAt id store =
    ((store.queued ≡ 0) → has id store.on_disk ≡ has id store.leases)
    × ((store.queued ≡ 0) → (store.timer ≡ false) → get id store.on_disk ≡ get id store.leases)

step-SavedAt :
    (e : Event) (id : String) (store : LeaseStore)
    → all_written (e ∷ []) ≡ true
    → SavedAt id store
    → SavedAt id (step e store)
unfolding step put_lease put_durable delete_lease flush fire_timer run_write write_now
    write_debounced
step-SavedAt (puts lease) id store w s =
    let found = get-put id lease.id lease store.leases in
    let same = eq_iff lease.id id in
    (λ q. ground (arith, found, same, s.0), λ q t. ground (arith, found, same, s.1))
step-SavedAt (puts_durable lease) id store w s = (λ q. ground arith, λ q t. ground arith)
step-SavedAt (deletes key) id store w s = elim (Option-cases (get key store.leases)) [
  | inl f ↦ rw (f, step, delete_lease) s
  | inr (old, f) ↦ rw (f, step, delete_lease) (λ q. ground arith, λ q t. ground arith)
]
step-SavedAt flushes id store w s = (λ q. ground (arith, s.0), λ q t. ground (arith, s.1))
step-SavedAt fires id store w s = (λ q. ground (arith, s.0), λ q t. ground (arith, s.1))
step-SavedAt (writes succeeds) id store w s = (λ q. ground (arith, s.0), λ q t. ground (arith, s.1))

all_written-split :
    (e : Event) (es : List Event) → all_written (e ∷ es) ≡ (all_written (e ∷ []) && all_written es)
all_written-split (puts lease) es = refl
all_written-split (puts_durable lease) es = refl
all_written-split (deletes id) es = refl
all_written-split flushes es = refl
all_written-split fires es = refl
all_written-split (writes succeeds) es = ground arith

steps-SavedAt :
    (es : List Event) (id : String) (store : LeaseStore)
    → all_written es ≡ true
    → SavedAt id store
    → SavedAt id (steps es store)
unfolding steps
steps-SavedAt [] id store w s = s
steps-SavedAt (e ∷ es) id store w s =
    let both = all_written-split e es in
    steps-SavedAt es id (step e store) (ground arith) (step-SavedAt e id store (ground arith) s)

abbrev pub fresh_store : Dict PersistedLease → LeaseStore
fresh_store loaded = record { leases = loaded; timer = false; queued = 0; on_disk = loaded }

-- From a store that holds what its file does: after any operations, as long as no write failed, once
-- no write is queued the file has a lease exactly when the store does. The debounce never delays the
-- claim or the release of a lease.
pub claims_reach_disk :
    (loaded : Dict PersistedLease) (es : List Event) (id : String)
    → all_written es ≡ true
    → (steps es (fresh_store loaded)).queued ≡ 0
    → has id (steps es (fresh_store loaded)).on_disk ≡ has id (steps es (fresh_store loaded)).leases
claims_reach_disk loaded es id w q =
    (steps-SavedAt es id (fresh_store loaded) w (λ q. refl, λ q t. refl)).0 q

-- Under the same conditions, once no debounced write is scheduled either, the file holds exactly what
-- the store holds.
pub saved_when_quiet :
    (loaded : Dict PersistedLease) (es : List Event) (id : String)
    → all_written es ≡ true
    → (steps es (fresh_store loaded)).queued ≡ 0
    → (steps es (fresh_store loaded)).timer ≡ false
    → get id (steps es (fresh_store loaded)).on_disk ≡ get id (steps es (fresh_store loaded)).leases
saved_when_quiet loaded es id w q t =
    (steps-SavedAt es id (fresh_store loaded) w (λ q. refl, λ q t. refl)).1 q t

abbrev pub write_all : ℕ → LeaseStore → LeaseStore
unfolding run_write
write_all zero store = store
write_all (suc n) store = write_all n (run_write true store)

write_all-queued :
    (n : ℕ) (store : LeaseStore)
    → ((write_all n store).leases ≡ store.leases)
      × ((write_all n store).queued ≡ store.queued - n)
      × ((write_all n store).timer ≡ store.timer)
unfolding run_write
write_all-queued zero store = (refl, omega arith, refl)
write_all-queued (suc n) store =
    let rest = write_all-queued n (run_write true store) in
    (ground (arith, rest.0), ground (arith, rest.1), ground (arith, rest.2))

write_all-SavedAt :
    (n : ℕ) (id : String) (store : LeaseStore) → SavedAt id store → SavedAt id (write_all n store)
unfolding step
write_all-SavedAt zero id store s = s
write_all-SavedAt (suc n) id store s =
    write_all-SavedAt n id (run_write true store) (step-SavedAt (writes true) id store refl s)

flush-timer : (store : LeaseStore) → (flush store).timer ≡ false
unfolding flush write_now
flush-timer store = ground arith

flush-leases : (store : LeaseStore) → (flush store).leases ≡ store.leases
unfolding flush write_now
flush-leases store = ground arith

-- From a store that holds what its file does, after any operations whose writes succeed: `flush`,
-- once the writes then queued have run, leaves the file with exactly what the store held.
pub flush_saves :
    (loaded : Dict PersistedLease) (es : List Event) (id : String)
    → all_written es ≡ true
    → get id
        (write_all
          (flush (steps es (fresh_store loaded))).queued
          (flush (steps es (fresh_store loaded)))).on_disk
      ≡ get id (steps es (fresh_store loaded)).leases
unfolding step
flush_saves loaded es id w =
    let before = steps es (fresh_store loaded) in
    let flushed = flush before in
    let saved =
      step-SavedAt flushes id before refl
        (steps-SavedAt es id (fresh_store loaded) w (λ q. refl, λ q t. refl)) in
    let counts = write_all-queued flushed.queued flushed in
    (write_all-SavedAt flushed.queued id flushed saved).1 (omega (arith, counts.1))
      (counts.2 ∙ flush-timer before)
    ∙ ap (get id) (counts.0 ∙ flush-leases before)
