-- ===== src/Leases/Tests.antt =====
-- The theorems on the lease store at a claim, a debounced watermark and a release.
use brevi.Base.{ℕ, ◌≡◌, refl, true, List, [], ◌∷◌, get}
use brevi.Watermark.{implementation}
use brevi.Leases.{PersistedLease, flush}
use brevi.Leases.Durable.{
  Event, puts, puts_durable, fires, writes, steps, has, fresh_store, write_all, claims_reach_disk,
  flush_saves,
}

abbrev lease : ℕ → PersistedLease
lease applied = record {
  id = "lease";
  run_id = "run";
  worker_id = "worker";
  worker_name = "box";
  kind = implementation;
  issued_at = 0;
  expires_at = 1000;
  applied_seq = applied;
}

abbrev claimed : List Event
claimed = puts_durable (lease 0) ∷ writes true ∷ puts (lease 1) ∷ []

abbrev saved : List Event
saved = puts_durable (lease 0) ∷ writes true ∷ puts (lease 1) ∷ fires ∷ writes true ∷ []

claims_reach_disk_example :
    has "lease" (steps claimed (fresh_store [])).on_disk
    ≡ has "lease" (steps claimed (fresh_store [])).leases
unfolding steps
claims_reach_disk_example = claims_reach_disk [] claimed "lease" refl refl

flush_saves_example :
    get "lease"
      (write_all
        (flush (steps claimed (fresh_store []))).queued
        (flush (steps claimed (fresh_store [])))).on_disk
    ≡ get "lease" (steps claimed (fresh_store [])).leases
flush_saves_example = flush_saves [] claimed "lease" refl
