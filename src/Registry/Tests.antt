-- ===== src/Registry/Tests.antt =====
-- The theorems on the registry at two connected workers, one of which holds a lease.
use brevi.Base.{
  ℕ, ◌≡◌, refl, String, true, false, not, ◌&&◌, ◌||◌, none, some, List, [], ◌∷◌, get, leb,
}
use brevi.Runs.{running}
use brevi.Watermark.{
  Lease, FleetTimes, implementation, mark_applied, with_watermark, pull_up, advance,
}
use brevi.Fleet.{WorkerCapabilities, WorkerRecord, WorkerState, active, FleetStore}
use brevi.Leases.{to_persisted}
use brevi.Leases.Durable.{fresh_store}
use brevi.Registry.{ConnectedWorker, Registry, expire_lease, free_capacity, values}
use brevi.Registry.Place.{place_worker, DispatchRequest}
use brevi.Registry.Place.Choice.{
  eligible, of_placed, is_refused, placed_worker_is_best, refused_iff_none_eligible,
}
use brevi.Registry.Place.Every.{every}
use brevi.Registry.Reports.{on_write_landed}
use brevi.Registry.Reports.Late.{late_write_restores_lease}
use brevi.Registry.Reports.Mirror.{IsMirrored, Agrees-put}
use brevi.Registry.Reports.Agreement.{
  Event, dispatches, claim_settles, frame_arrives, write_lands, expires, steps, leases_stay_stored,
}
use brevi.Registry.Connection.Renewal.{registration, after_registration, register_settles_unclaimed}

abbrev capabilities : WorkerCapabilities
capabilities = record { provider = "bwrap"; agent_commands = "claude" ∷ []; max_concurrency = 2 }

abbrev enrolled : String → WorkerState → WorkerRecord
enrolled id state = record {
  id = id;
  name = id;
  secret_hash = "secret";
  state = state;
  enrolled_at = 0;
  last_seen_at = none;
  capabilities = some capabilities;
  local = false;
}

abbrev times : FleetTimes
times = record { heartbeat_timeout_seconds = 45; reconnect_grace_seconds = 120 }

abbrev fleet : FleetStore
fleet = record {
  workers = ("w1", enrolled "w1" active) ∷ ("w2", enrolled "w2" active) ∷ [];
  pairing_tokens = [];
  on_disk = [];
}

abbrev connected : String → ℕ → ConnectedWorker
connected id socket = record {
  id = id;
  name = id;
  socket = socket;
  capabilities = capabilities;
  last_seen_at = 0;
}

abbrev lease : Lease
lease = record {
  id = "lease";
  run_id = "run";
  worker_id = "w1";
  worker_name = "w1";
  kind = implementation;
  issued_at = 0;
  expires_at = 1000;
  applied_seq = 0;
  applied_ahead = [];
  in_flight_seqs = 1 ∷ [];
}

abbrev registry : Registry
registry = record {
  fleet = fleet;
  runs = ("run", running) ∷ [];
  workers = ("w1", connected "w1" 1) ∷ ("w2", connected "w2" 2) ∷ [];
  leases = ("lease", lease) ∷ [];
  settled_leases = [];
  lease_by_run = ("run", "lease") ∷ [];
  cancel_intents = [];
  saved_artifacts = [];
  completing = [];
  pending_completions = [];
  finishing = [];
  grace = [];
  lease_store = fresh_store [];
  sent = [];
  calls = [];
}

placed_worker_is_best_example :
    of_placed
      (λ w.
        eligible "claude" registry w
        && every
            (λ x.
              not (eligible "claude" registry x)
              || leb (free_capacity registry x) (free_capacity registry w))
            (values registry.workers))
      (place_worker (λ a b. false) "claude" registry)
    ≡ true
placed_worker_is_best_example = placed_worker_is_best (λ a b. false) "claude" registry

refused_iff_none_eligible_example :
    is_refused (place_worker (λ a b. false) "claude" registry)
    ≡ every (λ w. not (eligible "claude" registry w)) (values registry.workers)
refused_iff_none_eligible_example = refused_iff_none_eligible (λ a b. false) "claude" registry

register_settles_unclaimed_example :
    get "lease" (registration times 3 50 60 capabilities [] (enrolled "w1" active) registry).leases
    ≡ after_registration times 60 "w1" [] "lease" (get "lease" registry.leases)
register_settles_unclaimed_example =
    register_settles_unclaimed times 3 50 60 capabilities [] (enrolled "w1" active) registry "lease"
      refl

late_write_restores_lease_example :
    (get "lease" (on_write_landed "lease" (some 1) (expire_lease "lease" "gone" registry)).leases
      ≡ none)
    × (get "lease"
          (on_write_landed "lease"
            (some 1)
            (expire_lease "lease" "gone" registry)).lease_store.leases
        ≡ some (to_persisted (mark_applied lease (some 1)).0))
unfolding mark_applied with_watermark pull_up advance
late_write_restores_lease_example = late_write_restores_lease registry lease "gone" 1 refl refl

abbrev request : DispatchRequest
request = record { run_id = "run2"; kind = implementation; agent_command = "claude" }

-- The registry with its lease in the store, and a write of it queued.
abbrev stored : Registry
stored = record registry {
  lease_store = record {
    leases = ("lease", to_persisted lease) ∷ [];
    timer = false;
    queued = 1;
    on_disk = [];
  };
}

stored-IsMirrored : IsMirrored stored
stored-IsMirrored = record { held = λ id. Agrees-put id lease [] none tt; settled = λ id. tt }

abbrev events : List Event
events =
    dispatches 10 "lease2" request
    ∷ claim_settles true 2 lease
    ∷ frame_arrives 20 "w1" "lease" "run" (some 1)
    ∷ write_lands "lease" (some 1)
    ∷ expires "lease2" "gone"
    ∷ []

leases_stay_stored_example : IsMirrored (steps (λ a b. false) times events stored)
leases_stay_stored_example = leases_stay_stored (λ a b. false) times events stored stored-IsMirrored
