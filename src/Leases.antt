-- ===== src/Leases.antt =====
-- packages/orchestrator/src/leases.ts on packages/shared/src/jsonStore.ts: the leases on disk. A write
-- that is queued takes the map as it is when the write runs, so the queue is a number of writes; each
-- runs at a step of its own and may fail. The timer of the debounce fires at a step of its own. The
-- map itself stands for the file's text: `atomicWriteJson` replaces the whole file or nothing.
pub mod Durable
mod Tests
use brevi.Base.{
  ◌∷◌, ℕ, zero, suc, ◌+◌, ◌-◌, String, Bool, true, false, not, ◌&&◌, ◌||◌, Option, none, some, List,
  [], if◌then◌else◌, Dict, get, put, delete,
}
use brevi.Watermark.{DispatchKind, Lease}

pub record PersistedLease : Type 0 where
  pub id : String
  pub run_id : String
  pub worker_id : String
  pub worker_name : String
  pub kind : DispatchKind
  pub issued_at : ℕ
  pub expires_at : ℕ
  pub applied_seq : ℕ

-- `timer` says whether a debounced write is scheduled, `queued` how many writes are on the chain.
pub record LeaseStore : Type 0 where
  pub leases : Dict PersistedLease
  pub timer : Bool
  pub queued : ℕ
  pub on_disk : Dict PersistedLease

-- The loop of `init` over the entries; one that `isPersistedLease` refuses is `none`.
unfoldable pub load_entries :
    List (Option PersistedLease) → Dict PersistedLease → Dict PersistedLease
load_entries [] leases = leases
load_entries (none ∷ entries) leases = load_entries entries leases
load_entries (some entry ∷ entries) leases = load_entries entries (put entry.id entry leases)

-- A file that is missing, corrupt or no array is `none`.
unfoldable pub init : Option (List (Option PersistedLease)) → LeaseStore → LeaseStore
unfolding load_entries
init none store = store
init (some entries) store = record store { leases = load_entries entries store.leases }

unfoldable pub write_now : LeaseStore → LeaseStore
write_now store = record store { timer = false; queued = store.queued + 1 }

unfoldable pub write_debounced : LeaseStore → LeaseStore
write_debounced store = if store.timer then store else record store { timer = true }

unfoldable pub put_lease : PersistedLease → LeaseStore → LeaseStore
unfolding write_now write_debounced
put_lease lease store =
    let stored = record store { leases = put lease.id lease store.leases } in
    elim (get lease.id store.leases) [
      | none ↦ write_now stored
      | some known ↦ write_debounced stored
    ]

-- Resolves with its own write, which `run_write` runs.
unfoldable pub put_durable : PersistedLease → LeaseStore → LeaseStore
put_durable lease store = record store {
  leases = put lease.id lease store.leases;
  timer = false;
  queued = store.queued + 1;
}

unfoldable pub delete_lease : String → LeaseStore → LeaseStore
unfolding write_now
delete_lease id store = elim (get id store.leases) [
  | none ↦ store
  | some known ↦ write_now (record store { leases = delete id store.leases })
]

-- What `flush` does before it waits for the chain.
unfoldable pub flush : LeaseStore → LeaseStore
unfolding write_now
flush store = if store.timer then write_now store else store

-- The debounce's timer fires: it does so only while it is set.
unfoldable pub fire_timer : LeaseStore → LeaseStore
unfolding write_now
fire_timer store = if store.timer then write_now store else store

-- The first write on the chain runs; one that fails leaves the file and the writes behind it.
unfoldable pub run_write : Bool → LeaseStore → LeaseStore
run_write succeeds store = elim store.queued [
  | zero ↦ store
  | suc rest ↦
      if succeeds
      then record store { queued = rest; on_disk = store.leases }
      else record store { queued = rest }
]

-- `#toPersisted` of workers.ts.
unfoldable pub to_persisted : Lease → PersistedLease
to_persisted lease = record {
  id = lease.id;
  run_id = lease.run_id;
  worker_id = lease.worker_id;
  worker_name = lease.worker_name;
  kind = lease.kind;
  issued_at = lease.issued_at;
  expires_at = lease.expires_at;
  applied_seq = lease.applied_seq;
}
