-- ===== src/Registry/Place.antt =====
-- Which worker a run is dispatched to, and the dispatch (`#placeWorker`, `dispatch`, `capacity`,
-- `spareCapacity` of workers.ts). `localeCompare` is a parameter.
pub mod Every
pub mod Choice
use brevi.Base.{
  ◌∷◌, ℕ, zero, suc, ◌+◌, ◌-◌, String, Bool, true, false, not, ◌&&◌, ◌||◌, Option, none, some, List,
  [], if◌then◌else◌, get, put, keep, length, contains, str_eq, ltb, leb, ◌==◌, sort_by,
}
use brevi.Watermark.{DispatchKind, Lease, FleetTimes, lease_deadline}
use brevi.Leases.{put_durable, run_write, to_persisted}
use brevi.Registry.{
  ConnectedWorker, Registry, values, is_draining, free_capacity, send, call, dispatched,
  run_rejected, settle_lease,
}

-- Why no worker takes the run; the numbers are those of the texts.
pub data Refusal : Type 0 where
  no_workers : Refusal
  all_draining : ℕ → Refusal
  none_isolated : Refusal
  none_with_agent : String → Refusal
  all_full : ℕ → Refusal

pub data Placement : Type 0 where
  placed : ConnectedWorker → Placement
  refused : Refusal → Placement

unfoldable pub isolates : ConnectedWorker → Bool
isolates w = str_eq w.capabilities.provider "bwrap" || str_eq w.capabilities.provider "seatbelt"

unfoldable pub has_agent : String → ConnectedWorker → Bool
has_agent command w = contains command w.capabilities.agent_commands

-- `locale_after a b`: `a.localeCompare(b) > 0`.
unfoldable pub ranks_after :
    (String → String → Bool) → Registry → ConnectedWorker → ConnectedWorker → Bool
unfolding free_capacity
ranks_after locale_after reg a b =
    if free_capacity reg a == free_capacity reg b
    then locale_after a.id b.id
    else ltb (free_capacity reg a) (free_capacity reg b)

abbrev first_of : List ConnectedWorker → Refusal → Placement
first_of [] refusal = refused refusal
first_of (w ∷ ws) refusal = placed w

abbrev or_refuse : List ConnectedWorker → Refusal → Placement → Placement
or_refuse [] refusal rest = refused refusal
or_refuse (w ∷ ws) refusal rest = rest

unfoldable pub place_worker : (String → String → Bool) → String → Registry → Placement
unfolding ranks_after isolates has_agent is_draining free_capacity
place_worker locale_after agent_command reg =
    let connected = values reg.workers in
    let not_draining = keep (λ w. not (is_draining w.id reg)) connected in
    let available = keep isolates not_draining in
    let with_agent = keep (has_agent agent_command) available in
    let with_capacity = keep (λ w. ltb 0 (free_capacity reg w)) with_agent in
    or_refuse connected no_workers (
      or_refuse not_draining (all_draining (length connected)) (
        or_refuse available none_isolated (
          or_refuse with_agent (none_with_agent agent_command) (
            first_of (sort_by (ranks_after locale_after reg) with_capacity)
              (all_full (length with_agent))))))

-- `capacity()` and `spareCapacity()`.
unfoldable pub total_over : (ConnectedWorker → ℕ) → Registry → List ConnectedWorker → ℕ
unfolding is_draining
total_over measure reg [] = 0
total_over measure reg (w ∷ ws) =
    let rest = total_over measure reg ws in if is_draining w.id reg then rest else measure w + rest

unfoldable pub capacity : Registry → ℕ
unfolding total_over
capacity reg = total_over (λ w. w.capabilities.max_concurrency) reg (values reg.workers)

unfoldable pub spare_capacity : Registry → ℕ
unfolding total_over free_capacity
spare_capacity reg = total_over (free_capacity reg) reg (values reg.workers)

pub record DispatchRequest : Type 0 where
  pub run_id : String
  pub kind : DispatchKind
  pub agent_command : String

abbrev pub new_lease : FleetTimes → ℕ → String → DispatchRequest → ConnectedWorker → Lease
new_lease times now lease_id payload target = record {
  id = lease_id;
  run_id = payload.run_id;
  worker_id = target.id;
  worker_name = target.name;
  kind = payload.kind;
  issued_at = now;
  expires_at = lease_deadline times now;
  applied_seq = 0;
  applied_ahead = [];
  in_flight_seqs = [];
}

-- `dispatch` up to where it waits for the claim to be on disk.
unfoldable pub dispatch :
    (String → String → Bool)
    → FleetTimes
    → (now : ℕ) (lease_id : String) → DispatchRequest
    → Registry
    → Placement × Registry
unfolding place_worker put_durable to_persisted
dispatch locale_after times now lease_id payload reg =
    elim (place_worker locale_after payload.agent_command reg) [
      | refused refusal ↦ (refused refusal, reg)
      | placed target ↦
          let lease = new_lease times now lease_id payload target in
          (
            placed target,
            record reg {
              leases = put lease_id lease reg.leases;
              lease_by_run = put payload.run_id lease_id reg.lease_by_run;
              lease_store = put_durable (to_persisted lease) reg.lease_store;
            },
          )
    ]

-- The claim's own write runs, those before it on the chain having run, and what follows when it
-- settles. A lease settled meanwhile is not sent.
unfoldable pub claim_settled : (write_succeeds : Bool) (socket : ℕ) → Lease → Registry → Registry
unfolding send call settle_lease run_write
claim_settled write_succeeds socket lease reg =
    let written = record reg { lease_store = run_write write_succeeds reg.lease_store } in
    if write_succeeds
    then elim (get lease.id reg.leases) [
      | none ↦ written
      | some held ↦ send socket (dispatched lease.id lease.run_id) written
    ]
    else call (run_rejected lease.run_id "the lease could not be persisted" lease.kind)
        (settle_lease lease.id written)
