-- ===== src/Watermark.antt =====
-- packages/orchestrator/src/workers.ts: the reporting stream of one lease on the host. Admission,
-- the contiguous watermark, declared gaps, and when a completion may be applied. A deadline is a
-- number of milliseconds; a `Set<number>` is a list of numbers. A write of the source settles later:
-- `admit_frame` is the arrival of a frame, `write_failed` and `mark_applied` the two ways it settles.
pub mod Drain
pub mod Exact
pub mod Histories
mod Tests
use brevi.Base.{
  ℕ, zero, suc, ◌+◌, ◌-◌, ◌*◌, String, Bool, true, false, not, ◌&&◌, ◌||◌, Option, none, some, List,
  [], ◌∷◌, leb, ltb, ◌==◌, if◌then◌else◌, elem, remove, add_elem, keep, length,
}

pub data DispatchKind : Type 0 where
  implementation follow_up : DispatchKind

-- One outstanding dispatch.
pub record Lease : Type 0 where
  pub id : String
  pub run_id : String
  pub worker_id : String
  pub worker_name : String
  pub kind : DispatchKind
  pub issued_at : ℕ
  pub expires_at : ℕ
  pub applied_seq : ℕ
  pub applied_ahead : List ℕ
  pub in_flight_seqs : List ℕ

-- The replay gate: whether the frame is to be applied, and the lease after it.
unfoldable pub admit_frame : Lease → Option ℕ → Bool × Lease
admit_frame lease none = (true, lease)
admit_frame lease (some seq) =
    if leb seq lease.applied_seq
    then (false, lease)
    else if elem seq lease.applied_ahead
    then (false, lease)
    else if elem seq lease.in_flight_seqs
    then (false, lease)
    else (true, record lease { in_flight_seqs = add_elem seq lease.in_flight_seqs })

-- The `catch` of `#applyReported`: nothing is recorded, and the frame may be admitted again.
unfoldable pub write_failed : Lease → Option ℕ → Lease
write_failed lease none = lease
write_failed lease (some seq) = record lease { in_flight_seqs = remove seq lease.in_flight_seqs }

-- `while (appliedAhead.delete(appliedSeq + 1)) appliedSeq += 1`, with fuel.
unfoldable pub advance : ℕ → ℕ → List ℕ → ℕ × List ℕ
advance zero applied ahead = (applied, ahead)
advance (suc fuel) applied ahead = elim (elem (suc applied) ahead) [
  | true ↦ advance fuel (suc applied) (remove (suc applied) ahead)
  | false ↦ (applied, ahead)
]

-- The loop run to its end: each round takes one number out of `ahead`.
unfoldable pub pull_up : ℕ → List ℕ → ℕ × List ℕ
pull_up applied ahead = advance (length ahead) applied ahead

unfoldable pub with_watermark : Lease → ℕ × List ℕ → Lease
with_watermark lease (applied, ahead) = record lease {
  applied_seq = applied;
  applied_ahead = ahead;
}

-- The lease, and whether the watermark moved: then it is persisted, and a parked completion is
-- looked at again.
unfoldable pub mark_applied : Lease → Option ℕ → Lease × Bool
mark_applied lease none = (lease, false)
mark_applied lease (some seq) =
    let settled = record lease { in_flight_seqs = remove seq lease.in_flight_seqs } in
    if leb seq lease.applied_seq
    then (settled, false)
    else (let moved =
          with_watermark settled (pull_up lease.applied_seq (add_elem seq lease.applied_ahead)) in
        (moved, not (moved.applied_seq == lease.applied_seq)))

-- The worker has dropped everything up to `through_seq`. The flag says whether anything was new;
-- then a line is logged against the run and the lease is persisted.
unfoldable pub skip_lease_gap : Lease → ℕ → Lease × Bool
skip_lease_gap lease through_seq = if leb through_seq lease.applied_seq then (lease, false) else (
  with_watermark lease
      (pull_up through_seq (keep (λ seq. ltb through_seq seq) lease.applied_ahead)),
  true,
)

-- Whether every frame below `seq` has been applied: `appliedSeq >= seq - 1`.
unfoldable pub contiguous_below : Lease → Option ℕ → Bool
contiguous_below lease none = true
contiguous_below lease (some seq) = leb seq (lease.applied_seq + 1)

-- `config.fleet`, in seconds.
pub record FleetTimes : Type 0 where
  pub heartbeat_timeout_seconds : ℕ
  pub reconnect_grace_seconds : ℕ

unfoldable pub lease_deadline : FleetTimes → ℕ → ℕ
lease_deadline times now =
    now + (times.heartbeat_timeout_seconds + times.reconnect_grace_seconds) * 1000

unfoldable pub renew_lease : FleetTimes → ℕ → Lease → Lease
unfolding lease_deadline
renew_lease times now lease = record lease { expires_at = lease_deadline times now }

unfoldable pub pull_in_lease_deadline : FleetTimes → ℕ → Lease → Lease
pull_in_lease_deadline times now lease = record lease {
  expires_at = now + times.reconnect_grace_seconds * 1000;
}
