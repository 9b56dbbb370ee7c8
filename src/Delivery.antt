-- ===== src/Delivery.antt =====
-- The reporting stream of one lease between a worker and the host: the replay buffer of
-- packages/worker/src/connection.ts against the watermark of packages/orchestrator/src/workers.ts.
-- An exchange is one message taking effect at its receiver, or a frame leaving the worker. A frame
-- arrives while the worker holds it or after it left, and its write may land as long as the host is
-- writing it; acks and gaps may be late, so they carry any number up to the sender's present one.
-- After a crash the host starts again from a persisted watermark, which may lag (leases.ts), and with
-- no frame on its way.
pub mod Flight
pub mod Safe
pub mod Lost
pub mod Dropped
mod Tests
use brevi.Base.{ℕ, Bool, true, false, ◌||◌, some, List, [], ◌∷◌, leb, ◌==◌, if◌then◌else◌, elem}
use brevi.Watermark.{Lease, admit_frame, write_failed, mark_applied, skip_lease_gap}
use brevi.Replay.{FrameType, Frame, LeaseBuffer, send_reporting, on_lease_ack, on_close, on_connect}

-- `in_transit` are the frames that left the worker since the host started. `landed` remembers every
-- frame whose write landed on the host, across restarts; no code reads it.
pub record Link : Type 0 where
  pub host : Lease
  pub worker : LeaseBuffer
  pub in_transit : List ℕ
  pub landed : List ℕ

pub data Exchange : Type 0 where
  sends : FrameType → Exchange
  departs lands fails arrives : ℕ → Exchange
  acks : ℕ → ℕ → Exchange
  gives_up : ℕ → Exchange
  restarts : ℕ → Exchange
  reconnects : Exchange

abbrev pub holds : ℕ → List Frame → Bool
holds s [] = false
holds s (f ∷ fs) = f.seq == s || holds s fs

abbrev pub can_arrive : ℕ → Link → Bool
can_arrive s l = holds s l.worker.frames || elem s l.in_transit

abbrev pub can_land : ℕ → Link → Bool
can_land s l = holds s l.worker.frames || elem s l.host.in_flight_seqs

-- `WorkerRegistry.restore` of one lease: only the persisted watermark comes back.
unfoldable pub restored_lease : ℕ → Lease → Lease
restored_lease persisted lease = record lease {
  applied_seq = persisted;
  applied_ahead = [];
  in_flight_seqs = [];
}

module _ (limit : ℕ) where
  unfoldable pub exchange : Link → Exchange → Link
  unfolding restored_lease
  exchange l (sends t) = record l { worker = (send_reporting limit true t l.worker).0 }
  exchange l (departs s) =
      if holds s l.worker.frames then record l { in_transit = s ∷ l.in_transit } else l
  exchange l (arrives s) =
      if can_arrive s l then record l { host = (admit_frame l.host (some s)).1 } else l
  exchange l (fails s) = record l { host = write_failed l.host (some s) }
  exchange l (lands s) =
      if can_land s l
      then record l { host = (mark_applied l.host (some s)).0; landed = s ∷ l.landed }
      else l
  exchange l (acks k expires_at) =
      if leb k l.host.applied_seq
      then record l { worker = (on_lease_ack true k expires_at l.worker).0 }
      else l
  exchange l (gives_up k) =
      if leb k l.worker.gap_through then record l { host = (skip_lease_gap l.host k).0 } else l
  exchange l (restarts p) =
      if leb p l.host.applied_seq
      then record l { host = restored_lease p l.host; in_transit = [] }
      else l
  exchange l reconnects = record l { worker = on_connect (on_close l.worker) }

  unfoldable pub run : Link → List Exchange → Link
  run l [] = l
  run l (x ∷ xs) = run (exchange l x) xs
