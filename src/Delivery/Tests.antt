-- ===== src/Delivery/Tests.antt =====
-- The theorems on the stream between a worker and the host, at small buffers.
use brevi.Base.{ℕ, ◌+◌, ◌≡◌, refl, arith, true, false, not, ◌||◌, some, List, [], ◌∷◌, elem}
use brevi.Watermark.{Lease, implementation, contiguous_below}
use brevi.Watermark.Exact.{accounted}
use brevi.Replay.{
  FrameType, Frame, LeaseBuffer, new_buffer, run_patch, run_event, run_complete, cap_lease_buffer,
  on_lease_ack, cap_loop, drop_cheapest,
}
use brevi.Replay.Cap.{essential}
use brevi.Delivery.{
  Link, Exchange, sends, departs, lands, fails, arrives, acks, gives_up, restarts, reconnects,
  restored_lease, exchange, run,
}
use brevi.Delivery.Safe.{essential_never_lost}
use brevi.Delivery.Lost.{stale_restart_holds_completion}
use brevi.Delivery.Dropped.{undeclared_drop_holds_completion}

abbrev lease : Lease
lease = record {
  id = "lease";
  run_id = "run";
  worker_id = "worker";
  worker_name = "box";
  kind = implementation;
  issued_at = 0;
  expires_at = 1000;
  applied_seq = 0;
  applied_ahead = [];
  in_flight_seqs = [];
}

abbrev fresh : Link
fresh = record { host = lease; worker = new_buffer; in_transit = []; landed = [] }

abbrev before : List Exchange
before = sends run_event ∷ arrives 1 ∷ lands 1 ∷ sends run_event ∷ []

abbrev after : List Exchange
after =
    sends run_event
    ∷ departs 3
    ∷ arrives 3
    ∷ fails 3
    ∷ reconnects
    ∷ arrives 3
    ∷ lands 3
    ∷ restarts 0
    ∷ []

essential_never_lost_example :
    let sender = run 2 fresh before in
    let number = sender.worker.seq + 1 in
    let end = run 2 (exchange 2 sender (sends run_patch)) after in
    ((essential number end.worker.frames || elem number end.landed) ≡ true)
    × ((not (accounted end.host number) || elem number end.landed) ≡ true)
essential_never_lost_example =
    essential_never_lost 2 fresh before after run_patch (refl, refl, refl, refl, refl) refl

abbrev frame : FrameType → ℕ → Frame
frame t seq = record { frame_type = t; seq = seq; delivered = true }

abbrev full : LeaseBuffer
full = record new_buffer {
  seq = 3;
  frames = frame run_patch 1 ∷ frame run_event 2 ∷ frame run_complete 3 ∷ [];
}

-- What goes on afterwards, the worker sending nothing new.
abbrev quiet : List Exchange
quiet =
    arrives 1
    ∷ lands 1
    ∷ acks 1 500
    ∷ gives_up 0
    ∷ reconnects
    ∷ arrives 3
    ∷ lands 3
    ∷ acks 1 600
    ∷ []

stale_restart_holds_completion_example :
    let restarted : Link = record {
      host = restored_lease 0 lease;
      worker = (on_lease_ack true 1 500 full).0;
      in_transit = [];
      landed = 1 ∷ [];
    } in
    contiguous_below (run 2 restarted quiet).host (some 3) ≡ false
stale_restart_holds_completion_example =
    stale_restart_holds_completion 2 1 0 3 500 lease full (1 ∷ []) quiet (omega arith) (omega arith)
      tt (omega arith)

undeclared_drop_holds_completion_example :
    let capped : Link = record {
      host = lease;
      worker = (cap_lease_buffer 2 full).0;
      in_transit = [];
      landed = [];
    } in
    contiguous_below (run 2 capped quiet).host (some 3) ≡ false
unfolding cap_lease_buffer cap_loop drop_cheapest
undeclared_drop_holds_completion_example =
    undeclared_drop_holds_completion 2 2 3 lease full [] [] (frame run_patch 1)
      (frame run_event 2 ∷ frame run_complete 3 ∷ []) quiet
      (omega arith, (omega arith, (omega arith, omega arith))) refl refl refl refl refl refl refl tt
      (omega arith)
