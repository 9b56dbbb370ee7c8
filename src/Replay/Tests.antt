-- ===== src/Replay/Tests.antt =====
-- The theorems on the replay buffer, at small buffers.
use brevi.Base.{ℕ, ◌≡◌, refl, arith, Bool, true, false, some, List, [], ◌∷◌}
use brevi.Replay.{
  FrameType, Frame, LeaseBuffer, new_buffer, run_patch, run_event, run_complete, send_reporting,
  has_lapsed, on_lease_ack, on_close, cap_loop,
}
use brevi.Replay.Cap.{essential}
use brevi.Replay.Kept.{
  BufferEvent, LeaseEvent, sends, acked, closed, connected, history, buffered, sweeps, on_event,
  lease_history, essential_until_acked,
}
use brevi.Replay.Order.{IsOrdered, new_buffer-IsOrdered}
use brevi.Replay.Holes.{IsCapped, send_reporting-IsCapped}

abbrev frame : FrameType → ℕ → Frame
frame t seq = record { frame_type = t; seq = seq; delivered = true }

abbrev full : LeaseBuffer
full = record new_buffer {
  seq = 4;
  frames = frame run_event 3 ∷ frame run_patch 4 ∷ [];
  awaiting_ack = true;
  last_acked_seq = some 2;
}

abbrev events : List (Bool × BufferEvent)
events =
    (false, closed)
    ∷ (false, sends run_event)
    ∷ (true, connected)
    ∷ (true, acked 3 500)
    ∷ (true, sends run_complete)
    ∷ []

abbrev lease_events : List LeaseEvent
lease_events =
    buffered true (acked 3 900)
    ∷ sweeps 800
    ∷ buffered true (sends run_patch)
    ∷ buffered false closed
    ∷ sweeps 850
    ∷ []

essential_until_acked_example :
    (kept : LeaseBuffer) × (lease_history 2 (some full) lease_events ≡ some kept)
    × (essential 4 kept.frames ≡ true)
unfolding has_lapsed on_event send_reporting on_lease_ack on_close cap_loop
essential_until_acked_example =
    essential_until_acked 2 4 full lease_events refl
      ((omega arith, tt), (refl, (tt, (tt, (refl, tt)))))

new_buffer-IsOrdered_example : IsOrdered (history 2 new_buffer events)
new_buffer-IsOrdered_example = new_buffer-IsOrdered 2 events

send_reporting-IsCapped_example : IsCapped 2 (send_reporting 2 true run_complete full).0
send_reporting-IsCapped_example = send_reporting-IsCapped 2 true run_complete full
