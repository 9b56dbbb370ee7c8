-- ===== src/Replay.antt =====
-- packages/worker/src/connection.ts: the replay buffers of a worker. A frame is its type and its
-- sequence number (the payload never decides anything here); `delivered` says whether it was handed
-- to the current socket, which the source keeps in a WeakSet beside the buffer. Deadlines are
-- milliseconds. `lastAckedSeq` starts at -1, which is `none` here.
pub mod Cap
pub mod Kept
pub mod Order
pub mod Holes
mod Tests
use brevi.Base.{
  ℕ, zero, suc, ◌+◌, ◌-◌, String, Bool, true, false, not, ◌&&◌, ◌||◌, Option, none, some, List, [],
  ◌∷◌, ◌++◌, map, leb, ltb, ◌==◌, if◌then◌else◌, keep, length, max,
}

-- The six reporting frame types.
pub data FrameType : Type 0 where
  run_patch run_event run_artifact run_memories run_usage_snapshot run_complete : FrameType

pub record Frame : Type 0 where
  pub frame_type : FrameType
  pub seq : ℕ
  pub delivered : Bool

pub record LeaseBuffer : Type 0 where
  pub seq : ℕ
  pub frames : List Frame
  pub awaiting_ack : Bool
  pub last_acked_seq : Option ℕ
  pub gap_through : ℕ
  pub dropped_since_gap : ℕ
  pub expires_at : ℕ

-- `getOrCreateLeaseBuffer` of a lease that has no buffer yet.
abbrev pub new_buffer : LeaseBuffer
new_buffer = record {
  seq = 0;
  frames = [];
  awaiting_ack = false;
  last_acked_seq = none;
  gap_through = 0;
  dropped_since_gap = 0;
  expires_at = 0;
}

abbrev pub replay_buffer_limit : ℕ
replay_buffer_limit = 2000

abbrev pub is_run_event : FrameType → Bool
is_run_event run_event = true
is_run_event _ = false

abbrev pub is_run_artifact : FrameType → Bool
is_run_artifact run_artifact = true
is_run_artifact _ = false

-- `findIndex` and `splice(index, 1)` at once: the list without its first frame of a kind.
unfoldable pub drop_first : (FrameType → Bool) → List Frame → Option (List Frame)
drop_first p [] = none
drop_first p (f ∷ fs) =
    if p f.frame_type
    then some fs
    else elim (drop_first p fs) [ none ↦ none | some rest ↦ some (f ∷ rest) ]

-- One round over `DROPPABLE_TYPES`: a run-event, or else a run-artifact, or else nothing.
unfoldable pub drop_cheapest : List Frame → Option (List Frame)
unfolding drop_first
drop_cheapest frames = elim (drop_first is_run_event frames) [
  | some rest ↦ some rest
  | none ↦ drop_first is_run_artifact frames
]

-- The `while` of `capLeaseBuffer` under a limit, with fuel: the frames left and how many went.
unfoldable pub cap_loop : ℕ → ℕ → List Frame → ℕ → List Frame × ℕ
cap_loop zero limit frames dropped = (frames, dropped)
cap_loop (suc fuel) limit frames dropped = elim (ltb limit (length frames)) [
  | false ↦ (frames, dropped)
  | true ↦ elim (drop_cheapest frames) [
    | none ↦ (frames, dropped)
    | some rest ↦ cap_loop fuel limit rest (dropped + 1)
  ]
]

-- `buffer.frames[0]?.seq ?? buffer.seq + 1`.
unfoldable pub oldest : List Frame → ℕ → ℕ
oldest [] seq = seq + 1
oldest (f ∷ fs) seq = f.seq

-- What the buffer asks to be sent: a lease-gap over the generic queue, or a reporting frame.
pub data Outgoing : Type 0 where
  lease_gap : ℕ → ℕ → Outgoing
  report : FrameType → ℕ → Outgoing

unfoldable pub report_lease_gap : LeaseBuffer → List Outgoing
report_lease_gap buffer =
    if leb buffer.gap_through 0
    then []
    else lease_gap buffer.gap_through buffer.dropped_since_gap ∷ []

unfoldable pub after_cap : LeaseBuffer → List Frame × ℕ → LeaseBuffer × List Outgoing
unfolding oldest report_lease_gap
after_cap buffer (frames, dropped) =
    if dropped == 0
    then (buffer, [])
    else (let capped = record buffer {
      frames = frames;
      dropped_since_gap = buffer.dropped_since_gap + dropped;
      gap_through = max buffer.gap_through (oldest frames buffer.seq - 1);
    } in
        (capped, report_lease_gap capped))

-- Each round drops one frame, so the number of frames is enough fuel.
unfoldable pub cap_lease_buffer : ℕ → LeaseBuffer → LeaseBuffer × List Outgoing
unfolding after_cap
cap_lease_buffer limit buffer =
    after_cap buffer (cap_loop (length buffer.frames) limit buffer.frames 0)

unfoldable pub undelivered : List Frame → List Outgoing
undelivered [] = []
undelivered (f ∷ fs) =
    if f.delivered then undelivered fs else report f.frame_type f.seq ∷ undelivered fs

-- A frame entering or leaving the `delivered` set.
abbrev pub set_delivered : Bool → Frame → Frame
set_delivered b f = record f { delivered = b }

-- `online` is `registered && socket && socket.readyState === OPEN`.
unfoldable pub flush_lease : Bool → LeaseBuffer → LeaseBuffer × List Outgoing
flush_lease online buffer = if not online || buffer.awaiting_ack then (buffer, []) else (
  record buffer { frames = map (set_delivered true) buffer.frames },
  undelivered buffer.frames,
)

unfoldable pub push_frame : FrameType → LeaseBuffer → LeaseBuffer
push_frame t buffer =
    let stamped : Frame = record { frame_type = t; seq = buffer.seq + 1; delivered = false } in
    record buffer { seq = buffer.seq + 1; frames = buffer.frames ++ stamped ∷ [] }

unfoldable pub and_flush : Bool → LeaseBuffer × List Outgoing → LeaseBuffer × List Outgoing
and_flush online (buffer, sent) =
    let (flushed, more) = flush_lease online buffer in (flushed, sent ++ more)

-- `sendReporting` on the lease's buffer.
unfoldable pub send_reporting : ℕ → Bool → FrameType → LeaseBuffer → LeaseBuffer × List Outgoing
unfolding push_frame cap_lease_buffer and_flush
send_reporting limit online t buffer =
    and_flush online (cap_lease_buffer limit (push_frame t buffer))

unfoldable pub is_repeat : ℕ → Option ℕ → Bool
is_repeat seq none = false
is_repeat seq (some last) = seq == last

-- A `lease-ack` of the host: the deadline is renewed, what it covers is dropped, and if it repeats
-- the last one, all that is held is sent again.
unfoldable pub on_lease_ack : Bool → ℕ → ℕ → LeaseBuffer → LeaseBuffer × List Outgoing
unfolding is_repeat flush_lease
on_lease_ack online seq expires_at buffer =
    let kept = keep (λ f. ltb seq f.seq) buffer.frames in
    let frames =
      if is_repeat seq buffer.last_acked_seq then map (set_delivered false) kept else kept in
    flush_lease online (record buffer {
      frames = frames;
      awaiting_ack = false;
      last_acked_seq = some seq;
      expires_at = expires_at;
    })

-- The socket closed: wait for the next ack. A new socket has been handed nothing.
unfoldable pub on_close : LeaseBuffer → LeaseBuffer
on_close buffer = record buffer { awaiting_ack = true }

unfoldable pub on_connect : LeaseBuffer → LeaseBuffer
on_connect buffer = record buffer { frames = map (set_delivered false) buffer.frames }

-- The backstop of `REPLAY_UNBLOCK_MS` after a registration.
unfoldable pub on_replay_unblock : Bool → LeaseBuffer → LeaseBuffer × List Outgoing
unfolding flush_lease
on_replay_unblock online buffer =
    if buffer.awaiting_ack
    then flush_lease online (record buffer { awaiting_ack = false })
    else (buffer, [])

-- A `dispatch` notes the deadline, if it names one.
unfoldable pub on_dispatch : Option ℕ → LeaseBuffer → LeaseBuffer
on_dispatch none buffer = buffer
on_dispatch (some expires_at) buffer = record buffer { expires_at = expires_at }

-- The test of `sweepLeaseDeadlines`: the lease has lapsed, and the worker fences itself.
unfoldable pub has_lapsed : ℕ → LeaseBuffer → Bool
has_lapsed now buffer = not (buffer.expires_at == 0 || ltb now buffer.expires_at)
