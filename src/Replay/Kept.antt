-- ===== src/Replay/Kept.antt =====
-- What a replay buffer holds after any history of sends, acks, drops and reconnects
-- (`sendReporting`, `capLeaseBuffer`, `flushLease` and the socket handlers of connection.ts).
use brevi.Base.{
  ℕ, ◌+◌, ◌<◌, ◌≡◌, refl, ◌∙◌, Bool, true, false, not, ◌&&◌, ◌||◌, Option, none, some, List, [],
  ◌∷◌, ◌++◌, map, arith, ltb, if◌then◌else◌, ◌==◌, keep, length,
}
use brevi.Replay.{
  FrameType, Frame, LeaseBuffer, set_delivered, cap_lease_buffer, flush_lease, push_frame,
  send_reporting, on_lease_ack, on_close, on_connect, on_replay_unblock, on_dispatch, new_buffer,
  has_lapsed,
}
use brevi.Replay.Cap.{droppable, essential, cap_loop-essential}

pub essential-map :
    (b : Bool) (s : ℕ) (fs : List Frame) → essential s (map (set_delivered b) fs) ≡ essential s fs
essential-map b s [] = refl
essential-map b s (f ∷ fs) = ground (arith, essential-map b s fs)

essential-keep :
    (seq s : ℕ) (fs : List Frame)
    → essential s (keep (λ f. ltb seq f.seq) fs) ≡ (ltb seq s && essential s fs)
essential-keep seq s [] = ground arith
essential-keep seq s (f ∷ fs) = ground (arith, essential-keep seq s fs)

essential-append :
    (s : ℕ) (fs : List Frame) (g : Frame)
    → essential s (fs ++ g ∷ []) ≡ (essential s fs || essential s (g ∷ []))
essential-append s [] g = ground arith
essential-append s (f ∷ fs) g = ground (arith, essential-append s fs g)

flush_lease-essential :
    (online : Bool) (s : ℕ) (b : LeaseBuffer)
    → essential s (flush_lease online b).0.frames ≡ essential s b.frames
unfolding flush_lease
flush_lease-essential online s b = ground (arith, essential-map true s b.frames)

cap_lease_buffer-essential :
    (limit s : ℕ) (b : LeaseBuffer)
    → essential s (cap_lease_buffer limit b).0.frames ≡ essential s b.frames
unfolding cap_lease_buffer
cap_lease_buffer-essential limit s b =
    ground (arith, cap_loop-essential (length b.frames) limit s b.frames 0)

-- Sending adds the new frame, numbered next, to the frames that may not be dropped, if it is of
-- that kind, and loses none of them, whatever the limit.
pub send_reporting-essential :
    (limit : ℕ) (online : Bool) (t : FrameType) (s : ℕ) (b : LeaseBuffer)
    → essential s (send_reporting limit online t b).0.frames
      ≡ (essential s b.frames || (b.seq + 1 == s && not (droppable t)))
unfolding send_reporting
send_reporting-essential limit online t s b = ground (
  arith,
  flush_lease-essential online s (cap_lease_buffer limit (push_frame t b)).0,
  cap_lease_buffer-essential limit s (push_frame t b),
  essential-append s b.frames (record { frame_type = t; seq = b.seq + 1; delivered = false }),
)

pub on_lease_ack-essential :
    (online : Bool) (seq e s : ℕ) (b : LeaseBuffer)
    → essential s (on_lease_ack online seq e b).0.frames ≡ (ltb seq s && essential s b.frames)
unfolding on_lease_ack
on_lease_ack-essential online seq e s b = ground (
  arith,
  essential-keep seq s b.frames,
  essential-map false s (keep (λ f. ltb seq f.seq) b.frames),
  essential-map true s (map (set_delivered false) (keep (λ f. ltb seq f.seq) b.frames)),
  essential-map true s (keep (λ f. ltb seq f.seq) b.frames),
)

-- What can happen to the buffer of a lease that is still held.
pub data BufferEvent : Type 0 where
  sends : FrameType → BufferEvent
  acked : ℕ → ℕ → BufferEvent
  closed connected unblocked : BufferEvent
  dispatched : Option ℕ → BufferEvent

module _ (limit : ℕ) (online : Bool) where
  unfoldable pub on_event : LeaseBuffer → BufferEvent → LeaseBuffer
  on_event b (sends t) = (send_reporting limit online t b).0
  on_event b (acked seq e) = (on_lease_ack online seq e b).0
  on_event b closed = on_close b
  on_event b connected = on_connect b
  on_event b unblocked = (on_replay_unblock online b).0
  on_event b (dispatched e) = on_dispatch e b

-- Each event with the state of the socket at that time.
unfoldable pub history : ℕ → LeaseBuffer → List (Bool × BufferEvent) → LeaseBuffer
history limit b [] = b
history limit b ((online, e) ∷ es) = history limit (on_event limit online b e) es

-- No ack in the history covers a number.
abbrev pub NotAcked : ℕ → List (Bool × BufferEvent) → Type 0
NotAcked s [] = Unit
NotAcked s ((online, acked seq e) ∷ es) = (seq < s) × NotAcked s es
NotAcked s (_ ∷ es) = NotAcked s es

history-essential :
    (limit s : ℕ) (b : LeaseBuffer) (es : List (Bool × BufferEvent))
    → essential s b.frames ≡ true
    → NotAcked s es
    → essential s (history limit b es).frames ≡ true
unfolding history on_event on_close on_connect on_replay_unblock
history-essential limit s b [] h n = h
history-essential limit s b ((online, sends t) ∷ es) h n =
    history-essential limit s (send_reporting limit online t b).0 es
      (ground (arith, send_reporting-essential limit online t s b)) n
history-essential limit s b ((online, acked seq e) ∷ es) h n =
    history-essential limit s (on_lease_ack online seq e b).0 es
      (ground (arith, on_lease_ack-essential online seq e s b)) n.1
history-essential limit s b ((online, closed) ∷ es) h n =
    history-essential limit s (on_close b) es h n
history-essential limit s b ((online, connected) ∷ es) h n =
    history-essential limit s (on_connect b) es (essential-map false s b.frames ∙ h) n
history-essential limit s b ((online, unblocked) ∷ es) h n =
    history-essential limit s (on_replay_unblock online b).0 es
      (ground (arith, flush_lease-essential online s (record b { awaiting_ack = false }))) n
history-essential limit s b ((online, dispatched none) ∷ es) h n =
    history-essential limit s (on_dispatch none b) es (unfold on_dispatch in h) n
history-essential limit s b ((online, dispatched (some e)) ∷ es) h n =
    history-essential limit s (on_dispatch (some e) b) es (unfold on_dispatch in h) n

-- What can happen to a lease on its worker: an event of its buffer with the state of the socket, the
-- host takes the lease back or has the completion, or the sweep of the deadlines passes.
pub data LeaseEvent : Type 0 where
  buffered : Bool → BufferEvent → LeaseEvent
  lease_lost run_complete_ack : LeaseEvent
  sweeps : ℕ → LeaseEvent

-- `forgetLease`.
unfoldable pub forget_lease : Option LeaseBuffer → Option LeaseBuffer
forget_lease buffer = none

unfoldable pub sweep_lease_deadline : ℕ → LeaseBuffer → Option LeaseBuffer
unfolding forget_lease has_lapsed
sweep_lease_deadline now b = if has_lapsed now b then forget_lease (some b) else some b

-- A lease that has no buffer gets one when it reports and when it is dispatched.
unfoldable pub on_lease_event : ℕ → Option LeaseBuffer → LeaseEvent → Option LeaseBuffer
unfolding on_event forget_lease sweep_lease_deadline
on_lease_event limit b lease_lost = forget_lease b
on_lease_event limit b run_complete_ack = forget_lease b
on_lease_event limit none (sweeps now) = none
on_lease_event limit (some b) (sweeps now) = sweep_lease_deadline now b
on_lease_event limit (some b) (buffered online e) = some (on_event limit online b e)
on_lease_event limit none (buffered online (sends t)) =
    some (on_event limit online new_buffer (sends t))
on_lease_event limit none (buffered online (dispatched e)) =
    some (on_event limit online new_buffer (dispatched e))
on_lease_event limit none (buffered online e) = none

unfoldable pub lease_history : ℕ → Option LeaseBuffer → List LeaseEvent → Option LeaseBuffer
unfolding on_lease_event
lease_history limit b [] = b
lease_history limit b (e ∷ es) = lease_history limit (on_lease_event limit b e) es

-- In a history from a buffer, no ack covers the number, the host neither takes the lease back nor has
-- its completion, and no sweep comes when the deadline that the buffer then has is past.
abbrev pub StillMeant : ℕ → ℕ → LeaseBuffer → List LeaseEvent → Type 0
StillMeant limit s b [] = Unit
StillMeant limit s b (buffered online e ∷ es) =
    NotAcked s ((online, e) ∷ []) × StillMeant limit s (on_event limit online b e) es
StillMeant limit s b (lease_lost ∷ es) = ⊥
StillMeant limit s b (run_complete_ack ∷ es) = ⊥
StillMeant limit s b (sweeps now ∷ es) = (has_lapsed now b ≡ false) × StillMeant limit s b es

history-one :
    (limit : ℕ) (online : Bool) (s : ℕ) (b : LeaseBuffer) (e : BufferEvent)
    → essential s b.frames ≡ true
    → NotAcked s ((online, e) ∷ [])
    → essential s (on_event limit online b e).frames ≡ true
unfolding history
history-one limit online s b e = history-essential limit s b ((online, e) ∷ [])

-- A frame that may not be dropped stays in the buffer of its lease, whatever else is sent, dropped by
-- the cap, swept, or happens to the connection, as long as no ack covers its number, the host has
-- neither taken the lease back nor acknowledged its completion, and no sweep of the deadlines finds
-- the lease lapsed.
pub essential_until_acked :
    (limit s : ℕ) (b : LeaseBuffer) (es : List LeaseEvent)
    → essential s b.frames ≡ true
    → StillMeant limit s b es
    → (kept : LeaseBuffer) × (lease_history limit (some b) es ≡ some kept)
      × (essential s kept.frames ≡ true)
unfolding lease_history on_lease_event sweep_lease_deadline
essential_until_acked limit s b [] h n = (b, refl, h)
essential_until_acked limit s b (buffered online e ∷ es) h n =
    essential_until_acked limit s (on_event limit online b e) es
      (history-one limit online s b e h n.0) n.1
essential_until_acked limit s b (sweeps now ∷ es) h n =
    let (kept, e, g) = essential_until_acked limit s b es h n.1 in (kept, rw n.0 e, g)
essential_until_acked limit s b (lease_lost ∷ es) h n = absurd n
essential_until_acked limit s b (run_complete_ack ∷ es) h n = absurd n
