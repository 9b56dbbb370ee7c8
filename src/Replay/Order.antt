-- ===== src/Replay/Order.antt =====
-- The invariant of a replay buffer (connection.ts): its frames ascend, none is numbered above the
-- last number given out, and none lies at or below the point that the worker has declared lost.
use brevi.Base.{
  ℕ, zero, suc, ◌+◌, ◌-◌, ◌≤◌, ◌<◌, ◌≡◌, refl, ◌⊎◌, inl, inr, Bool, true, false, not, ◌||◌, none,
  some, List, [], ◌∷◌, ◌++◌, map, arith, ltb, ◌==◌, if◌then◌else◌, keep, length, max, Bool-cases,
  Option-cases,
}
use brevi.Replay.{
  FrameType, Frame, LeaseBuffer, is_run_event, is_run_artifact, set_delivered, drop_first,
  drop_cheapest, oldest, cap_loop, after_cap, cap_lease_buffer, flush_lease, push_frame,
  send_reporting, on_lease_ack, on_close, on_connect, on_replay_unblock, on_dispatch, new_buffer,
}
use brevi.Replay.Kept.{
  BufferEvent, sends, acked, closed, connected, unblocked, dispatched, on_event, history,
}

abbrev pub Ascends : ℕ → ℕ → List Frame → Type 0
Ascends lo hi [] = lo ≤ hi
Ascends lo hi (f ∷ fs) = (lo < f.seq) × Ascends f.seq hi fs

abbrev pub IsOrdered : LeaseBuffer → Type 0
IsOrdered b = Ascends b.gap_through b.seq b.frames

pub Ascends-le : (lo hi : ℕ) (fs : List Frame) → Ascends lo hi fs → lo ≤ hi
Ascends-le lo hi [] h = h
Ascends-le lo hi (f ∷ fs) h = omega (arith, Ascends-le f.seq hi fs h.1)

Ascends-mono : (lo lo' hi : ℕ) (fs : List Frame) → lo ≤ lo' → Ascends lo' hi fs → Ascends lo hi fs
Ascends-mono lo lo' hi [] l h = omega arith
Ascends-mono lo lo' hi (f ∷ fs) l h = (omega arith, h.1)

Ascends-append :
    (lo hi : ℕ) (fs : List Frame) (g : Frame)
    → g.seq ≡ hi + 1
    → Ascends lo hi fs
    → Ascends lo (hi + 1) (fs ++ g ∷ [])
Ascends-append lo hi [] g e h = (omega arith, omega arith)
Ascends-append lo hi (f ∷ fs) g e h = (h.0, Ascends-append f.seq hi fs g e h.1)

pub Ascends-map :
    (b : Bool) (lo hi : ℕ) (fs : List Frame)
    → Ascends lo hi fs
    → Ascends lo hi (map (set_delivered b) fs)
Ascends-map b lo hi [] h = h
Ascends-map b lo hi (f ∷ fs) h = (h.0, Ascends-map b f.seq hi fs h.1)

Ascends-keep :
    (p : Frame → Bool) (lo hi : ℕ) (fs : List Frame) → Ascends lo hi fs → Ascends lo hi (keep p fs)
Ascends-keep p lo hi [] h = h
Ascends-keep p lo hi (f ∷ fs) h = elim (Bool-cases (p f)) [
  | inl e ↦ rw e (h.0, Ascends-keep p f.seq hi fs h.1)
  | inr e ↦
      rw e (Ascends-mono lo f.seq hi (keep p fs) (omega arith) (Ascends-keep p f.seq hi fs h.1))
]

drop_first-Ascends :
    (p : FrameType → Bool) (lo hi : ℕ) (fs rest : List Frame)
    → drop_first p fs ≡ some rest
    → Ascends lo hi fs
    → Ascends lo hi rest
unfolding drop_first
drop_first-Ascends p lo hi [] rest e h = ground arith
drop_first-Ascends p lo hi (f ∷ fs) rest e h = elim (Bool-cases (p f.frame_type)) [
  | inl c ↦
      let same : fs ≡ rest = ground arith in
      rw (← same) (Ascends-mono lo f.seq hi fs (omega arith) h.1)
  | inr c ↦ elim (Option-cases (drop_first p fs)) [
    | inl n ↦ ground arith
    | inr (r, q) ↦
        let same : f ∷ r ≡ rest = ground arith in
        rw (← same) (h.0, drop_first-Ascends p f.seq hi fs r q h.1)
  ]
]

drop_cheapest-Ascends :
    (lo hi : ℕ) (fs rest : List Frame)
    → drop_cheapest fs ≡ some rest
    → Ascends lo hi fs
    → Ascends lo hi rest
unfolding drop_cheapest
drop_cheapest-Ascends lo hi fs rest e h = elim (Option-cases (drop_first is_run_event fs)) [
  | inl n ↦ drop_first-Ascends is_run_artifact lo hi fs rest (ground arith) h
  | inr (r, q) ↦ drop_first-Ascends is_run_event lo hi fs rest (ground arith) h
]

cap_loop-Ascends :
    (fuel limit lo hi : ℕ) (fs : List Frame) (dropped : ℕ)
    → Ascends lo hi fs
    → Ascends lo hi (cap_loop fuel limit fs dropped).0
unfolding cap_loop
cap_loop-Ascends zero limit lo hi fs dropped h = h
cap_loop-Ascends (suc fuel) limit lo hi fs dropped h = elim (Bool-cases (ltb limit (length fs))) [
  | inr e ↦ rw (e, cap_loop) h
  | inl e ↦ elim (Option-cases (drop_cheapest fs)) [
    | inl n ↦ rw (e, n, cap_loop) h
    | inr (r, q) ↦
        rw (e, q, cap_loop)
          (cap_loop-Ascends fuel limit lo hi r (dropped + 1) (drop_cheapest-Ascends lo hi fs r q h))
  ]
]

-- The point declared lost moves up to just below the oldest frame that is left.
Ascends-oldest :
    (lo hi : ℕ) (fs : List Frame) → Ascends lo hi fs → Ascends (max lo (oldest fs hi - 1)) hi fs
unfolding oldest
Ascends-oldest lo hi [] h = omega arith
Ascends-oldest lo hi (f ∷ fs) h = (omega arith, h.1)

after_cap-IsOrdered :
    (b : LeaseBuffer) (fs : List Frame) (dropped : ℕ)
    → IsOrdered b
    → Ascends b.gap_through b.seq fs
    → IsOrdered (after_cap b (fs, dropped)).0
unfolding after_cap
after_cap-IsOrdered b fs dropped h k = elim (Bool-cases (dropped == 0)) [
  | inl e ↦ rw (e, after_cap) h
  | inr e ↦ rw (e, after_cap) (Ascends-oldest b.gap_through b.seq fs k)
]

pub cap_lease_buffer-IsOrdered :
    (limit : ℕ) (b : LeaseBuffer) → IsOrdered b → IsOrdered (cap_lease_buffer limit b).0
unfolding cap_lease_buffer
cap_lease_buffer-IsOrdered limit b h =
    after_cap-IsOrdered b _ _ h
      (cap_loop-Ascends (length b.frames) limit b.gap_through b.seq b.frames 0 h)

flush_lease-IsOrdered :
    (online : Bool) (b : LeaseBuffer) → IsOrdered b → IsOrdered (flush_lease online b).0
unfolding flush_lease
flush_lease-IsOrdered online b h = elim (Bool-cases (not online || b.awaiting_ack)) [
  | inl e ↦ rw (e, flush_lease) h
  | inr e ↦ rw (e, flush_lease) (Ascends-map true b.gap_through b.seq b.frames h)
]

push_frame-IsOrdered : (t : FrameType) (b : LeaseBuffer) → IsOrdered b → IsOrdered (push_frame t b)
unfolding push_frame
push_frame-IsOrdered t b h = Ascends-append b.gap_through b.seq b.frames _ refl h

pub send_reporting-IsOrdered :
    (limit : ℕ) (online : Bool) (t : FrameType) (b : LeaseBuffer)
    → IsOrdered b
    → IsOrdered (send_reporting limit online t b).0
unfolding send_reporting
send_reporting-IsOrdered limit online t b h =
    flush_lease-IsOrdered online _ (cap_lease_buffer-IsOrdered limit _ (push_frame-IsOrdered t b h))

pub on_lease_ack-IsOrdered :
    (online : Bool) (seq e : ℕ) (b : LeaseBuffer)
    → IsOrdered b
    → IsOrdered (on_lease_ack online seq e b).0
unfolding on_lease_ack
on_lease_ack-IsOrdered online seq e b h = flush_lease-IsOrdered online _ (renewed (Bool-cases _))
  where
    kept : Ascends b.gap_through b.seq (keep (λ f. ltb seq f.seq) b.frames)
    kept = Ascends-keep (λ f. ltb seq f.seq) b.gap_through b.seq b.frames h

    renewed :
        {c : Bool}
        → (c ≡ true) ⊎ (c ≡ false)
        → Ascends b.gap_through b.seq (
            if c
            then map (set_delivered false) (keep (λ f. ltb seq f.seq) b.frames)
            else keep (λ f. ltb seq f.seq) b.frames)
    renewed (inl c) = rw c (Ascends-map false b.gap_through b.seq _ kept)
    renewed (inr c) = rw c kept

on_event-IsOrdered :
    (limit : ℕ) (online : Bool) (b : LeaseBuffer) (e : BufferEvent)
    → IsOrdered b
    → IsOrdered (on_event limit online b e)
unfolding on_event on_close on_connect on_replay_unblock on_dispatch
on_event-IsOrdered limit online b (sends t) h = send_reporting-IsOrdered limit online t b h
on_event-IsOrdered limit online b (acked seq e) h = on_lease_ack-IsOrdered online seq e b h
on_event-IsOrdered limit online b closed h = h
on_event-IsOrdered limit online b connected h = Ascends-map false b.gap_through b.seq b.frames h
on_event-IsOrdered limit online b unblocked h = elim (Bool-cases b.awaiting_ack) [
  | inl e ↦ rw (e, on_replay_unblock) (flush_lease-IsOrdered online _ h)
  | inr e ↦ rw (e, on_replay_unblock) h
]
on_event-IsOrdered limit online b (dispatched none) h = h
on_event-IsOrdered limit online b (dispatched (some e)) h = h

history-IsOrdered :
    (limit : ℕ) (b : LeaseBuffer) (es : List (Bool × BufferEvent))
    → IsOrdered b
    → IsOrdered (history limit b es)
unfolding history
history-IsOrdered limit b [] h = h
history-IsOrdered limit b ((online, e) ∷ es) h =
    history-IsOrdered limit (on_event limit online b e) es (on_event-IsOrdered limit online b e h)

-- After any history of a new buffer its frames are numbered in ascending order, none above the last
-- number given out, and none at or below the point up to which frames were declared lost: the worker
-- never tells the host to skip a frame that it still holds.
pub new_buffer-IsOrdered :
    (limit : ℕ) (es : List (Bool × BufferEvent)) → IsOrdered (history limit new_buffer es)
new_buffer-IsOrdered limit es = history-IsOrdered limit new_buffer es (omega arith)
