-- ===== src/Replay/Holes.antt =====
-- What a replay buffer sends, and which losses it reports (`capLeaseBuffer`, `flushLease`,
-- `reportLeaseGap` and the `lease-ack` handler of connection.ts).
use mathlib.Core.List.{append-nil}
use brevi.Base.{
  ℕ, zero, suc, ◌+◌, ◌-◌, ◌≤◌, ◌≡◌, refl, ◌∙◌, ◌⊎◌, inl, inr, Bool, true, false, not, ◌||◌, some,
  List, [], ◌∷◌, map, arith, leb, ltb, ◌==◌, keep, length, max, Bool-cases, Option-cases,
}
use brevi.Replay.{
  FrameType, Frame, LeaseBuffer, Outgoing, lease_gap, report, set_delivered, oldest, cap_loop,
  after_cap, cap_lease_buffer, undelivered, flush_lease, push_frame, report_lease_gap,
  send_reporting, on_lease_ack, drop_cheapest,
}
use brevi.Replay.Cap.{AllEssential, cap_loop-ends}

AllEssential-map :
    (b : Bool) (fs : List Frame) → AllEssential fs → AllEssential (map (set_delivered b) fs)
AllEssential-map b [] h = tt
AllEssential-map b (f ∷ fs) h = (h.0, AllEssential-map b fs h.1)

length-map : (b : Bool) (fs : List Frame) → length (map (set_delivered b) fs) ≡ length fs
length-map b [] = refl
length-map b (f ∷ fs) = omega (arith, length-map b fs)

abbrev pub IsCapped : ℕ → LeaseBuffer → Type 0
IsCapped limit b = (length b.frames ≤ limit) ⊎ AllEssential b.frames

cap_loop-le :
    (fuel limit : ℕ) (fs : List Frame) (dropped : ℕ) → dropped ≤ (cap_loop fuel limit fs dropped).1
unfolding cap_loop
cap_loop-le zero limit fs dropped = omega arith
cap_loop-le (suc fuel) limit fs dropped = elim (Bool-cases (ltb limit (length fs))) [
  | inr e ↦ rw (e, cap_loop) (omega arith)
  | inl e ↦ elim (Option-cases (drop_cheapest fs)) [
    | inl n ↦ rw (e, n, cap_loop) (omega arith)
    | inr (r, q) ↦ rw (e, q, cap_loop) (omega (arith, cap_loop-le fuel limit r (dropped + 1)))
  ]
]

-- If nothing was counted, nothing was dropped.
cap_loop-same :
    (fuel limit : ℕ) (fs : List Frame) (dropped : ℕ)
    → (cap_loop fuel limit fs dropped).1 ≡ dropped
    → (cap_loop fuel limit fs dropped).0 ≡ fs
unfolding cap_loop
cap_loop-same zero limit fs dropped h = refl
cap_loop-same (suc fuel) limit fs dropped h = elim (Bool-cases (ltb limit (length fs))) [
  | inr e ↦ rw (e, cap_loop) refl
  | inl e ↦ elim (Option-cases (drop_cheapest fs)) [
    | inl n ↦ rw (e, n, cap_loop) refl
    | inr (r, q) ↦
        let h' : (cap_loop fuel limit r (dropped + 1)).1 ≡ dropped = rw (e, q, cap_loop) at h in
        absurd (omega (arith, cap_loop-le fuel limit r (dropped + 1)))
  ]
]

cap_lease_buffer-IsCapped :
    (limit : ℕ) (b : LeaseBuffer) → IsCapped limit (cap_lease_buffer limit b).0
unfolding cap_lease_buffer after_cap
cap_lease_buffer-IsCapped limit b =
    let ends = cap_loop-ends (length b.frames) limit b.frames 0 (omega arith) in
    elim (Bool-cases ((cap_loop (length b.frames) limit b.frames 0).1 == 0)) [
      | inl e ↦
          let same = cap_loop-same (length b.frames) limit b.frames 0 (ground arith) in
          rw (e, after_cap) (rw same at ends)
      | inr e ↦ rw (e, after_cap) ends
    ]

flush_lease-IsCapped :
    (limit : ℕ) (online : Bool) (b : LeaseBuffer)
    → IsCapped limit b
    → IsCapped limit (flush_lease online b).0
unfolding flush_lease
flush_lease-IsCapped limit online b h = elim (Bool-cases (not online || b.awaiting_ack)) [
  | inl e ↦ rw (e, flush_lease) h
  | inr e ↦
      rw (e, flush_lease)
        (elim h [
          | inl l ↦ inl (omega (arith, length-map true b.frames))
          | inr a ↦ inr (AllEssential-map true b.frames a)
        ])
]

-- Sending keeps the buffer within the limit, unless only frames are held that may not be dropped.
pub send_reporting-IsCapped :
    (limit : ℕ) (online : Bool) (t : FrameType) (b : LeaseBuffer)
    → IsCapped limit (send_reporting limit online t b).0
unfolding send_reporting
send_reporting-IsCapped limit online t b =
    flush_lease-IsCapped limit online _ (cap_lease_buffer-IsCapped limit (push_frame t b))

-- What a held frame looks like on the wire, in the order of the buffer.
abbrev pub wire : List Frame → List Outgoing
wire = map (λ f. report f.frame_type f.seq)

undelivered-fresh : (fs : List Frame) → undelivered (map (set_delivered false) fs) ≡ wire fs
unfolding undelivered
undelivered-fresh [] = refl
undelivered-fresh (f ∷ fs) = rw (undelivered-fresh fs)

-- An ack that repeats the last one on a live connection sends everything above it again, in order,
-- whether or not it had been handed to the socket before.
pub repeated_ack_resends :
    (seq e : ℕ) (b : LeaseBuffer)
    → b.last_acked_seq ≡ some seq
    → (on_lease_ack true seq e b).1 ≡ wire (keep (λ f. ltb seq f.seq) b.frames)
unfolding on_lease_ack
repeated_ack_resends seq e b h =
    ground (arith, undelivered-fresh (keep (λ f. ltb seq f.seq) b.frames))

after_cap-sends :
    (b : LeaseBuffer) (fs : List Frame) (n : ℕ)
    → ((after_cap b (fs, n)).1 ≡ [])
      ⊎ ((through : ℕ) × (dropped : ℕ) × ((after_cap b (fs, n)).1 ≡ lease_gap through dropped ∷ []))
unfolding after_cap report_lease_gap
after_cap-sends b fs n = elim (Bool-cases (n == 0)) [
  | inl e ↦ inl (rw (e, after_cap) refl)
  | inr e ↦
      rw (e, after_cap)
        (elim (Bool-cases (leb (max b.gap_through (oldest fs b.seq - 1)) 0)) [
          | inl z ↦ inl (rw (z, report_lease_gap) refl)
          | inr z ↦ inr (
            max b.gap_through (oldest fs b.seq - 1),
            b.dropped_since_gap + n,
            rw (z, report_lease_gap) refl,
          )
        ])
]

after_cap-awaiting :
    (b : LeaseBuffer) (fs : List Frame) (n : ℕ)
    → (after_cap b (fs, n)).0.awaiting_ack ≡ b.awaiting_ack
unfolding after_cap
after_cap-awaiting b fs n = ground arith

flush_lease-awaiting :
    (online : Bool) (b : LeaseBuffer) → b.awaiting_ack ≡ true → (flush_lease online b).1 ≡ []
unfolding flush_lease
flush_lease-awaiting online b h = ground arith

-- While a lease waits for its ack, sending hands no reporting frame to the socket: at most a
-- lease-gap goes out.
pub awaiting_sends_no_report :
    (limit : ℕ) (online : Bool) (t : FrameType) (b : LeaseBuffer)
    → b.awaiting_ack ≡ true
    → ((send_reporting limit online t b).1 ≡ [])
      ⊎ ((through : ℕ) × (n : ℕ) × ((send_reporting limit online t b).1 ≡ lease_gap through n ∷ []))
unfolding send_reporting cap_lease_buffer push_frame
awaiting_sends_no_report limit online t b h =
    let pushed = push_frame t b in
    let capped = cap_loop (length pushed.frames) limit pushed.frames 0 in
    let silent =
      flush_lease-awaiting online (after_cap pushed capped).0
        (after_cap-awaiting pushed capped.0 capped.1 ∙ h) in
    rw (silent, append-nil (after_cap pushed capped).1) (after_cap-sends pushed capped.0 capped.1)
