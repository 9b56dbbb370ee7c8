-- ===== src/Delivery/Dropped.antt =====
-- A loss that the worker does not declare: the cap drops a frame behind one that it must keep
-- (`capLeaseBuffer` of connection.ts), so that `gapThrough` stays below the hole.
use brevi.Base.{
  ℕ, zero, suc, ◌+◌, ◌<◌, ◌≡◌, inl, inr, Bool, true, false, some, List, [], ◌∷◌, length, arith, ltb,
  ◌==◌, elem, Bool-cases, Option-cases,
}
use brevi.Watermark.{Lease, contiguous_below}
use brevi.Watermark.Exact.{accounted}
use brevi.Replay.{
  FrameType, Frame, LeaseBuffer, is_run_event, is_run_artifact, drop_first, drop_cheapest, cap_loop,
  after_cap, cap_lease_buffer,
}
use brevi.Replay.Cap.{droppable}
use brevi.Replay.Order.{Ascends, IsOrdered, cap_lease_buffer-IsOrdered}
use brevi.Delivery.{Link, Exchange, holds, run}
use brevi.Delivery.Lost.{IsQuiet, missing_holds_completion}

-- The first frame is `f`.
abbrev StartsWith : Frame → List Frame → Type 0
StartsWith f fs = (rest : List Frame) × (fs ≡ f ∷ rest)

drop_first-StartsWith :
    (p : FrameType → Bool) (f : Frame) (fs rest : List Frame)
    → p f.frame_type ≡ false
    → drop_first p (f ∷ fs) ≡ some rest
    → StartsWith f rest
unfolding drop_first
drop_first-StartsWith p f fs rest h e = elim (Option-cases (drop_first p fs)) [
  | inl n ↦ ground arith
  | inr (r, q) ↦ (r, ground arith)
]

drop_cheapest-StartsWith :
    (f : Frame) (fs rest : List Frame)
    → droppable f.frame_type ≡ false
    → drop_cheapest (f ∷ fs) ≡ some rest
    → StartsWith f rest
unfolding drop_cheapest
drop_cheapest-StartsWith f fs rest h e = elim (Option-cases (drop_first is_run_event (f ∷ fs))) [
  | inl n ↦ drop_first-StartsWith is_run_artifact f fs rest (ground arith) (ground arith)
  | inr (r, q) ↦ drop_first-StartsWith is_run_event f fs rest (ground arith) (ground arith)
]

cap_loop-StartsWith :
    (fuel limit : ℕ) (f : Frame) (fs : List Frame) (dropped : ℕ)
    → droppable f.frame_type ≡ false
    → StartsWith f fs
    → StartsWith f (cap_loop fuel limit fs dropped).0
unfolding cap_loop
cap_loop-StartsWith zero limit f fs dropped h s = s
cap_loop-StartsWith (suc fuel) limit f fs dropped h s = elim (Bool-cases (ltb limit (length fs))) [
  | inr e ↦ rw (e, cap_loop) s
  | inl e ↦ elim (Option-cases (drop_cheapest fs)) [
    | inl n ↦ rw (e, n, cap_loop) s
    | inr (r, q) ↦
        rw (e, q, cap_loop)
          (cap_loop-StartsWith fuel limit f r (dropped + 1) h
            (drop_cheapest-StartsWith f s.0 r h (rw s.1 at q)))
  ]
]

cap_lease_buffer-StartsWith :
    (limit : ℕ) (f : Frame) (b : LeaseBuffer)
    → droppable f.frame_type ≡ false
    → StartsWith f b.frames
    → StartsWith f (cap_lease_buffer limit b).0.frames
unfolding cap_lease_buffer after_cap
cap_lease_buffer-StartsWith limit f b h s =
    let kept = cap_loop-StartsWith (length b.frames) limit f b.frames 0 h s in
    elim (Bool-cases ((cap_loop (length b.frames) limit b.frames 0).1 == 0)) [
      | inl e ↦ rw (e, after_cap) s
      | inr e ↦ rw (e, after_cap) kept
    ]

Ascends-first : (lo hi m : ℕ) (fs : List Frame) → Ascends lo hi fs → holds m fs ≡ true → lo < m
Ascends-first lo hi m [] a h = ground arith
Ascends-first lo hi m (f ∷ fs) a h = ground (arith, Ascends-first f.seq hi m fs a.1)

hole_above :
    (lo hi m : ℕ) (f : Frame) (fs gs : List Frame)
    → Ascends lo hi fs
    → StartsWith f fs
    → StartsWith f gs
    → holds m fs ≡ true
    → holds m gs ≡ false
    → f.seq < m
hole_above lo hi m f fs gs a (rs, p) (qs, q) h n =
    let a' : Ascends lo hi (f ∷ rs) = rw p at a in
    let h' : holds m (f ∷ rs) ≡ true = rw p at h in
    let n' : holds m (f ∷ qs) ≡ false = rw q at n in
    ground (arith, Ascends-first f.seq hi m rs a'.1)

gap_below_first :
    (lo hi : ℕ) (f : Frame) (fs : List Frame) → Ascends lo hi fs → StartsWith f fs → lo < f.seq
gap_below_first lo hi f fs a (rs, p) = let a' : Ascends lo hi (f ∷ rs) = rw p at a in a'.0

-- The cap drops a frame `m` that the host has not counted, is not writing, and that is not on its way
-- to it, while the oldest frame held is one that may not be dropped. Then, if the worker sends nothing
-- new, no completion above `m` may be applied, whatever is delivered, written, acknowledged, declared
-- or restarted: the loss is never declared.
pub undeclared_drop_holds_completion :
    (limit m seq : ℕ) (host : Lease) (b : LeaseBuffer) (in_transit landed : List ℕ) (f : Frame)
    (rest : List Frame) (xs : List Exchange)
    → IsOrdered b
    → b.frames ≡ f ∷ rest
    → droppable f.frame_type ≡ false
    → holds m b.frames ≡ true
    → holds m (cap_lease_buffer limit b).0.frames ≡ false
    → accounted host m ≡ false
    → elem m host.in_flight_seqs ≡ false
    → elem m in_transit ≡ false
    → IsQuiet xs
    → m < seq
    → let capped : Link = record {
      host = host;
      worker = (cap_lease_buffer limit b).0;
      in_transit = in_transit;
      landed = landed;
    } in
      contiguous_below (run limit capped xs).host (some seq) ≡ false
undeclared_drop_holds_completion limit m seq host b in_transit landed f rest xs o p d held gone u w
      n q above =
    let starts = cap_lease_buffer-StartsWith limit f b d (rest, p) in
    let ordered = cap_lease_buffer-IsOrdered limit b o in
    let past = hole_above b.gap_through b.seq m f b.frames _ o (rest, p) starts held gone in
    let low = gap_below_first _ _ f _ ordered starts in
    missing_holds_completion limit m seq _ xs
      (record { uncounted = u; unheld = gone; undeclared = omega arith; unwritten = w; unsent = n })
      q above
