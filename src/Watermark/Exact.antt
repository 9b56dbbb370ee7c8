-- ===== src/Watermark/Exact.antt =====
-- What the watermark of a lease means after any history of its reporting stream (`#admitFrame`,
-- `#markApplied`, `#skipLeaseGap`, `#contiguousBelow` of workers.ts).
use brevi.Base.{
  ℕ, suc, ◌≡◌, refl, Bool, false, ◌||◌, some, List, [], ◌∷◌, arith, leb, ltb, ◌==◌, elem, add_elem,
  keep, elem-keep,
}
use brevi.Watermark.{Lease, admit_frame, write_failed, mark_applied, skip_lease_gap, with_watermark}
use brevi.Watermark.Drain.{pull_up-stops, pull_up-accounted}

-- One event of a lease's stream: a frame arrives, its write fails or lands, or the worker declares
-- that it holds nothing up to a number any more.
pub data Report : Type 0 where
  arrives fails lands gives_up : ℕ → Report

unfoldable pub on_report : Lease → Report → Lease
on_report lease (arrives seq) = (admit_frame lease (some seq)).1
on_report lease (fails seq) = write_failed lease (some seq)
on_report lease (lands seq) = (mark_applied lease (some seq)).0
on_report lease (gives_up through) = (skip_lease_gap lease through).0

unfoldable pub replay : Lease → List Report → Lease
replay lease [] = lease
replay lease (r ∷ rs) = replay (on_report lease r) rs

-- Whether the write of a frame landed in a history, or the worker gave the frame up.
abbrev pub landed : ℕ → List Report → Bool
landed s [] = false
landed s (lands seq ∷ rs) = seq == s || landed s rs
landed s (_ ∷ rs) = landed s rs

abbrev pub given_up : ℕ → List Report → Bool
given_up s [] = false
given_up s (gives_up through ∷ rs) = leb s through || given_up s rs
given_up s (_ ∷ rs) = given_up s rs

-- Applied: at or below the watermark, or out of order above it.
abbrev pub accounted : Lease → ℕ → Bool
accounted lease s = leb s lease.applied_seq || elem s lease.applied_ahead

-- The watermark has been pulled up as far as it goes.
abbrev pub IsSettled : Lease → Type 0
IsSettled lease = elem (suc lease.applied_seq) lease.applied_ahead ≡ false

pub mark_applied-accounted :
    (lease : Lease) (seq s : ℕ)
    → accounted (mark_applied lease (some seq)).0 s ≡ (accounted lease s || seq == s)
unfolding mark_applied with_watermark
mark_applied-accounted lease seq s =
    ground (arith, pull_up-accounted lease.applied_seq (add_elem seq lease.applied_ahead) s)

pub skip_lease_gap-accounted :
    (lease : Lease) (through s : ℕ)
    → accounted (skip_lease_gap lease through).0 s ≡ (accounted lease s || leb s through)
unfolding skip_lease_gap with_watermark
skip_lease_gap-accounted lease through s = ground (
  arith,
  pull_up-accounted through (keep (λ seq. ltb through seq) lease.applied_ahead) s,
  elem-keep (λ seq. ltb through seq) s lease.applied_ahead,
)

pub admit_frame-accounted :
    (lease : Lease) (t s : ℕ) → accounted (admit_frame lease (some t)).1 s ≡ accounted lease s
unfolding admit_frame
admit_frame-accounted lease t s = ground arith

pub write_failed-accounted :
    (lease : Lease) (t s : ℕ) → accounted (write_failed lease (some t)) s ≡ accounted lease s
unfolding write_failed
write_failed-accounted lease t s = refl

pub on_report-accounted :
    (lease : Lease) (r : Report) (s : ℕ)
    → accounted (on_report lease r) s
      ≡ (accounted lease s || landed s (r ∷ []) || given_up s (r ∷ []))
unfolding on_report admit_frame write_failed
on_report-accounted lease (arrives seq) s = ground arith
on_report-accounted lease (fails seq) s = ground arith
on_report-accounted lease (lands seq) s = ground (arith, mark_applied-accounted lease seq s)
on_report-accounted lease (gives_up through) s =
    ground (arith, skip_lease_gap-accounted lease through s)

on_report-IsSettled : (lease : Lease) (r : Report) → IsSettled lease → IsSettled (on_report lease r)
unfolding on_report admit_frame write_failed mark_applied skip_lease_gap with_watermark
on_report-IsSettled lease (arrives seq) h = ground arith
on_report-IsSettled lease (fails seq) h = h
on_report-IsSettled lease (lands seq) h =
    ground (arith, pull_up-stops lease.applied_seq (add_elem seq lease.applied_ahead))
on_report-IsSettled lease (gives_up through) h =
    ground (arith, pull_up-stops through (keep (λ seq. ltb through seq) lease.applied_ahead))

-- After any history a frame is accounted for exactly when it was so at the start, its write landed,
-- or the worker gave it up.
pub replay-accounted :
    (lease : Lease) (rs : List Report) (s : ℕ)
    → accounted (replay lease rs) s ≡ (accounted lease s || landed s rs || given_up s rs)
unfolding replay
replay-accounted lease [] s = ground arith
replay-accounted lease (r ∷ rs) s = combine r (replay-accounted (on_report lease r) rs s)
  where
    combine :
        (r : Report)
        → accounted (replay (on_report lease r) rs) s
          ≡ (accounted (on_report lease r) s || landed s rs || given_up s rs)
        → accounted (replay (on_report lease r) rs) s
          ≡ (accounted lease s || landed s (r ∷ rs) || given_up s (r ∷ rs))
    combine (arrives seq) e = ground (arith, on_report-accounted lease (arrives seq) s)
    combine (fails seq) e = ground (arith, on_report-accounted lease (fails seq) s)
    combine (lands seq) e = ground (arith, on_report-accounted lease (lands seq) s)
    combine (gives_up through) e = ground (arith, on_report-accounted lease (gives_up through) s)

pub replay-IsSettled :
    (lease : Lease) (rs : List Report) → IsSettled lease → IsSettled (replay lease rs)
unfolding replay
replay-IsSettled lease [] h = h
replay-IsSettled lease (r ∷ rs) h =
    replay-IsSettled (on_report lease r) rs (on_report-IsSettled lease r h)
