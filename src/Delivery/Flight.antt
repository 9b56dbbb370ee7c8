-- ===== src/Delivery/Flight.antt =====
-- Which frames the host is writing after each step of a lease's stream (workers.ts).
use brevi.Base.{ℕ, ◌≡◌, not, ◌&&◌, ◌||◌, some, arith, ◌==◌, elem, elem-remove, elem-add_elem}
use brevi.Watermark.{Lease, admit_frame, write_failed, mark_applied, skip_lease_gap, with_watermark}

pub arrival-in_flight :
    (lease : Lease) (t s : ℕ)
    → (elem s (admit_frame lease (some t)).1.in_flight_seqs || t == s)
      ≡ (elem s lease.in_flight_seqs || t == s)
unfolding admit_frame
arrival-in_flight lease t s = ground (arith, elem-add_elem s t lease.in_flight_seqs)

pub failure-in_flight :
    (lease : Lease) (t s : ℕ)
    → elem s (write_failed lease (some t)).in_flight_seqs
      ≡ (not (t == s) && elem s lease.in_flight_seqs)
unfolding write_failed
failure-in_flight lease t s = elem-remove s t lease.in_flight_seqs

pub landing-in_flight :
    (lease : Lease) (t s : ℕ)
    → elem s (mark_applied lease (some t)).0.in_flight_seqs
      ≡ (not (t == s) && elem s lease.in_flight_seqs)
unfolding mark_applied with_watermark
landing-in_flight lease t s = ground (arith, elem-remove s t lease.in_flight_seqs)

pub gap-in_flight :
    (lease : Lease) (k s : ℕ)
    → elem s (skip_lease_gap lease k).0.in_flight_seqs ≡ elem s lease.in_flight_seqs
unfolding skip_lease_gap with_watermark
gap-in_flight lease k s = ground arith
