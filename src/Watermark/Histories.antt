-- ===== src/Watermark/Histories.antt =====
-- When frames are admitted and completions applied, over any history of a lease's stream
-- (`#admitFrame`, `#markApplied`, `#completeRun` of workers.ts).
use brevi.Base.{
  ℕ, zero, suc, ◌≤◌, ◌+◌, ◌≡◌, refl, sym, ◌∙◌, inl, inr, Bool, true, false, not, ◌&&◌, ◌||◌, some,
  List, [], ◌∷◌, ◌++◌, arith, leb, ◌==◌, elem, elem-remove, elem-add_elem, ap, Bool-cases,
  if◌then◌else◌,
}
use brevi.Watermark.{
  Lease, admit_frame, write_failed, mark_applied, skip_lease_gap, with_watermark, contiguous_below,
}
use brevi.Watermark.Exact.{
  Report, arrives, fails, lands, gives_up, on_report, on_report-accounted, replay, landed, given_up,
  accounted, IsSettled, replay-accounted, replay-IsSettled, mark_applied-accounted,
  skip_lease_gap-accounted,
}

-- Accounted for at the start, or by what happened since.
abbrev pub known : Lease → List Report → ℕ → Bool
known lease rs s = accounted lease s || landed s rs || given_up s rs

-- All numbers up to `k` are.
abbrev pub known_up_to : Lease → List Report → ℕ → Bool
known_up_to lease rs zero = known lease rs 0
known_up_to lease rs (suc k) = known lease rs (suc k) && known_up_to lease rs k

watermark-covers :
    (lease : Lease) (rs : List Report) (k : ℕ)
    → k ≤ (replay lease rs).applied_seq
    → known_up_to lease rs k ≡ true
watermark-covers lease rs zero h = ground (arith, replay-accounted lease rs 0)
watermark-covers lease rs (suc k) h =
    ground (arith, replay-accounted lease rs (suc k), watermark-covers lease rs k (omega arith))

known_up_to_mono :
    (lease : Lease) (rs : List Report) (s k : ℕ)
    → s ≤ k
    → known_up_to lease rs k ≡ true
    → known lease rs s ≡ true
known_up_to_mono lease rs s zero le h = let e : s ≡ 0 = omega arith in rw e h
known_up_to_mono lease rs s (suc k) le h = elim (Bool-cases (s == suc k)) [
  | inl e ↦ let same : s ≡ suc k = ground arith in rw same (ground arith)
  | inr e ↦ known_up_to_mono lease rs s k (ground arith) (ground arith)
]

-- Take a lease whose watermark was pulled up as far as it goes. After any history of it the watermark
-- is the longest unbroken run of frames that
-- landed, were given up, or were accounted for at the start: it covers `k` exactly when all of those
-- up to `k` are such.
pub watermark_exact :
    (lease : Lease) (rs : List Report) (k : ℕ)
    → IsSettled lease
    → leb k (replay lease rs).applied_seq ≡ known_up_to lease rs k
watermark_exact lease rs k settled = elim (Bool-cases (leb k (replay lease rs).applied_seq)) [
  | inl e ↦ e ∙ sym (watermark-covers lease rs k (ground arith))
  | inr e ↦
      let next = suc (replay lease rs).applied_seq in
      let missing = replay-accounted lease rs next in
      let stopped = replay-IsSettled lease rs settled in
      elim (Bool-cases (known_up_to lease rs k)) [
        | inl all ↦ let here = known_up_to_mono lease rs next k (ground arith) all in ground arith
        | inr not_all ↦ e ∙ sym not_all
      ]
]

-- Take a lease whose watermark was pulled up as far as it goes. After any history of it a completion
-- numbered `k + 1` may be applied exactly when
-- every frame up to `k` landed, was given up, or was accounted for at the start.
pub completion_exact :
    (lease : Lease) (rs : List Report) (k : ℕ)
    → IsSettled lease
    → contiguous_below (replay lease rs) (some (suc k)) ≡ known_up_to lease rs k
unfolding contiguous_below
completion_exact lease rs k settled = ground (arith, watermark_exact lease rs k settled)

-- How often a history admits a frame, and how often its write fails.
abbrev pub admissions : ℕ → Lease → List Report → ℕ
admissions s lease [] = 0
admissions s lease (arrives seq ∷ rs) =
    let rest = admissions s (on_report lease (arrives seq)) rs in
    if seq == s && (admit_frame lease (some seq)).0 then suc rest else rest
admissions s lease (r ∷ rs) = admissions s (on_report lease r) rs

abbrev pub failures : ℕ → List Report → ℕ
failures s [] = 0
failures s (fails seq ∷ rs) = let rest = failures s rs in if seq == s then suc rest else rest
failures s (_ ∷ rs) = failures s rs

-- Accounted for, or being written.
abbrev taken : Lease → ℕ → Bool
taken lease s = accounted lease s || elem s lease.in_flight_seqs

-- One admission may come before the next failure, and only when the frame is not taken.
abbrev allowed : Bool → ℕ
allowed true = 0
allowed false = 1

allowed_le : (b : Bool) → allowed b ≤ 1
allowed_le true = omega arith
allowed_le false = omega arith

arrival-taken :
    (lease : Lease) (seq s : ℕ)
    → taken (on_report lease (arrives seq)) s
      ≡ (taken lease s || (seq == s && (admit_frame lease (some seq)).0))
unfolding on_report admit_frame
arrival-taken lease seq s = ground (arith, elem-add_elem seq s lease.in_flight_seqs)

failure-taken :
    (lease : Lease) (seq s : ℕ)
    → (taken (on_report lease (fails seq)) s || seq == s) ≡ (taken lease s || seq == s)
unfolding on_report write_failed
failure-taken lease seq s = ground (arith, elem-remove s seq lease.in_flight_seqs)

landing-taken :
    (lease : Lease) (seq s : ℕ)
    → taken (on_report lease (lands seq)) s ≡ (taken lease s || seq == s)
unfolding on_report mark_applied with_watermark
landing-taken lease seq s =
    ground (arith, mark_applied-accounted lease seq s, elem-remove s seq lease.in_flight_seqs)

gap-taken :
    (lease : Lease) (through s : ℕ)
    → taken (on_report lease (gives_up through)) s ≡ (taken lease s || leb s through)
unfolding on_report skip_lease_gap with_watermark
gap-taken lease through s = ground (arith, skip_lease_gap-accounted lease through s)

admit_frame-taken : (lease : Lease) (s : ℕ) → (admit_frame lease (some s)).0 ≡ not (taken lease s)
unfolding admit_frame
admit_frame-taken lease s = ground arith

admissions_le :
    (lease : Lease) (rs : List Report) (s : ℕ)
    → admissions s lease rs ≤ allowed (taken lease s) + failures s rs
admissions_le lease [] s = omega arith
admissions_le lease (arrives seq ∷ rs) s = elim (Bool-cases (seq == s)) [
  | inl e ↦
      let same : seq ≡ s = ground arith in
      ground (
        arith,
        e,
        admissions_le (on_report lease (arrives seq)) rs s,
        arrival-taken lease seq s,
        admit_frame-taken lease seq,
        ap (taken lease) same,
      )
  | inr e ↦
      ground
        (arith, e, admissions_le (on_report lease (arrives seq)) rs s, arrival-taken lease seq s)
]
admissions_le lease (fails seq ∷ rs) s =
    ground (arith, admissions_le (on_report lease (fails seq)) rs s, failure-taken lease seq s)
admissions_le lease (lands seq ∷ rs) s =
    ground (arith, admissions_le (on_report lease (lands seq)) rs s, landing-taken lease seq s)
admissions_le lease (gives_up through ∷ rs) s =
    ground
      (arith, admissions_le (on_report lease (gives_up through)) rs s, gap-taken lease through s)

eqb_accounted :
    (t s : ℕ) (lease : Lease) → accounted lease s ≡ true → ((t == s) && not (taken lease t)) ≡ false
eqb_accounted t s lease h = elim (Bool-cases (t == s)) [
  | inl e ↦ let same : t ≡ s = ground arith in rw same (ground arith)
  | inr e ↦ ground arith
]

landed_is_accounted :
    (lease : Lease) (rs : List Report) (seq : ℕ)
    → accounted lease seq ≡ true
    → admissions seq lease rs ≡ 0
landed_is_accounted lease [] seq h = refl
landed_is_accounted lease (arrives t ∷ rs) seq h =
    let rest =
      landed_is_accounted (on_report lease (arrives t)) rs seq
        (on_report-accounted lease (arrives t) seq ∙ ground arith) in
    ground (arith, rest, admit_frame-taken lease t, eqb_accounted t seq lease)
landed_is_accounted lease (fails t ∷ rs) seq h =
    landed_is_accounted (on_report lease (fails t)) rs seq
      (on_report-accounted lease (fails t) seq ∙ ground arith)
landed_is_accounted lease (lands t ∷ rs) seq h =
    landed_is_accounted (on_report lease (lands t)) rs seq
      (on_report-accounted lease (lands t) seq ∙ ground arith)
landed_is_accounted lease (gives_up t ∷ rs) seq h =
    landed_is_accounted (on_report lease (gives_up t)) rs seq
      (on_report-accounted lease (gives_up t) seq ∙ ground arith)

-- A frame is admitted at most once more than its writes failed: a duplicate that arrives while the
-- frame is being written is refused, and so is one that arrives after the write landed, for ever.
-- Restarts of the host are not part of these histories.
pub landed_not_readmitted :
    (lease : Lease) (rs qs : List Report) (seq : ℕ)
    → landed seq rs ≡ true
    → (admissions seq lease rs ≤ suc (failures seq rs)) × (admissions seq (replay lease rs) qs ≡ 0)
landed_not_readmitted lease rs qs seq h = (
  omega (arith, admissions_le lease rs seq, allowed_le (taken lease seq)),
  landed_is_accounted (replay lease rs) qs seq (replay-accounted lease rs seq ∙ ground arith),
)

replay-append :
    (lease : Lease) (rs qs : List Report) → replay lease (rs ++ qs) ≡ replay (replay lease rs) qs
unfolding replay
replay-append lease [] qs = refl
replay-append lease (r ∷ rs) qs = replay-append (on_report lease r) rs qs

-- After a write of a frame failed, the frame is admitted again exactly when it is not accounted for.
pub failed_is_readmitted :
    (lease : Lease) (rs : List Report) (seq : ℕ)
    → (admit_frame (replay lease (rs ++ fails seq ∷ [])) (some seq)).0 ≡ not (known lease rs seq)
unfolding admit_frame replay on_report write_failed
failed_is_readmitted lease rs seq = rw (replay-append lease rs (fails seq ∷ [])) (
    ground
      (arith, replay-accounted lease rs seq, elem-remove seq seq (replay lease rs).in_flight_seqs))
