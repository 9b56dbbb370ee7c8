-- ===== src/Watermark/Tests.antt =====
-- The watermark's theorems at one history: frame 2 lands before frame 1, whose write fails first.
use brevi.Base.{◌≡◌, ◌≤◌, suc, refl, not, some, List, [], ◌∷◌, ◌++◌, leb}
use brevi.Watermark.{Lease, implementation, admit_frame, contiguous_below}
use brevi.Watermark.Exact.{Report, arrives, fails, lands, replay}
use brevi.Watermark.Histories.{
  known, known_up_to, admissions, failures, watermark_exact, completion_exact,
  landed_not_readmitted, failed_is_readmitted,
}

abbrev lease : Lease
lease = record {
  id = "lease";
  run_id = "run";
  worker_id = "worker";
  worker_name = "box";
  kind = implementation;
  issued_at = 0;
  expires_at = 1000;
  applied_seq = 0;
  applied_ahead = [];
  in_flight_seqs = [];
}

abbrev history : List Report
history = arrives 1 ∷ arrives 2 ∷ lands 2 ∷ fails 1 ∷ arrives 1 ∷ lands 1 ∷ arrives 4 ∷ lands 4 ∷ []

watermark_exact_example : leb 2 (replay lease history).applied_seq ≡ known_up_to lease history 2
watermark_exact_example = watermark_exact lease history 2 refl

completion_exact_example :
    contiguous_below (replay lease history) (some 4) ≡ known_up_to lease history 3
completion_exact_example = completion_exact lease history 3 refl

landed_not_readmitted_example :
    (admissions 1 lease history ≤ suc (failures 1 history))
    × (admissions 1 (replay lease history) (arrives 1 ∷ arrives 3 ∷ []) ≡ 0)
landed_not_readmitted_example =
    landed_not_readmitted lease history (arrives 1 ∷ arrives 3 ∷ []) 1 refl

failed_is_readmitted_example :
    (admit_frame (replay lease (history ++ fails 3 ∷ [])) (some 3)).0 ≡ not (known lease history 3)
failed_is_readmitted_example = failed_is_readmitted lease history 3
