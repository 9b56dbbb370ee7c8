-- ===== src/Desktop/Summary/Counts.antt =====
-- The counts behind the tray (`countRuns`, `updateBlockingRuns`, `runningCount` of summary.ts), and
-- what they let the updater do.
use brevi.Base.{
  ℕ, ◌+◌, ◌≡◌, refl, String, Bool, true, false, List, [], ◌∷◌, arith, length, ◌==◌, if◌then◌else◌,
}
use brevi.Runs.{
  RunStatus, queued, preparing, running, finalizing, waiting, completed, failed, cancelled,
}
use brevi.Desktop.Summary.{
  MenuRun, FleetCounts, is_active, is_queued, is_waiting, is_failed, count_step, count_from,
  count_runs, running_count, update_blocking_runs,
}
use brevi.Desktop.UpdatePolicy.{UpdaterState, should_install_now}

-- The runs that hold a machine or are about to.
abbrev pub is_working : RunStatus → Bool
is_working preparing = true
is_working running = true
is_working finalizing = true
is_working _ = false

abbrev one : Bool → ℕ
one b = if b then 1 else 0

abbrev pub number : (RunStatus → Bool) → List MenuRun → ℕ
number is_such [] = 0
number is_such (run ∷ runs) = one (is_such run.status) + number is_such runs

count_from-counts :
    (counts : FleetCounts) (runs : List MenuRun)
    → ((count_from counts runs).active ≡ counts.active + number is_active runs)
      × ((count_from counts runs).queued ≡ counts.queued + number is_queued runs)
      × ((count_from counts runs).waiting ≡ counts.waiting + number is_waiting runs)
      × ((count_from counts runs).failed ≡ counts.failed + number is_failed runs)
unfolding count_from
count_from-counts counts [] = (omega arith, omega arith, omega arith, omega arith)
count_from-counts counts (run ∷ runs) =
    let later = count_from-counts (count_step run.status counts) runs in
    (
      ground (arith, later.0),
      ground (arith, later.1),
      ground (arith, later.2),
      ground (arith, later.3),
    )

one-active :
    (s : RunStatus)
    → one (is_active s) ≡ one (is_queued s) + one (is_working s) + one (is_waiting s)
one-active queued = refl
one-active preparing = refl
one-active running = refl
one-active finalizing = refl
one-active waiting = refl
one-active completed = refl
one-active failed = refl
one-active cancelled = refl

number-active :
    (runs : List MenuRun)
    → number is_active runs
      ≡ number is_queued runs + number is_working runs + number is_waiting runs
number-active [] = omega arith
number-active (run ∷ runs) = omega (arith, number-active runs, one-active run.status)

-- The tray's running count is exactly the number of runs that are being prepared, run or finalized.
pub running_count_exact :
    (runs : List MenuRun) → running_count (count_runs runs) ≡ number is_working runs
unfolding running_count count_runs
running_count_exact runs =
    let start : FleetCounts = record {
      active = 0;
      queued = 0;
      waiting = 0;
      failed = 0;
      total = length runs;
    } in
    let counts = count_from-counts start runs in
    omega (arith, counts.0, counts.1, counts.2, number-active runs)

-- A downloaded update is installed by itself exactly when no run is queued or being worked on: runs
-- that wait for an answer do not hold it back.
pub update_waits_for_work :
    (version : String) (shown : ℕ) (runs : List MenuRun)
    → should_install_now (UpdaterState.ready version shown) (update_blocking_runs (count_runs runs))
      ≡ (number is_queued runs + number is_working runs == 0)
unfolding should_install_now update_blocking_runs count_runs
update_waits_for_work version shown runs =
    let start : FleetCounts = record {
      active = 0;
      queued = 0;
      waiting = 0;
      failed = 0;
      total = length runs;
    } in
    let counts = count_from-counts start runs in
    ground (arith, counts.0, counts.2, number-active runs)
