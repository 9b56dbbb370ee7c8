-- ===== src/Desktop/Tests.antt =====
-- The theorems on the desktop application at small inputs.
use brevi.Base.{◌≡◌, refl, String, true, ◌&&◌, ◌==◌, none, some, List, [], ◌∷◌, length, min}
use brevi.Runs.{RunStatus, running, waiting, completed}
use brevi.Desktop.UpdateState.{DesktopUpdateState, is_quarantined, read_update_state, written}
use brevi.Desktop.UpdateState.Quarantine.{installs, boots, launches, quarantine_is_permanent}
use brevi.Desktop.UpdateState.RoundTrip.{read_update_state-written}
use brevi.Desktop.UpdatePolicy.{UpdaterState, should_install_now, update_action}
use brevi.Desktop.UpdatePolicy.Actions.{would_install, installs_by_itself}
use brevi.Desktop.Summary.{MenuRun, menu_runs}
use brevi.Desktop.Summary.Menu.{length-menu_runs}
use brevi.Desktop.Supervisor.{new_supervisor, owns_process, started, rejected}
use brevi.Desktop.Supervisor.Lifecycle.{
  Operation, starts, restarts, stops, operate_all, is_running, running_iff_owned,
}

abbrev bad : DesktopUpdateState
bad = record { pending = none; quarantined = "1.1.0" ∷ [] }

quarantine_is_permanent_example :
    is_quarantined (launches bad (installs "1.0.0" "1.2.0" "t" ∷ boots "1.2.0" ∷ [])) "1.1.0" ≡ true
unfolding is_quarantined
quarantine_is_permanent_example =
    quarantine_is_permanent bad (installs "1.0.0" "1.2.0" "t" ∷ boots "1.2.0" ∷ []) "1.1.0" refl

read_update_state-written_example : read_update_state (some (written bad)) ≡ bad
read_update_state-written_example = read_update_state-written bad

installs_by_itself_example :
    should_install_now (UpdaterState.ready "1.2.0" 1) 0
    ≡ (would_install (update_action (UpdaterState.ready "1.2.0" 1)) && 0 == 0)
installs_by_itself_example = installs_by_itself (UpdaterState.ready "1.2.0" 1) 0

abbrev run : String → RunStatus → MenuRun
run id status = record {
  id = id;
  status = status;
  created_at = 10;
  started_at = none;
  finished_at = none;
}

abbrev runs : List MenuRun
runs = run "a" completed ∷ run "b" waiting ∷ run "c" running ∷ run "d" completed ∷ []

length-menu_runs_example : length (menu_runs runs 3) ≡ min 3 (length runs)
length-menu_runs_example = length-menu_runs runs 3

abbrev operations : List Operation
operations =
    starts (started 1) ∷ restarts true (rejected "port") ∷ starts (started 2) ∷ stops true ∷ []

running_iff_owned_example :
    is_running (operate_all 7 operations new_supervisor).state
    ≡ owns_process (operate_all 7 operations new_supervisor)
running_iff_owned_example = running_iff_owned 7 operations refl
