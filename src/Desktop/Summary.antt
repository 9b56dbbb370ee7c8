-- ===== src/Desktop/Summary.antt =====
-- apps/desktop/src/main/summary.ts: counts and the menu of runs behind the tray. A run is what this
-- file reads of it: its identifier, its status and the time of `runTimestamp`'s choice.
pub mod Counts
pub mod Menu
use Prim.Native.String
use brevi.Base.{
  ℕ, zero, suc, ◌+◌, ◌-◌, ◌*◌, String, Bool, true, false, not, ◌&&◌, ◌||◌, Option, none, some, List,
  [], ◌∷◌, ◌++◌, leb, ltb, ◌==◌, if◌then◌else◌, keep, length, max,
}
use brevi.Runs.{
  RunStatus, queued, preparing, running, finalizing, waiting, completed, failed, cancelled,
}

pub record MenuRun : Type 0 where
  pub id : String
  pub status : RunStatus
  pub created_at : ℕ
  pub started_at : Option ℕ
  pub finished_at : Option ℕ

-- `ACTIVE_STATUSES.has(status)`.
abbrev pub is_active : RunStatus → Bool
is_active queued = true
is_active preparing = true
is_active running = true
is_active finalizing = true
is_active waiting = true
is_active _ = false

abbrev pub is_queued : RunStatus → Bool
is_queued queued = true
is_queued _ = false

abbrev pub is_waiting : RunStatus → Bool
is_waiting waiting = true
is_waiting _ = false

abbrev pub is_failed : RunStatus → Bool
is_failed failed = true
is_failed _ = false

pub record FleetCounts : Type 0 where
  pub active : ℕ
  pub queued : ℕ
  pub waiting : ℕ
  pub failed : ℕ
  pub total : ℕ

abbrev pub tick : Bool → ℕ → ℕ
tick b n = if b then n + 1 else n

-- One round of the loop of `countRuns`.
unfoldable pub count_step : RunStatus → FleetCounts → FleetCounts
count_step status counts = record {
  active = tick (is_active status) counts.active;
  queued = tick (is_queued status) counts.queued;
  waiting = tick (is_waiting status) counts.waiting;
  failed = tick (is_failed status) counts.failed;
  total = counts.total;
}

unfoldable pub count_from : FleetCounts → List MenuRun → FleetCounts
unfolding count_step
count_from counts [] = counts
count_from counts (run ∷ runs) = count_from (count_step run.status counts) runs

unfoldable pub count_runs : List MenuRun → FleetCounts
unfolding count_from
count_runs runs =
    count_from (record { active = 0; queued = 0; waiting = 0; failed = 0; total = length runs })
      runs

-- `Math.max(0, …)` of a difference is the subtraction that stops at 0.
unfoldable pub running_count : FleetCounts → ℕ
running_count counts = counts.active - counts.queued - counts.waiting

unfoldable pub update_blocking_runs : FleetCounts → ℕ
update_blocking_runs counts = counts.active - counts.waiting

unfoldable pub run_timestamp : MenuRun → ℕ
run_timestamp run = elim run.finished_at [
  | some t ↦ t
  | none ↦ elim run.started_at [ some t ↦ t | none ↦ run.created_at ]
]

abbrev pub status_rank : RunStatus → ℕ
status_rank finalizing = 0
status_rank running = 1
status_rank preparing = 2
status_rank queued = 3
status_rank waiting = 4
status_rank _ = 5

-- Whether the comparison of the active runs puts `b` strictly before `a`.
unfoldable pub after_active : MenuRun → MenuRun → Bool
unfolding run_timestamp
after_active a b =
    if status_rank a.status == status_rank b.status
    then ltb (run_timestamp a) (run_timestamp b)
    else ltb (status_rank b.status) (status_rank a.status)

unfoldable pub after_finished : MenuRun → MenuRun → Bool
unfolding run_timestamp
after_finished a b = ltb (run_timestamp a) (run_timestamp b)

-- `Array.prototype.sort`, which is stable: insertion from the right, before what is not smaller.
unfoldable pub insert_run : (MenuRun → MenuRun → Bool) → MenuRun → List MenuRun → List MenuRun
insert_run after r [] = r ∷ []
insert_run after r (x ∷ xs) = if after r x then x ∷ insert_run after r xs else r ∷ x ∷ xs

unfoldable pub sort_runs : (MenuRun → MenuRun → Bool) → List MenuRun → List MenuRun
unfolding insert_run
sort_runs after [] = []
sort_runs after (r ∷ rs) = insert_run after r (sort_runs after rs)

abbrev pub take {ℓ} : {A : Type ℓ} → ℕ → List A → List A
take zero xs = []
take (suc n) [] = []
take (suc n) (x ∷ xs) = x ∷ take n xs

unfoldable pub menu_runs : List MenuRun → ℕ → List MenuRun
unfolding sort_runs after_active after_finished
menu_runs runs limit =
    let active = keep (λ r. is_active r.status) runs in
    let finished = keep (λ r. not (is_active r.status)) runs in
    take limit (sort_runs after_active active ++ sort_runs after_finished finished)
