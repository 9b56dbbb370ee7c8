-- ===== src/Scheduler/Recovery/Partition.antt =====
-- What a restarted host does with each run is one of three things (`planRunRecovery` of
-- packages/orchestrator/src/scheduler.ts).
use brevi.Base.{
  ◌∷◌, ℕ, suc, ◌+◌, ◌≤◌, ◌≡◌, refl, ap, ◌∙◌, inl, inr, arith, String, Bool, true, false, not, ◌&&◌,
  ◌||◌, some, if_found, List, [], map, keep, length, if_ind, contains, str_eq, eq_iff, ltb,
  insert_by, sort_by, Bool-cases, Option-cases,
}
use brevi.Runs.{Run}
use brevi.Scheduler.{any_run, status_is_queued}
use brevi.Scheduler.Recovery.{
  RestoredLease, RunRecoveryPlan, lease_of, queue_time, leases_of, is_waiting_again, is_interrupted,
  queue_of, plan_run_recovery,
}

length-insert_by :
    (after : Run → Run → Bool) (r : Run) (runs : List Run)
    → length (insert_by after r runs) ≡ suc (length runs)
unfolding insert_by
length-insert_by after r [] = refl
length-insert_by after r (x ∷ xs) = ground (arith, length-insert_by after r xs)

length-sort_by :
    (after : Run → Run → Bool) (runs : List Run) → length (sort_by after runs) ≡ length runs
unfolding sort_by
length-sort_by after [] = refl
length-sort_by after (r ∷ rs) =
    length-insert_by after r (sort_by after rs) ∙ ap suc (length-sort_by after rs)

abbrev ids : List Run → List String
ids runs = map (λ run. run.id) runs

length-ids : (runs : List Run) → length (ids runs) ≡ length runs
length-ids [] = refl
length-ids (r ∷ rs) = ap suc (length-ids rs)

-- The runs split in three by the two tests.
split_counts :
    (restored : List RestoredLease) (pending : List Run)
    → length (leases_of pending restored)
        + length (keep (is_waiting_again restored) pending)
        + length (keep (is_interrupted restored) pending)
      ≡ length pending
unfolding leases_of
split_counts restored [] = refl
split_counts restored (run ∷ runs) = elim (Option-cases (lease_of run.id restored)) [
  | inl n ↦ elim (Bool-cases (status_is_queued run.status)) [
    | inl h ↦ ground (arith, split_counts restored runs)
    | inr h ↦ ground (arith, split_counts restored runs)
  ]
  | inr (lease, e) ↦ elim (Bool-cases (status_is_queued run.status)) [
    | inl h ↦ ground (arith, split_counts restored runs)
    | inr h ↦ ground (arith, split_counts restored runs)
  ]
]

contains-insert_by :
    (id : String) (after : Run → Run → Bool) (r : Run) (runs : List Run)
    → contains id (ids (insert_by after r runs)) ≡ (str_eq r.id id || contains id (ids runs))
unfolding insert_by
contains-insert_by id after r [] = refl
contains-insert_by id after r (x ∷ xs) = ground (arith, contains-insert_by id after r xs)

contains-sort_by :
    (id : String) (after : Run → Run → Bool) (runs : List Run)
    → contains id (ids (sort_by after runs)) ≡ contains id (ids runs)
unfolding sort_by
contains-sort_by id after [] = refl
contains-sort_by id after (r ∷ rs) =
    contains-insert_by id after r (sort_by after rs)
    ∙ ap (λ b. str_eq r.id id || b) (contains-sort_by id after rs)

-- Whether some lease was restored for the run with the identifier.
abbrev pub has_lease : String → List RestoredLease → Bool
has_lease id [] = false
has_lease id (lease ∷ leases) = str_eq lease.run_id id || has_lease id leases

abbrev lease_runs : List RestoredLease → List String
lease_runs leases = map (λ lease. lease.run_id) leases

lease_of-has_lease :
    (id : String) (restored : List RestoredLease)
    → if_found false (lease_of id restored) (λ lease. true) ≡ has_lease id restored
unfolding lease_of
lease_of-has_lease id [] = refl
lease_of-has_lease id (lease ∷ leases) = elim (Option-cases (lease_of id leases)) [
  | inl f ↦ ground (arith, f, lease_of-has_lease id leases)
  | inr (found, f) ↦ ground (arith, f, lease_of-has_lease id leases)
]

lease_of-run :
    (id : String) (restored : List RestoredLease) (lease : RestoredLease)
    → lease_of id restored ≡ some lease
    → lease.run_id ≡ id
unfolding lease_of
lease_of-run id [] lease h = ground arith
lease_of-run id (l ∷ ls) lease h = elim (Option-cases (lease_of id ls)) [
  | inl f ↦ ground (arith, f, eq_iff l.run_id id)
  | inr (found, f) ↦ lease_of-run id ls lease (ground (arith, f))
]

contains-leases_of :
    (id : String) (restored : List RestoredLease) (pending : List Run)
    → contains id (lease_runs (leases_of pending restored))
      ≡ any_run (λ run. str_eq run.id id && has_lease run.id restored) pending
unfolding leases_of
contains-leases_of id restored [] = refl
contains-leases_of id restored (run ∷ runs) = elim (Option-cases (lease_of run.id restored)) [
  | inl f ↦
      ground (arith, f, lease_of-has_lease run.id restored, contains-leases_of id restored runs)
  | inr (lease, f) ↦ ground (
    arith,
    f,
    lease_of-has_lease run.id restored,
    lease_of-run run.id restored lease f,
    contains-leases_of id restored runs,
  )
]

contains-waiting :
    (id : String) (restored : List RestoredLease) (pending : List Run)
    → contains id (ids (keep (is_waiting_again restored) pending))
      ≡ any_run
          (λ run.
            str_eq run.id id && (status_is_queued run.status && not (has_lease run.id restored)))
          pending
contains-waiting id restored [] = refl
contains-waiting id restored (run ∷ runs) =
    ground (arith, lease_of-has_lease run.id restored, contains-waiting id restored runs)

contains-interrupted :
    (id : String) (restored : List RestoredLease) (pending : List Run)
    → contains id (ids (keep (is_interrupted restored) pending))
      ≡ any_run
          (λ run.
            str_eq run.id id
            && (not (status_is_queued run.status) && not (has_lease run.id restored)))
          pending
contains-interrupted id restored [] = refl
contains-interrupted id restored (run ∷ runs) =
    ground (arith, lease_of-has_lease run.id restored, contains-interrupted id restored runs)

-- Where the plan has an identifier.
pub record RecoveredAs (pending : List Run) (restored : List RestoredLease) (id : String)
    (plan : RunRecoveryPlan) : Type 0 where
  pub leased_is :
      contains id (lease_runs plan.leased)
      ≡ any_run (λ run. str_eq run.id id && has_lease run.id restored) pending
  pub queue_is :
      contains id plan.queue
      ≡ any_run
          (λ run.
            str_eq run.id id && (status_is_queued run.status && not (has_lease run.id restored)))
          pending
  pub interrupted_is :
      contains id plan.interrupted
      ≡ any_run
          (λ run.
            str_eq run.id id
            && (not (status_is_queued run.status) && not (has_lease run.id restored)))
          pending

-- A restarted host shares out the runs: an identifier is among those left to their workers exactly if
-- a run with it has a restored lease, whatever its status, among those to queue again exactly if a
-- queued run with it has none, and among the interrupted ones exactly if a run with it that is not
-- queued has none. Together they are as many as the runs.
pub every_run_recovered_once :
    (pending : List Run) (restored : List RestoredLease) (id : String)
    → (length (plan_run_recovery pending restored).leased
          + length (plan_run_recovery pending restored).queue
          + length (plan_run_recovery pending restored).interrupted
        ≡ length pending)
      × RecoveredAs pending restored id (plan_run_recovery pending restored)
unfolding plan_run_recovery queue_of
every_run_recovered_once pending restored id = (
  omega (
    arith,
    split_counts restored pending,
    length-ids (sort_by later (keep (is_waiting_again restored) pending)),
    length-sort_by later (keep (is_waiting_again restored) pending),
    length-ids (keep (is_interrupted restored) pending),
  ),
  record {
    leased_is = contains-leases_of id restored pending;
    queue_is =
        contains-sort_by id later (keep (is_waiting_again restored) pending)
        ∙ contains-waiting id restored pending;
    interrupted_is = contains-interrupted id restored pending;
  },
)
  where
    later : Run → Run → Bool
    later a b = ltb (queue_time b) (queue_time a)

-- Every run is at most as old as those after it.
abbrev pub AllLater : ℕ → List Run → Type 0
AllLater time [] = Unit
AllLater time (run ∷ runs) = (time ≤ queue_time run) × AllLater time runs

abbrev pub InOrder : List Run → Type 0
InOrder [] = Unit
InOrder (run ∷ runs) = AllLater (queue_time run) runs × InOrder runs

later-insert_by :
    (time : ℕ) (r : Run) (runs : List Run)
    → time ≤ queue_time r
    → AllLater time runs
    → AllLater time (insert_by (λ a b. ltb (queue_time b) (queue_time a)) r runs)
unfolding insert_by
later-insert_by time r [] h g = (h, tt)
later-insert_by time r (x ∷ xs) h g =
    if_ind (AllLater time) (ltb (queue_time x) (queue_time r)) _ _
      (λ e. (g.0, later-insert_by time r xs h g.1)) (λ e. (h, g))

earlier-later : (a b : ℕ) (runs : List Run) → a ≤ b → AllLater b runs → AllLater a runs
earlier-later a b [] h g = tt
earlier-later a b (x ∷ xs) h g = (omega (arith, g.0), earlier-later a b xs h g.1)

order-insert_by :
    (r : Run) (runs : List Run)
    → InOrder runs
    → InOrder (insert_by (λ a b. ltb (queue_time b) (queue_time a)) r runs)
unfolding insert_by
order-insert_by r [] h = (tt, tt)
order-insert_by r (x ∷ xs) h =
    if_ind InOrder (ltb (queue_time x) (queue_time r)) _ _
      (λ e. (later-insert_by (queue_time x) r xs (ground arith) h.0, order-insert_by r xs h.1))
      (λ e.
        let first : queue_time r ≤ queue_time x = ground arith in
        ((first, earlier-later (queue_time r) (queue_time x) xs first h.0), h))

order-sort_by :
    (runs : List Run) → InOrder (sort_by (λ a b. ltb (queue_time b) (queue_time a)) runs)
unfolding sort_by
order-sort_by [] = tt
order-sort_by (r ∷ rs) =
    order-insert_by r (sort_by (λ a b. ltb (queue_time b) (queue_time a)) rs) (order-sort_by rs)

-- The recovered queue is the runs' ids in the order in which they were queued, a run without that
-- time by its creation.
pub recovered_queue-InOrder :
    (pending : List Run) (restored : List RestoredLease)
    → ((plan_run_recovery pending restored).queue ≡ ids (queue_of pending restored))
      × InOrder (queue_of pending restored)
unfolding plan_run_recovery queue_of
recovered_queue-InOrder pending restored =
    (refl, order-sort_by (keep (is_waiting_again restored) pending))
