-- ===== src/Store/Consistent.antt =====
-- What every run in the store of packages/orchestrator/src/state.ts keeps: totals that belong to its
-- entries, and attempts numbered in order.
use brevi.Base.{
  ◌∷◌, ℕ, zero, suc, ◌+◌, ◌≡◌, ◌≢◌, refl, sym, ap, ◌∙◌, inl, inr, arith, String, Bool, true, Option,
  none, some, List, [], ◌++◌, Dict, get, put, length, ltb, str_eq, get-put, Bool-cases,
  Option-cases, All,
}
use brevi.Costs.{CostEntry, CostTotals, summarize_costs}
use brevi.Runs.{Run, RunAttempt, RunEvent}
use brevi.Store.{
  RunStore, RunWrite, snapshot, event_line, update, set_status, begin_attempt, end_attempt,
  add_artifact, append_event, create_start, create_end, persist, set_run, log_after,
  run_store_write, land_first, land, close_last, new_attempt, with_artifact, result_of,
}
use brevi.Store.Costing.{
  CostState, upsert_cost, add_run_cost, put_costs, cost_state, sample, final_entry, upsert,
  upsert_at, append_entry, replace_at, interim_index, forget,
}
use brevi.Store.Disk.{
  StoreCall, create_begun, created, updated, status_set, attempt_begun, attempt_ended,
  artifact_added, cost_sampled, cost_added, logged, write_landed, store_call, store_calls, IfSome,
  or_same-kept, if_found-kept,
}

abbrev pub totals_of : List CostEntry → Option CostTotals
totals_of [] = none
totals_of (c ∷ cs) = some (summarize_costs (c ∷ cs))

abbrev pub NumberedFrom : ℕ → List RunAttempt → Type 0
NumberedFrom n [] = Unit
NumberedFrom n (a ∷ rest) = (a.number ≡ n) × NumberedFrom (suc n) rest

pub record IsConsistent (run : Run) : Type 0 where
  pub totals : run.cost_totals ≡ totals_of run.costs
  pub numbered : NumberedFrom 1 run.attempts

-- A patch that leaves the costs, their totals and the attempts.
pub record KeepsFigures (patch : Run → Run) : Type 0 where
  pub costs : (run : Run) → (patch run).costs ≡ run.costs
  pub cost_totals : (run : Run) → (patch run).cost_totals ≡ run.cost_totals
  pub attempts : (run : Run) → (patch run).attempts ≡ run.attempts

-- The calls whose patches leave these fields to the methods for them.
abbrev pub IsProper : StoreCall → Type 0
IsProper (created run) = IsConsistent run
IsProper (updated id patch k) = KeepsFigures patch
IsProper (status_set id status patch k now) = KeepsFigures patch
IsProper (attempt_ended id patch now) = (a : RunAttempt) → (patch a).number ≡ a.number
IsProper _ = Unit

abbrev pub EveryRun : (Run → Type 0) → RunStore → Type 0
EveryRun P store = (id : String) (run : Run) → get id store.runs ≡ some run → P run

put-every :
    (P : Run → Type 0) (id : String) (run : Run) (runs : Dict Run)
    → P run
    → ((k : String) (r : Run) → get k runs ≡ some r → P r)
    → (k : String) (r : Run) → get k (put id run runs) ≡ some r
    → P r
put-every P id run runs p h k r e = elim (Bool-cases (str_eq id k)) [
  | inl q ↦ let same : run ≡ r = ground (arith, get-put k id run runs, e, q) in rw (← same) p
  | inr n ↦ h k r (ground (arith, get-put k id run runs, e, n))
]

update-every :
    (P : Run → Type 0) (id : String) (patch : Run → Run) (store : RunStore)
    → ((run : Run) → get id store.runs ≡ some run → P (patch run))
    → EveryRun P store
    → IfSome (EveryRun P) (update id patch store)
unfolding update persist set_run
update-every P id patch store h p =
    if_found-kept (EveryRun P) none (get id store.runs) _ tt
      λ run e. put-every P id (patch run) store.runs (h run e) p

log_after-every :
    (P : Run → Type 0) (event : RunEvent) (o : Option RunStore)
    → IfSome (EveryRun P) o
    → IfSome (EveryRun P) (log_after event o)
unfolding log_after append_event
log_after-every P event none h = tt
log_after-every P event (some store) h = h

numbered-append :
    (n : ℕ) (attempts : List RunAttempt) (a : RunAttempt)
    → NumberedFrom n attempts
    → a.number ≡ length attempts + n
    → NumberedFrom n (attempts ++ a ∷ [])
numbered-append n [] a h e = (omega (arith, e), tt)
numbered-append n (x ∷ xs) a h e = (h.0, numbered-append (suc n) xs a h.1 (omega (arith, e)))

close_last-numbered :
    (patch : RunAttempt → RunAttempt) (now n : ℕ) (attempts closed : List RunAttempt)
    → ((a : RunAttempt) → (patch a).number ≡ a.number)
    → NumberedFrom n attempts
    → close_last patch now attempts ≡ some closed
    → NumberedFrom n closed
unfolding close_last
close_last-numbered patch now n [] closed k h e = ground arith
close_last-numbered patch now n (a ∷ []) closed k h e =
    ground (arith, k (record a { finished_at = some now }))
close_last-numbered patch now n (a ∷ b ∷ rest) closed k h e =
    elim (Option-cases (close_last patch now (b ∷ rest))) [
      | inl f ↦ ground arith
      | inr (c, f) ↦ ground (arith, close_last-numbered patch now (suc n) (b ∷ rest) c k h.1 f)
    ]

replace_at-some :
    (i : ℕ) (entry : CostEntry) (costs : List CostEntry)
    → ltb i (length costs) ≡ true
    → replace_at i entry costs ≢ []
unfolding replace_at
replace_at-some i entry [] h e = ground arith
replace_at-some zero entry (x ∷ xs) h e = ground arith
replace_at-some (suc i) entry (x ∷ xs) h e = ground arith

append-some : (costs : List CostEntry) (entry : CostEntry) → (costs ++ entry ∷ []) ≢ []
append-some [] entry e = ground arith
append-some (x ∷ xs) entry e = ground arith

append_entry-some :
    (execution : Option String) (entry : CostEntry) (state : CostState)
    → (append_entry execution entry state).costs ≢ []
unfolding append_entry
append_entry-some none entry state = append-some state.costs entry
append_entry-some (some execution) entry state = append-some state.costs entry

upsert_at-some :
    (index : Option ℕ) (execution : Option String) (entry : CostEntry) (state : CostState)
    → (upsert_at index execution entry state).costs ≢ []
unfolding upsert_at
upsert_at-some none execution entry state = append_entry-some execution entry state
upsert_at-some (some i) execution entry state = elim (Bool-cases (ltb i (length state.costs))) [
  | inl h ↦ rw h (replace_at-some i entry state.costs h)
  | inr n ↦ rw n (append_entry-some execution entry state)
]

final_entry-some :
    (execution : Option String) (entry : CostEntry) (state : CostState)
    → (final_entry execution entry state).costs ≢ []
unfolding final_entry forget upsert interim_index
final_entry-some none entry state = upsert_at-some none none entry state
final_entry-some (some execution) entry state =
    upsert_at-some (get execution state.interim) (some execution) entry state

sample-some :
    (execution : String) (entry : CostEntry) (state : CostState)
    → (sample execution entry state).costs ≢ []
unfolding sample upsert interim_index
sample-some execution entry state =
    upsert_at-some (get execution state.interim) (some execution) entry state

totals-some : (costs : List CostEntry) → costs ≢ [] → some (summarize_costs costs) ≡ totals_of costs
totals-some [] h = absurd (h refl)
totals-some (c ∷ cs) h = refl

put_costs-every :
    (id : String) (state : CostState) (store : RunStore)
    → state.costs ≢ []
    → EveryRun IsConsistent store
    → IfSome (EveryRun IsConsistent) (put_costs id state store)
unfolding put_costs
put_costs-every id state store h p =
    update-every IsConsistent id _ (record store { interim = put id state.interim store.interim })
      (λ run e. record { totals = totals-some state.costs h; numbered = (p id run e).numbered }) p

begin_attempt-every :
    (id : String) (follow_up : Bool) (now : ℕ) (store : RunStore)
    → EveryRun IsConsistent store
    → IfSome (EveryRun IsConsistent) (begin_attempt id follow_up now store)
unfolding begin_attempt
begin_attempt-every id follow_up now store p =
    if_found-kept (EveryRun IsConsistent) none (get id store.runs) _ tt λ run e.
      log_after-every IsConsistent _ _ (
        update-every IsConsistent id _ store
          (λ r f. record {
            totals = (p id r f).totals;
            numbered =
                numbered-append 1 run.attempts (new_attempt follow_up now run.attempts)
                  (p id run e).numbered refl;
          })
          p)

end_attempt-every :
    (id : String) (patch : RunAttempt → RunAttempt) (now : ℕ) (store : RunStore)
    → ((a : RunAttempt) → (patch a).number ≡ a.number)
    → EveryRun IsConsistent store
    → IfSome (EveryRun IsConsistent) (end_attempt id patch now store)
unfolding end_attempt
end_attempt-every id patch now store k p =
    if_found-kept (EveryRun IsConsistent) (some store) (get id store.runs) _ p λ run e.
      if_found-kept (EveryRun IsConsistent) (some store) (close_last patch now run.attempts) _ p
        λ closed f.
          update-every IsConsistent id _ store
            (λ r g. record {
              totals = (p id r g).totals;
              numbered =
                  close_last-numbered patch now 1 run.attempts closed k (p id run e).numbered f;
            })
            p

land_first-every :
    (P : Run → Type 0) (ws : List RunWrite) (store : RunStore)
    → EveryRun P store
    → EveryRun P (land_first true ws store)
unfolding land_first land
land_first-every P [] store p = p
land_first-every P (snapshot run ∷ ws) store p = p
land_first-every P (event_line event ∷ ws) store p = p

patched :
    (patch : Run → Run) (run : Run)
    → KeepsFigures patch
    → IsConsistent run
    → IsConsistent (patch run)
patched patch run k c = record {
  totals = k.cost_totals run ∙ c.totals ∙ ap totals_of (sym (k.costs run));
  numbered = rw (k.attempts run) c.numbered;
}

store_call-every :
    (c : StoreCall) (store : RunStore)
    → IsProper c
    → EveryRun IsConsistent store
    → EveryRun IsConsistent (store_call c store)
unfolding store_call create_start create_end persist set_run append_event set_status add_artifact
    upsert_cost add_run_cost run_store_write
store_call-every (create_begun run) store k p = p
store_call-every (created run) store k p = put-every IsConsistent run.id run store.runs k p
store_call-every (updated id patch _) store k p =
    or_same-kept (EveryRun IsConsistent) store _ p
      (update-every IsConsistent id patch store (λ run e. patched patch run k (p id run e)) p)
store_call-every (status_set id status patch _ now) store k p =
    or_same-kept (EveryRun IsConsistent) store _ p (
      log_after-every IsConsistent _ _ (
        update-every IsConsistent id _ store
          (λ run e.
            let c = patched patch run k (p id run e) in
            record { totals = c.totals; numbered = c.numbered })
          p))
store_call-every (attempt_begun id follow_up now) store k p =
    or_same-kept (EveryRun IsConsistent) store _ p (begin_attempt-every id follow_up now store p)
store_call-every (attempt_ended id patch now) store k p =
    or_same-kept (EveryRun IsConsistent) store _ p (end_attempt-every id patch now store k p)
store_call-every (artifact_added id artifact now) store k p =
    or_same-kept (EveryRun IsConsistent) store _ p (
      log_after-every IsConsistent _ _ (
        if_found-kept (EveryRun IsConsistent) (some store) (result_of (get id store.runs)) _ p
          λ result e.
            update-every IsConsistent id (with_artifact artifact result) store
              (λ run f. record { totals = (p id run f).totals; numbered = (p id run f).numbered })
              p))
store_call-every (cost_sampled id execution entry) store k p =
    or_same-kept (EveryRun IsConsistent) store _ p (
      if_found-kept (EveryRun IsConsistent) none (get id store.runs) _ tt
        λ run e. put_costs-every id _ store (sample-some execution entry (cost_state run store)) p)
store_call-every (cost_added id entry execution now) store k p =
    or_same-kept (EveryRun IsConsistent) store _ p (
      if_found-kept (EveryRun IsConsistent) none (get id store.runs) _ tt λ run e.
        log_after-every IsConsistent _ _
          (put_costs-every id _ store (final_entry-some execution entry (cost_state run store)) p))
store_call-every (logged event) store k p = p
store_call-every write_landed store k p = land_first-every IsConsistent store.writes store p

-- Calls of the store that leave a run's costs, totals and attempts to the methods for them keep, of
-- every run, that its totals are those of its entries (none before the first) and that its attempts
-- are numbered 1, 2, 3 and so on.
pub runs_stay-IsConsistent :
    (calls : List StoreCall) (store : RunStore)
    → All IsProper calls
    → EveryRun IsConsistent store
    → EveryRun IsConsistent (store_calls calls store)
unfolding store_calls
runs_stay-IsConsistent [] store k p = p
runs_stay-IsConsistent (c ∷ calls) store k p =
    runs_stay-IsConsistent calls (store_call c store) k.1 (store_call-every c store k.0 p)
