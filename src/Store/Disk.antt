-- ===== src/Store/Disk.antt =====
-- The snapshots on disk follow the runs in memory (`#persist` and the write queue of
-- packages/orchestrator/src/state.ts).
use brevi.Base.{
  ◌∷◌, ℕ, ◌≡◌, refl, sym, ap, ◌∙◌, arith, String, Bool, true, Option, none, some, List, [], ◌++◌,
  if_found, if◌then◌else◌, str_eq, Dict, get, put, eq_iff, get-put,
}
use brevi.Costs.{CostEntry}
use brevi.Runs.{RunStatus, queued, status_event, Run, RunAttempt, RunEvent}
use brevi.Store.{
  RunStore, RunWrite, snapshot, event_line, update, set_status, begin_attempt, end_attempt,
  add_artifact, append_event, create_start, create_end, persist, set_run, log_after,
  run_store_write, land_first, land, close_last, with_artifact, result_of,
}
use brevi.Store.Costing.{CostState, upsert_cost, add_run_cost, put_costs}

-- What the disk holds once the queue has drained.
abbrev drained : List RunWrite → Dict Run → Dict Run
drained [] disk = disk
drained (snapshot run ∷ ws) disk = drained ws (put run.id run disk)
drained (event_line event ∷ ws) disk = drained ws disk

drained-snapshot :
    (ws : List RunWrite) (run : Run) (disk : Dict Run)
    → drained (ws ++ snapshot run ∷ []) disk ≡ put run.id run (drained ws disk)
drained-snapshot [] run disk = refl
drained-snapshot (snapshot r ∷ ws) run disk = drained-snapshot ws run (put r.id r disk)
drained-snapshot (event_line e ∷ ws) run disk = drained-snapshot ws run disk

drained-event :
    (ws : List RunWrite) (event : RunEvent) (disk : Dict Run)
    → drained (ws ++ event_line event ∷ []) disk ≡ drained ws disk
drained-event [] event disk = refl
drained-event (snapshot r ∷ ws) event disk = drained-event ws event (put r.id r disk)
drained-event (event_line e ∷ ws) event disk = drained-event ws event disk

-- Of several runs, the one with the identifier.
abbrev pub find_run : String → List Run → Option Run
find_run id [] = none
find_run id (run ∷ runs) =
    let rest = find_run id runs in if str_eq run.id id then some run else rest

-- What stands under an identifier: a run that is being created, or else what is in memory.
abbrev pub or_creating : Option Run → Option Run → Option Run
or_creating none held = held
or_creating (some run) held = some run

-- With the runs `creating` being created: every run in memory is under its id, and is what the disk
-- will hold; so will it hold each run that is being created, none of which is in memory yet.
pub record IsPersisted (creating : List Run) (store : RunStore) : Type 0 where
  pub under_id : (id : String) (run : Run) → get id store.runs ≡ some run → run.id ≡ id
  pub on_disk :
      (id : String)
      → or_creating (find_run id creating) (get id store.runs)
        ≡ get id (drained store.writes store.disk)
  pub apart : (id : String) (run : Run) → get id store.runs ≡ some run → find_run id creating ≡ none

-- `Omit<Run, "id">`: a patch leaves the id.
abbrev pub KeepsId : (Run → Run) → Type 0
KeepsId patch = (run : Run) → (patch run).id ≡ run.id

-- A creation is two calls: it begins with its write, and ends when that is done.
pub data StoreCall : Type 0 where
  create_begun created : Run → StoreCall
  updated : String → (patch : Run → Run) → KeepsId patch → StoreCall
  status_set : String → RunStatus → (patch : Run → Run) → KeepsId patch → ℕ → StoreCall
  attempt_begun : String → Bool → ℕ → StoreCall
  attempt_ended : String → (RunAttempt → RunAttempt) → ℕ → StoreCall
  artifact_added : String → String → ℕ → StoreCall
  cost_sampled : String → String → CostEntry → StoreCall
  cost_added : String → CostEntry → Option String → ℕ → StoreCall
  logged : RunEvent → StoreCall
  write_landed : StoreCall

abbrev or_same : RunStore → Option RunStore → RunStore
or_same store none = store
or_same store (some next) = next

-- A call that throws leaves the store as it is.
unfoldable pub store_call : StoreCall → RunStore → RunStore
unfolding create_start create_end update set_status begin_attempt end_attempt add_artifact
    upsert_cost add_run_cost append_event run_store_write
store_call (create_begun run) store = create_start run store
store_call (created run) store = create_end run store
store_call (updated id patch k) store = or_same store (update id patch store)
store_call (status_set id status patch k now) store =
    or_same store (set_status id status patch now store)
store_call (attempt_begun id follow_up now) store =
    or_same store (begin_attempt id follow_up now store)
store_call (attempt_ended id patch now) store = or_same store (end_attempt id patch now store)
store_call (artifact_added id artifact now) store =
    or_same store (add_artifact id artifact now store)
store_call (cost_sampled id execution entry) store =
    or_same store (upsert_cost id execution entry store)
store_call (cost_added id entry execution now) store =
    or_same store (add_run_cost id entry execution now store)
store_call (logged event) store = append_event event store
store_call write_landed store = run_store_write true store

unfoldable pub store_calls : List StoreCall → RunStore → RunStore
unfolding store_call
store_calls [] store = store
store_calls (c ∷ cs) store = store_calls cs (store_call c store)

abbrev pub IfSome : (RunStore → Type 0) → Option RunStore → Type 0
IfSome P none = Unit
IfSome P (some store) = P store

pub or_same-kept :
    (P : RunStore → Type 0) (store : RunStore) (o : Option RunStore)
    → P store
    → IfSome P o
    → P (or_same store o)
or_same-kept P store none p h = p
or_same-kept P store (some next) p h = h

pub if_found-kept {ℓ} :
    {A : Type ℓ} (P : RunStore → Type 0) (b : Option RunStore) (o : Option A)
    (f : A → Option RunStore)
    → IfSome P b
    → ((a : A) → o ≡ some a → IfSome P (f a))
    → IfSome P (if_found b o f)
if_found-kept P b none f p h = p
if_found-kept P b (some a) f p h = h a refl

module _ (creating : List Run) where
  append_event-IsPersisted :
      (event : RunEvent) (store : RunStore)
      → IsPersisted creating store
      → IsPersisted creating (append_event event store)
  unfolding append_event
  append_event-IsPersisted event store p = record {
    under_id = p.under_id;
    apart = p.apart;
    on_disk = λ id. p.on_disk id ∙ ap (get id) (sym (drained-event store.writes event store.disk));
  }

  save-IsPersisted :
      (id : String) (run : Run) (store : RunStore)
      → run.id ≡ id
      → find_run id creating ≡ none
      → IsPersisted creating store
      → IsPersisted creating (persist run (set_run id run store))
  unfolding persist set_run
  save-IsPersisted id run store e f p = record {
    under_id = λ k r h. ground (arith, get-put k id run store.runs, eq_iff id k, p.under_id k r, e);
    on_disk = λ k.
        rw (drained-snapshot store.writes run store.disk, e)
          (ground (
            arith,
            get-put k id run store.runs,
            get-put k id run (drained store.writes store.disk),
            p.on_disk k,
            eq_iff id k,
            f,
          ));
    apart = λ k r h. ground (arith, get-put k id run store.runs, eq_iff id k, p.apart k r, f);
  }

  log_after-IsPersisted :
      (event : RunEvent) (o : Option RunStore)
      → IfSome (IsPersisted creating) o
      → IfSome (IsPersisted creating) (log_after event o)
  unfolding log_after
  log_after-IsPersisted event none h = tt
  log_after-IsPersisted event (some store) h = append_event-IsPersisted event store h

  update-IsPersisted :
      (id : String) (patch : Run → Run) (store : RunStore)
      → KeepsId patch
      → IsPersisted creating store
      → IfSome (IsPersisted creating) (update id patch store)
  unfolding update
  update-IsPersisted id patch store k p =
      if_found-kept (IsPersisted creating) none (get id store.runs) _ tt λ run e.
        save-IsPersisted id (patch run) store (k run ∙ p.under_id id run e) (p.apart id run e) p

  put_costs-IsPersisted :
      (id : String) (state : CostState) (store : RunStore)
      → IsPersisted creating store
      → IfSome (IsPersisted creating) (put_costs id state store)
  unfolding put_costs
  put_costs-IsPersisted id state store p =
      update-IsPersisted id _ _ (λ run. refl)
        (record { under_id = p.under_id; on_disk = p.on_disk; apart = p.apart })

  land-IsPersisted :
      (store : RunStore) (ws : List RunWrite)
      → store.writes ≡ ws
      → IsPersisted creating store
      → IsPersisted creating (land_first true ws store)
  unfolding land_first land
  land-IsPersisted store [] e p = p
  land-IsPersisted store (snapshot run ∷ ws) e p = record {
    under_id = p.under_id;
    apart = p.apart;
    on_disk = λ id. p.on_disk id ∙ ap (λ q. get id (drained q store.disk)) e;
  }
  land-IsPersisted store (event_line event ∷ ws) e p = record {
    under_id = p.under_id;
    apart = p.apart;
    on_disk = λ id. p.on_disk id ∙ ap (λ q. get id (drained q store.disk)) e;
  }

  begin_attempt-IsPersisted :
      (id : String) (follow_up : Bool) (now : ℕ) (store : RunStore)
      → IsPersisted creating store
      → IfSome (IsPersisted creating) (begin_attempt id follow_up now store)
  unfolding begin_attempt
  begin_attempt-IsPersisted id follow_up now store p =
      if_found-kept (IsPersisted creating) none (get id store.runs) _ tt
        λ run e. log_after-IsPersisted _ _ (update-IsPersisted id _ store (λ r. refl) p)

  end_attempt-IsPersisted :
      (id : String) (patch : RunAttempt → RunAttempt) (now : ℕ) (store : RunStore)
      → IsPersisted creating store
      → IfSome (IsPersisted creating) (end_attempt id patch now store)
  unfolding end_attempt
  end_attempt-IsPersisted id patch now store p =
      if_found-kept (IsPersisted creating) (some store) (get id store.runs) _ p λ run e.
        if_found-kept (IsPersisted creating) (some store) (close_last patch now run.attempts) _ p
          λ closed f. update-IsPersisted id _ store (λ r. refl) p

  add_artifact-IsPersisted :
      (id artifact : String) (now : ℕ) (store : RunStore)
      → IsPersisted creating store
      → IfSome (IsPersisted creating) (add_artifact id artifact now store)
  unfolding add_artifact
  add_artifact-IsPersisted id artifact now store p = log_after-IsPersisted _ _ (
      if_found-kept (IsPersisted creating) (some store) (result_of (get id store.runs)) _ p
        λ result e. update-IsPersisted id (with_artifact artifact result) store (λ r. refl) p)

  upsert_cost-IsPersisted :
      (id execution : String) (entry : CostEntry) (store : RunStore)
      → IsPersisted creating store
      → IfSome (IsPersisted creating) (upsert_cost id execution entry store)
  unfolding upsert_cost
  upsert_cost-IsPersisted id execution entry store p =
      if_found-kept (IsPersisted creating) none (get id store.runs) _ tt
        λ run e. put_costs-IsPersisted id _ store p

  add_run_cost-IsPersisted :
      (id : String) (entry : CostEntry) (execution : Option String) (now : ℕ) (store : RunStore)
      → IsPersisted creating store
      → IfSome (IsPersisted creating) (add_run_cost id entry execution now store)
  unfolding add_run_cost
  add_run_cost-IsPersisted id entry execution now store p =
      if_found-kept (IsPersisted creating) none (get id store.runs) _ tt
        λ run e. log_after-IsPersisted _ _ (put_costs-IsPersisted id _ store p)

abbrev without : String → List Run → List Run
without id [] = []
without id (run ∷ runs) =
    let rest = without id runs in if str_eq run.id id then rest else run ∷ rest

find_run-without :
    (k id : String) (runs : List Run)
    → find_run k (without id runs) ≡ (if str_eq id k then none else find_run k runs)
find_run-without k id [] = ground arith
find_run-without k id (run ∷ runs) =
    ground (arith, eq_iff run.id id, eq_iff run.id k, eq_iff id k, find_run-without k id runs)

-- The runs that are being created after a call.
abbrev pub creating_after : StoreCall → List Run → List Run
creating_after (create_begun run) creating = run ∷ creating
creating_after (created run) creating = without run.id creating
creating_after _ creating = creating

-- A creation begins with an identifier that is not in use, and ends with the run that it began with.
abbrev pub IsInTurn : StoreCall → List Run → RunStore → Type 0
IsInTurn (create_begun run) creating store =
    (get run.id store.runs ≡ none) × (find_run run.id creating ≡ none)
IsInTurn (created run) creating store = find_run run.id creating ≡ some run
IsInTurn _ creating store = Unit

abbrev pub AllInTurn : List StoreCall → List Run → RunStore → Type 0
AllInTurn [] creating store = Unit
AllInTurn (c ∷ cs) creating store =
    IsInTurn c creating store × AllInTurn cs (creating_after c creating) (store_call c store)

begin-IsPersisted :
    (run : Run) (creating : List Run) (store : RunStore)
    → IsInTurn (create_begun run) creating store
    → IsPersisted creating store
    → IsPersisted (run ∷ creating) (create_start run store)
unfolding create_start persist
begin-IsPersisted run creating store t p = record {
  under_id = p.under_id;
  on_disk = λ k. rw (drained-snapshot store.writes run store.disk) (
      ground (
        arith,
        get-put k run.id run (drained store.writes store.disk),
        eq_iff run.id k,
        p.on_disk k,
      ));
  apart = λ k r h. ground (arith, eq_iff run.id k, p.apart k r h, t.0);
}

end-IsPersisted :
    (run : Run) (creating : List Run) (store : RunStore)
    → IsInTurn (created run) creating store
    → IsPersisted creating store
    → IsPersisted (without run.id creating) (create_end run store)
unfolding create_end set_run append_event
end-IsPersisted run creating store t p = record {
  under_id =
      λ k r h. ground (arith, get-put k run.id run store.runs, eq_iff run.id k, p.under_id k r);
  on_disk = λ k.
      rw (drained-event store.writes (status_event run.id run.created_at queued) store.disk) (
        ground (
          arith,
          get-put k run.id run store.runs,
          find_run-without k run.id creating,
          eq_iff run.id k,
          p.on_disk k,
          p.on_disk run.id,
          t,
        ));
  apart = λ k r h. ground (
    arith,
    get-put k run.id run store.runs,
    find_run-without k run.id creating,
    eq_iff run.id k,
    p.apart k r,
  );
}

store_call-IsPersisted :
    (c : StoreCall) (creating : List Run) (store : RunStore)
    → IsInTurn c creating store
    → IsPersisted creating store
    → IsPersisted (creating_after c creating) (store_call c store)
unfolding store_call set_status run_store_write
store_call-IsPersisted (create_begun run) ps store t p = begin-IsPersisted run ps store t p
store_call-IsPersisted (created run) ps store t p = end-IsPersisted run ps store t p
store_call-IsPersisted (updated id patch k) ps store t p =
    or_same-kept (IsPersisted ps) store _ p (update-IsPersisted ps id patch store k p)
store_call-IsPersisted (status_set id status patch k now) ps store t p =
    or_same-kept (IsPersisted ps) store _ p
      (log_after-IsPersisted ps _ _ (update-IsPersisted ps id _ store (λ run. k run) p))
store_call-IsPersisted (attempt_begun id follow_up now) ps store t p =
    or_same-kept (IsPersisted ps) store _ p (begin_attempt-IsPersisted ps id follow_up now store p)
store_call-IsPersisted (attempt_ended id patch now) ps store t p =
    or_same-kept (IsPersisted ps) store _ p (end_attempt-IsPersisted ps id patch now store p)
store_call-IsPersisted (artifact_added id artifact now) ps store t p =
    or_same-kept (IsPersisted ps) store _ p (add_artifact-IsPersisted ps id artifact now store p)
store_call-IsPersisted (cost_sampled id execution entry) ps store t p =
    or_same-kept (IsPersisted ps) store _ p (upsert_cost-IsPersisted ps id execution entry store p)
store_call-IsPersisted (cost_added id entry execution now) ps store t p =
    or_same-kept (IsPersisted ps) store _ p
      (add_run_cost-IsPersisted ps id entry execution now store p)
store_call-IsPersisted (logged event) ps store t p = append_event-IsPersisted ps event store p
store_call-IsPersisted write_landed ps store t p = land-IsPersisted ps store store.writes refl p

abbrev pub empty_store : RunStore
empty_store = record { runs = []; interim = []; writes = []; disk = []; log = [] }

-- The runs that are being created after some calls.
abbrev pub still_creating : List StoreCall → List Run → List Run
still_creating [] creating = creating
still_creating (c ∷ cs) creating = still_creating cs (creating_after c creating)

calls-IsPersisted :
    (calls : List StoreCall) (creating : List Run) (store : RunStore)
    → AllInTurn calls creating store
    → IsPersisted creating store
    → IsPersisted (still_creating calls creating) (store_calls calls store)
unfolding store_calls
calls-IsPersisted [] creating store t p = p
calls-IsPersisted (c ∷ calls) creating store t p =
    calls-IsPersisted calls (creating_after c creating) (store_call c store) t.1
      (store_call-IsPersisted c creating store t.0 p)

-- Take a store without runs, and any calls of it, a creation being two, with its identifier not in
-- use when it begins. Then, when no write is queued and none has failed, the snapshot of every run on
-- disk is the run in memory, that of a run which is still being created is that run, and there is no
-- snapshot of anything else.
pub disk_is_current :
    (calls : List StoreCall) (id : String)
    → AllInTurn calls [] empty_store
    → (store_calls calls empty_store).writes ≡ []
    → get id (store_calls calls empty_store).disk
      ≡ or_creating
          (find_run id (still_creating calls []))
          (get id (store_calls calls empty_store).runs)
disk_is_current calls id t e =
    let end =
      calls-IsPersisted calls [] empty_store t
        (record { under_id = λ k r h. ground arith; on_disk = λ k. refl; apart = λ k r h. refl }) in
    sym (end.on_disk id ∙ ap (λ q. get id (drained q (store_calls calls empty_store).disk)) e)
