-- ===== src/Scheduler/Places.antt =====
-- Where a queued run is: in the queue or with a worker (packages/orchestrator/src/scheduler.ts). What
-- is asked of the workers for that, and the lemmas on the store.
use brevi.Base.{
  ◌∷◌, ℕ, ◌≡◌, refl, sym, ap, ◌∙◌, inl, inr, arith, String, Bool, true, false, not, ◌&&◌, ◌||◌,
  Option, none, some, List, get, contains, contains-append, str_eq, eq_iff, get-put, Option-cases,
}
use brevi.Runs.{RunStatus, Run, RunEvent}
use brevi.Store.{RunStore, update, set_status, append_event, log_after, persist, set_run}
use brevi.Scheduler.{
  DispatchPayload, was_placed, WorkerPool, Scheduler, or_store, update_quietly, set_status_quietly,
  status_is_queued, is_queued_run, join_queue,
}

-- What the scheduler relies on: a placed run is held until its lease is settled.
pub record PoolLaws {W : Type 0} (pool : WorkerPool W) : Type 0 where
  pub dispatch_holds :
      (payload : DispatchPayload) (w : W)
      → (pool.request_dispatch payload w).0 ≡ was_placed
      → pool.holds payload.run.id (pool.request_dispatch payload w).1 ≡ true
  pub dispatch_keeps :
      (payload : DispatchPayload) (w : W) (id : String)
      → pool.holds id w ≡ true
      → pool.holds id (pool.request_dispatch payload w).1 ≡ true
  pub cancel_keeps :
      (run_id : String) (w : W) (id : String)
      → pool.holds id (pool.request_cancel run_id w).1 ≡ pool.holds id w
  pub discard_keeps :
      (run_id : String) (w : W) (id : String)
      → pool.holds id (pool.discard run_id w).1 ≡ pool.holds id w
  pub settle_releases :
      (run_id : String) (w : W) (id : String)
      → pool.holds id (pool.settle run_id w) ≡ (not (str_eq run_id id) && pool.holds id w)

-- Whether the store has the run as queued.
abbrev pub is_queued_in : String → RunStore → Bool
is_queued_in id store = is_queued_run (get id store.runs)

-- Every run is under its id.
abbrev pub UnderIds : RunStore → Type 0
UnderIds store = (id : String) (run : Run) → get id store.runs ≡ some run → run.id ≡ id

abbrev pub held : {W : Type 0} → WorkerPool W → String → Option W → Bool
held pool id none = false
held pool id (some w) = pool.holds id w

-- Every queued run is in the queue given, or held by a worker.
pub record IsPlacedWith {W : Type 0} (pool : WorkerPool W) (queue : List String) (s : Scheduler W)
    : Type 0 where
  pub under_ids : UnderIds s.store
  pub has_place :
      (id : String)
      → is_queued_in id s.store ≡ true
      → (contains id queue || held pool id s.workers) ≡ true

-- An update that keeps the run's id and does not make it queued.
pub record Requeues (q : Bool) (id : String) (before after : RunStore) : Type 0 where
  pub ids : UnderIds before → UnderIds after
  pub others :
      (k : String)
      → is_queued_in k after ≡ true
      → (is_queued_in k before || (q && str_eq id k)) ≡ true

pub update-Requeues :
    (q : Bool) (id : String) (patch : Run → Run) (store next : RunStore)
    → ((run : Run) → (patch run).id ≡ run.id)
    → ((run : Run)
        → status_is_queued (patch run).status ≡ true
        → (q || status_is_queued run.status) ≡ true)
    → update id patch store ≡ some next
    → Requeues q id store next
unfolding update persist set_run
update-Requeues q id patch store next k h e = elim (Option-cases (get id store.runs)) [
  | inl n ↦ ground (arith, e, n)
  | inr (run, f) ↦
      let same : persist (patch run) (set_run id (patch run) store) ≡ next = ground (arith, e, f) in
      rw (← same) (record {
        ids = λ u j r g.
            ground
              (arith, get-put j id (patch run) store.runs, eq_iff id j, u j r, u id run f, k run);
        others = λ j g. ground (arith, get-put j id (patch run) store.runs, eq_iff id j, h run);
      })
]

pub same-Requeues : (q : Bool) (id : String) (store : RunStore) → Requeues q id store store
same-Requeues q id store = record { ids = λ u. u; others = λ j g. ground arith }

pub event-Requeues :
    (q : Bool) (id : String) (event : RunEvent) (store next : RunStore)
    → Requeues q id store next
    → Requeues q id store (append_event event next)
unfolding append_event
event-Requeues q id event store next r = record { ids = r.ids; others = r.others }

pub log_after-Requeues :
    (q : Bool) (id : String) (event : RunEvent) (o : Option RunStore) (store next : RunStore)
    → ((before : RunStore) → o ≡ some before → Requeues q id store before)
    → log_after event o ≡ some next
    → Requeues q id store next
unfolding log_after
log_after-Requeues q id event none store next h e = ground arith
log_after-Requeues q id event (some before) store next h e =
    let same : append_event event before ≡ next = ground arith in
    rw (← same) (event-Requeues q id event store before (h before refl))

pub set_status-Requeues :
    (q : Bool) (id : String) (status : RunStatus) (patch : Run → Run) (now : ℕ)
    (store next : RunStore)
    → ((run : Run) → (patch run).id ≡ run.id)
    → (status_is_queued status ≡ true → q ≡ true)
    → set_status id status patch now store ≡ some next
    → Requeues q id store next
unfolding set_status
set_status-Requeues q id status patch now store next k h e =
    log_after-Requeues q id _ _ store next
      (λ before f.
        update-Requeues q id (λ existing. record (patch existing) { status = status }) store before
          k (λ run g. ground (arith, h g)) f)
      e

pub or_store-Requeues :
    (q : Bool) (id : String) (store : RunStore) (o : Option RunStore)
    → ((next : RunStore) → o ≡ some next → Requeues q id store next)
    → Requeues q id store (or_store store o)
or_store-Requeues q id store none h = same-Requeues q id store
or_store-Requeues q id store (some next) h = h next refl

module _ {W : Type 0} (pool : WorkerPool W) where
  pub place-moves :
      (q : Bool) (id : String) (queue queue' : List String) (s s' : Scheduler W)
      → IsPlacedWith pool queue s
      → Requeues q id s.store s'.store
      → ((k : String)
          → is_queued_in k s'.store ≡ true
          → (contains k queue || held pool k s.workers || (q && str_eq id k)) ≡ true
          → (contains k queue' || held pool k s'.workers) ≡ true)
      → IsPlacedWith pool queue' s'
  place-moves q id queue queue' s s' p r h = record {
    under_ids = r.ids p.under_ids;
    has_place = λ k g. h k g (ground (arith, r.others k g, p.has_place k));
  }

pub contains-join_queue :
    (k id : String) (queue : List String)
    → contains k (join_queue id queue) ≡ (contains k queue || str_eq id k)
contains-join_queue k id queue = ground (arith, contains-append k id queue, eq_iff id k)

pub chain-Requeues :
    {id : String} {a b c : RunStore}
    → Requeues false id b c
    → Requeues false id a b
    → Requeues false id a c
chain-Requeues r t = record {
  ids = λ u. r.ids (t.ids u);
  others = λ j g. ground (arith, r.others j g, t.others j);
}

-- What makes no run queued does so for every run.
pub relabel : (k id : String) (a b : RunStore) → Requeues false k a b → Requeues false id a b
relabel k id a b r = record { ids = r.ids; others = λ j g. ground (arith, r.others j g) }

pub update_quietly-Requeues :
    (q : Bool) (id : String) (patch : Run → Run) (store : RunStore)
    → ((run : Run) → (patch run).id ≡ run.id)
    → ((run : Run)
        → status_is_queued (patch run).status ≡ true
        → (q || status_is_queued run.status) ≡ true)
    → Requeues q id store (update_quietly id patch store)
unfolding update_quietly
update_quietly-Requeues q id patch store k h =
    or_store-Requeues q id store (update id patch store)
      λ next e. update-Requeues q id patch store next k h e

pub set_status_quietly-Requeues :
    (q : Bool) (id : String) (status : RunStatus) (patch : Run → Run) (now : ℕ) (store : RunStore)
    → ((run : Run) → (patch run).id ≡ run.id)
    → (status_is_queued status ≡ true → q ≡ true)
    → Requeues q id store (set_status_quietly id status patch now store)
unfolding set_status_quietly
set_status_quietly-Requeues q id status patch now store k h =
    or_store-Requeues q id store (set_status id status patch now store)
      λ next e. set_status-Requeues q id status patch now store next k h e

-- A run whose status is set to another than queued is not queued.
pub set_status_quietly-leaves :
    (id : String) (status : RunStatus) (patch : Run → Run) (now : ℕ) (store : RunStore)
    → status_is_queued status ≡ false
    → is_queued_in id (set_status_quietly id status patch now store) ≡ false
unfolding set_status_quietly set_status update log_after append_event persist set_run
set_status_quietly-leaves id status patch now store h = elim (Option-cases (get id store.runs)) [
  | inl n ↦ rw n (ground (arith, n))
  | inr (run, e) ↦ rw e (
      ground
        (arith, h, get-put id id (record (patch run) { status = status }) store.runs, eq_iff id id))
]

pub set_status-leaves :
    (id : String) (status : RunStatus) (patch : Run → Run) (now : ℕ) (store next : RunStore)
    → status_is_queued status ≡ false
    → set_status id status patch now store ≡ some next
    → is_queued_in id next ≡ false
unfolding set_status_quietly
set_status-leaves id status patch now store next h e =
    ap (λ o. is_queued_in id (or_store store o)) (sym e)
    ∙ set_status_quietly-leaves id status patch now store h

pub set_status-unknown :
    (id : String) (status : RunStatus) (patch : Run → Run) (now : ℕ) (store : RunStore)
    → set_status id status patch now store ≡ none
    → is_queued_in id store ≡ false
unfolding set_status update log_after
set_status-unknown id status patch now store e = elim (Option-cases (get id store.runs)) [
  | inl n ↦ ap is_queued_run n
  | inr (run, f) ↦ ground (arith, e, f)
]

module _ {W : Type 0} (pool : WorkerPool W) where
  -- A run that is not queued needs no place.
  pub unqueued_place :
      (id : String) (queue : List String) (s : Scheduler W)
      → is_queued_in id s.store ≡ false
      → IsPlacedWith pool (id ∷ queue) s
      → IsPlacedWith pool queue s
  unqueued_place id queue s h p = record {
    under_ids = p.under_ids;
    has_place = λ k q. ground (arith, p.has_place k q, h, q, eq_iff id k);
  }

  pub weaken_place :
      (id : String) (queue : List String) (s : Scheduler W)
      → IsPlacedWith pool queue s
      → IsPlacedWith pool (id ∷ queue) s
  weaken_place id queue s p = record {
    under_ids = p.under_ids;
    has_place = λ k q. ground (arith, p.has_place k q);
  }
