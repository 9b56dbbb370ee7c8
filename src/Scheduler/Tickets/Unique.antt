-- ===== src/Scheduler/Tickets/Unique.antt =====
-- At most one unfinished run of a ticket (packages/orchestrator/src/scheduler.ts).
use brevi.Base.{
  ◌∷◌, ◌≡◌, ap, inl, inr, arith, String, Bool, true, false, some, [], Dict, get, str_eq, eq_iff,
  get-put, Bool-cases, Option-cases,
}
use brevi.Runs.{Run}
use brevi.Store.{
  RunStore, run_values, append_event, persist, set_run, create_run, create_start, create_end,
}
use brevi.Scheduler.{any_run, active_or_queued, clashes}
use brevi.Scheduler.Places.{UnderIds}
use brevi.Scheduler.Tickets.{unfinished_of, unfinished_in, ticket_in, Revives}

-- Two unfinished runs of a ticket are the same run.
pub record IsUnique (store : RunStore) : Type 0 where
  pub one :
      (t j k : String)
      → unfinished_in t j store ≡ true
      → unfinished_in t k store ≡ true
      → str_eq j k ≡ true

pub quiet-IsUnique : (id : String) (a b : RunStore) → Revives false id a b → IsUnique a → IsUnique b
quiet-IsUnique id a b r u = record {
  one = λ t j k h g.
      u.one t j k (ground (arith, r.unfinished t j h)) (ground (arith, r.unfinished t k g));
}

-- A run that becomes unfinished where no other run of its ticket is.
pub revive-IsUnique :
    (id : String) (a b : RunStore)
    → Revives true id a b
    → ((t k : String) → ticket_in t id a ≡ true → unfinished_in t k a ≡ true → str_eq id k ≡ true)
    → IsUnique a
    → IsUnique b
revive-IsUnique id a b r alone u = record {
  one = λ t j k h g. ground (
    arith,
    r.unfinished t j h,
    r.unfinished t k g,
    u.one t j k,
    alone t k,
    alone t j,
    eq_iff id j,
    eq_iff id k,
    eq_iff j k,
  );
}

any_run-get :
    (p : Run → Bool) (k : String) (run : Run) (runs : Dict Run)
    → any_run p (run_values runs) ≡ false
    → get k runs ≡ some run
    → p run ≡ false
any_run-get p k run [] h e = ground (arith, e)
any_run-get p k run ((j, r) ∷ runs) h e = elim (Bool-cases (str_eq j k)) [
  | inl q ↦ let same : r ≡ run = ground (arith, e, q) in ground (arith, h, ap p same)
  | inr n ↦ any_run-get p k run runs (ground (arith, h)) (ground (arith, e, n))
]

pub no_clash-alone :
    (id : String) (run : Run) (store : RunStore)
    → UnderIds store
    → get id store.runs ≡ some run
    → clashes run store ≡ false
    → (t k : String) → ticket_in t id store ≡ true
    → unfinished_in t k store ≡ true
    → str_eq id k ≡ true
unfolding clashes
no_clash-alone id run store under e h t k g f = elim (Option-cases (get k store.runs)) [
  | inl n ↦ ground (arith, f, n)
  | inr (other, q) ↦ ground (
    arith,
    f,
    g,
    q,
    e,
    under k other q,
    under id run e,
    eq_iff id k,
    eq_iff run.ticket.id t,
    eq_iff other.id run.id,
    any_run-get _ k other store.runs h q,
  )
]

pub inactive-none :
    (ticket k : String) (store : RunStore)
    → active_or_queued ticket store ≡ false
    → unfinished_in ticket k store ≡ false
unfolding active_or_queued
inactive-none ticket k store h = elim (Option-cases (get k store.runs)) [
  | inl n ↦ ground (arith, n)
  | inr (run, e) ↦ ground (arith, e, any_run-get (unfinished_of ticket) k run store.runs h e)
]

pub created-IsUnique :
    (run : Run) (store : RunStore)
    → ((k : String) → unfinished_in run.ticket.id k store ≡ false)
    → IsUnique store
    → IsUnique (create_run run store)
unfolding create_run create_start create_end persist set_run append_event
created-IsUnique run store none_yet u = record {
  one = λ t j k h g. ground (
    arith,
    get-put j run.id run store.runs,
    get-put k run.id run store.runs,
    none_yet j,
    none_yet k,
    u.one t j k,
    eq_iff run.id j,
    eq_iff run.id k,
    eq_iff j k,
    eq_iff run.ticket.id t,
    h,
    g,
  );
}
