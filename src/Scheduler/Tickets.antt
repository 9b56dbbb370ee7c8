-- ===== src/Scheduler/Tickets.antt =====
-- The unfinished runs of a ticket (packages/orchestrator/src/scheduler.ts): which calls of the store
-- can make a run unfinished.
pub mod Dispatched
pub mod Unique
pub mod Kept
pub mod Callbacks
pub mod History
use brevi.Base.{
  ◌∷◌, ℕ, ◌≡◌, refl, sym, ap, ◌∙◌, inl, inr, arith, String, Bool, true, false, not, ◌&&◌, ◌||◌,
  Option, none, some, List, [], if◌then◌else◌, if_found, if_found_ind, if_ind, Dict, get, put,
  contains, str_eq, eq_iff, get-put, Bool-cases, Option-cases,
}
use brevi.Runs.{RunStatus, failed, is_terminal, Run, RunEvent, log_event}
use brevi.Store.{RunStore, update, set_status, append_event, log_after, persist, set_run}
use brevi.Scheduler.{or_store, update_quietly, set_status_quietly, status_is_queued}

abbrev pub unfinished_of : String → Run → Bool
unfinished_of ticket run = str_eq run.ticket.id ticket && not (is_terminal run.status)

-- Whether the run with this id is an unfinished run of the ticket, and whether it is one of it.
abbrev pub unfinished_in : String → String → RunStore → Bool
unfinished_in ticket id store = if_found false (get id store.runs) (unfinished_of ticket)

abbrev pub ticket_in : String → String → RunStore → Bool
ticket_in ticket id store = if_found false (get id store.runs) (λ run. str_eq run.ticket.id ticket)

-- No run changes its ticket, and none but the one named becomes unfinished.
pub record Revives (q : Bool) (id : String) (before after : RunStore) : Type 0 where
  pub tickets : (t k : String) → ticket_in t k after ≡ true → ticket_in t k before ≡ true
  pub unfinished :
      (t k : String)
      → unfinished_in t k after ≡ true
      → (unfinished_in t k before || (q && (str_eq id k && ticket_in t k before))) ≡ true

pub same-Revives : (q : Bool) (id : String) (store : RunStore) → Revives q id store store
same-Revives q id store = record { tickets = λ t k h. h; unfinished = λ t k h. ground arith }

pub chain-Revives :
    {q : Bool} {id : String} {a b c : RunStore}
    → Revives q id b c
    → Revives q id a b
    → Revives q id a c
chain-Revives r s = record {
  tickets = λ t k h. s.tickets t k (r.tickets t k h);
  unfinished = λ t k h. ground (arith, r.unfinished t k h, s.unfinished t k, s.tickets t k);
}

pub quiet-Revives :
    (q : Bool) (i id : String) (a b : RunStore) → Revives false i a b → Revives q id a b
quiet-Revives q i id a b r = record {
  tickets = r.tickets;
  unfinished = λ t j h. ground (arith, r.unfinished t j h);
}

pub event-Revives :
    (q : Bool) (id : String) (event : RunEvent) (store : RunStore)
    → Revives q id store (append_event event store)
unfolding append_event
event-Revives q id event store = record { tickets = λ t k h. h; unfinished = λ t k h. ground arith }

-- A patch that keeps the ticket, and finishes the run or leaves it as finished as it was.
pub update-Revives :
    (q : Bool) (id : String) (patch : Run → Run) (store next : RunStore)
    → ((run : Run) → (patch run).ticket ≡ run.ticket)
    → ((run : Run)
        → get id store.runs ≡ some run
        → is_terminal (patch run).status ≡ false
        → (q || not (is_terminal run.status)) ≡ true)
    → update id patch store ≡ some next
    → Revives q id store next
unfolding update persist set_run
update-Revives q id patch store next k h e = elim (Option-cases (get id store.runs)) [
  | inl n ↦ ground (arith, e, n)
  | inr (run, f) ↦
      let same : persist (patch run) (set_run id (patch run) store) ≡ next = ground (arith, e, f) in
      let same_ticket : (patch run).ticket.id ≡ run.ticket.id = ap (λ t. t.id) (k run) in
      rw (← same) (record {
        tickets = λ t j g.
            ground (arith, get-put j id (patch run) store.runs, eq_iff id j, f, same_ticket, g);
        unfinished = λ t j g.
            ground
              (arith, get-put j id (patch run) store.runs, eq_iff id j, f, same_ticket, g, h run f);
      })
]

pub log_after-Revives :
    (q : Bool) (id : String) (event : RunEvent) (o : Option RunStore) (store next : RunStore)
    → ((before : RunStore) → o ≡ some before → Revives q id store before)
    → log_after event o ≡ some next
    → Revives q id store next
unfolding log_after
log_after-Revives q id event none store next h e = ground arith
log_after-Revives q id event (some before) store next h e =
    let same : append_event event before ≡ next = ground arith in
    rw (← same) (chain-Revives (event-Revives q id event before) (h before refl))

pub set_status-Revives :
    (q : Bool) (id : String) (status : RunStatus) (patch : Run → Run) (now : ℕ)
    (store next : RunStore)
    → ((run : Run) → (patch run).ticket ≡ run.ticket)
    → (is_terminal status ≡ false → q ≡ true)
    → set_status id status patch now store ≡ some next
    → Revives q id store next
unfolding set_status
set_status-Revives q id status patch now store next k h e =
    log_after-Revives q id _ _ store next
      (λ before f.
        update-Revives q id (λ existing. record (patch existing) { status = status }) store before k
          (λ run g t. ground (arith, h t)) f)
      e

pub update_quietly-Revives :
    (id : String) (patch : Run → Run) (store : RunStore)
    → ((run : Run) → (patch run).ticket ≡ run.ticket)
    → ((run : Run)
        → get id store.runs ≡ some run
        → is_terminal (patch run).status ≡ false
        → is_terminal run.status ≡ false)
    → Revives false id store (update_quietly id patch store)
unfolding update_quietly
update_quietly-Revives id patch store k h = quietly (update id patch store) refl
  where
    quietly :
        (o : Option RunStore)
        → update id patch store ≡ o
        → Revives false id store (or_store store o)
    quietly none e = same-Revives false id store
    quietly (some next) e =
        update-Revives false id patch store next k (λ run f t. ground (arith, h run f t)) e

pub set_status_quietly-Revives :
    (id : String) (status : RunStatus) (patch : Run → Run) (now : ℕ) (store : RunStore)
    → ((run : Run) → (patch run).ticket ≡ run.ticket)
    → is_terminal status ≡ true
    → Revives false id store (set_status_quietly id status patch now store)
unfolding set_status_quietly
set_status_quietly-Revives id status patch now store k h =
    quietly (set_status id status patch now store) refl
  where
    quietly :
        (o : Option RunStore)
        → set_status id status patch now store ≡ o
        → Revives false id store (or_store store o)
    quietly none e = same-Revives false id store
    quietly (some next) e =
        set_status-Revives false id status patch now store next k (λ t. ground (arith, h, t)) e
