-- ===== src/Scheduler/Tickets/History.antt =====
-- Histories in which a ticket has at most one unfinished run
-- (packages/orchestrator/src/scheduler.ts).
use brevi.Base.{◌≡◌, true, false, none}
use brevi.Runs.{is_terminal, Run}
use brevi.Scheduler.{Scheduler}
use brevi.Scheduler.Places.{PoolLaws}
use brevi.Scheduler.Tickets.Kept.{Unique}
use brevi.Scheduler.Places.{PoolLaws}
use brevi.Scheduler.Steps.{SchedulerStep, follow_up_answered, reported, completed_with}

-- What a step must keep to. A report revives no finished run and changes no ticket, a completion
-- finishes its run, and a follow-up is not started: its check for other runs of the ticket is made
-- before GitHub is asked.
abbrev pub IsSerial : SchedulerStep → Type 0
IsSerial (reported id patch k n) =
    ((run : Run) → (patch run).ticket ≡ run.ticket)
    × ((run : Run) → is_terminal (patch run).status ≡ false → is_terminal run.status ≡ false)
IsSerial (completed_with now id status n) = is_terminal status ≡ true
IsSerial (follow_up_answered now id answer) = answer ≡ none
IsSerial _ = Unit
