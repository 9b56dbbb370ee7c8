-- ===== src/Desktop/Supervisor.antt =====
-- apps/desktop/src/main/supervisor.ts: the one orchestrator of the desktop application. The chain of
-- `#serialize` makes the operations a list. How `startOrchestrator` and `handle.stop` end is part of
-- each step; a handle is a number, and `pid` is the process's own.
pub mod Lifecycle
use brevi.Base.{ℕ, String, Bool, true, false, Option, none, some, List, [], ◌∷◌}

pub data SupervisorState : Type 0 where
  starting : SupervisorState
  running : ℕ → SupervisorState
  failed : String → SupervisorState
  stopped : SupervisorState

-- How `startOrchestrator()` settles: a handle, or the reason of its rejection.
pub data StartResult : Type 0 where
  started : ℕ → StartResult
  rejected : String → StartResult

-- `reported` are the calls of `onState`, the latest first; `stopped_handles` those of `handle.stop`.
pub record Supervisor : Type 0 where
  pub state : SupervisorState
  pub handle : Option ℕ
  pub reported : List SupervisorState
  pub stopped_handles : List ℕ

unfoldable pub new_supervisor : Supervisor
new_supervisor = record { state = stopped; handle = none; reported = []; stopped_handles = [] }

unfoldable pub set_state : SupervisorState → Supervisor → Supervisor
set_state s sv = record sv { state = s; reported = s ∷ sv.reported }

-- The `try` of `start` and `restart`.
unfoldable pub launch : ℕ → StartResult → Supervisor → Supervisor
unfolding set_state
launch pid (started handle) sv = set_state (running pid) (record sv { handle = some handle })
launch pid (rejected reason) sv = set_state (failed reason) sv

unfoldable pub start : ℕ → StartResult → Supervisor → Supervisor
unfolding set_state launch
start pid result sv = elim sv.handle [
  | some handle ↦ sv
  | none ↦ launch pid result (set_state starting sv)
]

-- `#stopHandle`: the flag says whether it returned rather than threw.
unfoldable pub stop_handle : Bool → Supervisor → Bool × Supervisor
stop_handle stops sv = elim sv.handle [
  | none ↦ (true, sv)
  | some h ↦ (stops, record sv { handle = none; stopped_handles = h ∷ sv.stopped_handles })
]

-- What follows `await this.#stopHandle()`, unless it threw.
abbrev after_stop : (Supervisor → Supervisor) → Bool × Supervisor → Supervisor
after_stop rest (true, sv) = rest sv
after_stop rest (false, sv) = sv

unfoldable pub restart : ℕ → Bool → StartResult → Supervisor → Supervisor
unfolding set_state launch stop_handle
restart pid stops result sv =
    after_stop (λ x. launch pid result (set_state starting x)) (stop_handle stops sv)

unfoldable pub stop : Bool → Supervisor → Supervisor
unfolding set_state stop_handle
stop stops sv = after_stop (set_state stopped) (stop_handle stops sv)

-- `get ownsProcess()`.
unfoldable pub owns_process : Supervisor → Bool
owns_process sv = elim sv.handle [ some h ↦ true | none ↦ false ]
