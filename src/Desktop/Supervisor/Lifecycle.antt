-- ===== src/Desktop/Supervisor/Lifecycle.antt =====
-- The supervisor's state against the handle it owns, over any sequence of its operations
-- (supervisor.ts).
use brevi.Base.{ℕ, ◌≡◌, refl, arith, Bool, true, false, ◌&&◌, List, [], ◌∷◌, inl, inr, Option-cases}
use brevi.Desktop.Supervisor.{
  SupervisorState, starting, running, failed, stopped, StartResult, started, rejected, Supervisor,
  new_supervisor, set_state, launch, start, stop_handle, restart, stop, owns_process,
}

-- An operation of the serialized chain, with how its calls end.
pub data Operation : Type 0 where
  starts : StartResult → Operation
  restarts : Bool → StartResult → Operation
  stops : Bool → Operation

unfoldable pub operate : ℕ → Operation → Supervisor → Supervisor
unfolding start restart stop
operate pid (starts result) sv = start pid result sv
operate pid (restarts stop_ok result) sv = restart pid stop_ok result sv
operate pid (stops stop_ok) sv = stop stop_ok sv

unfoldable pub operate_all : ℕ → List Operation → Supervisor → Supervisor
unfolding operate
operate_all pid [] sv = sv
operate_all pid (o ∷ os) sv = operate_all pid os (operate pid o sv)

-- No stop of the sequence throws.
abbrev pub clean : List Operation → Bool
clean [] = true
clean (starts result ∷ os) = clean os
clean (restarts ok result ∷ os) = ok && clean os
clean (stops ok ∷ os) = ok && clean os

abbrev pub is_running : SupervisorState → Bool
is_running (running pid) = true
is_running starting = false
is_running (failed reason) = false
is_running stopped = false

abbrev pub is_starting : SupervisorState → Bool
is_starting starting = true
is_starting (running pid) = false
is_starting (failed reason) = false
is_starting stopped = false

operate-owns :
    (pid : ℕ) (o : Operation) (sv : Supervisor)
    → clean (o ∷ []) ≡ true
    → is_running sv.state ≡ owns_process sv
    → is_running (operate pid o sv).state ≡ owns_process (operate pid o sv)
unfolding operate start restart stop launch set_state stop_handle owns_process
operate-owns pid (starts (started h)) sv c e = elim (Option-cases sv.handle) [
  | inl f ↦ rw f refl
  | inr (g, f) ↦ ground (arith, f)
]
operate-owns pid (starts (rejected r)) sv c e = elim (Option-cases sv.handle) [
  | inl f ↦ rw f refl
  | inr (g, f) ↦ ground (arith, f)
]
operate-owns pid (restarts ok (started h)) sv c e = elim (Option-cases sv.handle) [
  | inl f ↦ rw f refl
  | inr (g, f) ↦ let yes : ok ≡ true = ground arith in rw (f, yes) refl
]
operate-owns pid (restarts ok (rejected r)) sv c e = elim (Option-cases sv.handle) [
  | inl f ↦ rw f refl
  | inr (g, f) ↦ let yes : ok ≡ true = ground arith in rw (f, yes) refl
]
operate-owns pid (stops ok) sv c e = elim (Option-cases sv.handle) [
  | inl f ↦ rw f refl
  | inr (g, f) ↦ let yes : ok ≡ true = ground arith in rw (f, yes) refl
]

-- The first operation of a clean sequence is clean, and so is the rest.
clean-split : (o : Operation) (os : List Operation) → clean (o ∷ os) ≡ (clean (o ∷ []) && clean os)
clean-split (starts result) os = refl
clean-split (restarts ok result) os = ground arith
clean-split (stops ok) os = ground arith

operate_all-owns :
    (pid : ℕ) (os : List Operation) (sv : Supervisor)
    → clean os ≡ true
    → is_running sv.state ≡ owns_process sv
    → is_running (operate_all pid os sv).state ≡ owns_process (operate_all pid os sv)
unfolding operate_all
operate_all-owns pid [] sv c e = e
operate_all-owns pid (o ∷ os) sv c e =
    let both = clean-split o os in
    operate_all-owns pid os (operate pid o sv) (ground arith)
      (operate-owns pid o sv (ground arith) e)

-- After any operations none of whose stops throws, the state is `running` exactly when the
-- supervisor owns an orchestrator.
pub running_iff_owned :
    (pid : ℕ) (os : List Operation)
    → clean os ≡ true
    → is_running (operate_all pid os new_supervisor).state
      ≡ owns_process (operate_all pid os new_supervisor)
unfolding new_supervisor owns_process
running_iff_owned pid os c = operate_all-owns pid os new_supervisor c refl
