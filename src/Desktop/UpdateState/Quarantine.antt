-- ===== src/Desktop/UpdateState/Quarantine.antt =====
-- When a version is quarantined (`markInstallStarted`, `reconcile`, `isQuarantined` of
-- update-state.ts).
use brevi.Base.{
  ℕ, ◌+◌, ◌≤◌, ◌≡◌, refl, inl, inr, String, true, false, not, ◌&&◌, ◌||◌, Option, none, some, List,
  [], ◌∷◌, arith, leb, if◌then◌else◌, str_eq, eq_iff, contains-append, Bool-cases, Option-cases,
}
use brevi.Desktop.UpdateState.{
  DesktopUpdateState, PendingInstall, max_install_attempts, mark_install_started, reconcile,
  is_quarantined,
}

-- What the updater does to its state over launches: it asks for an install, or it starts up.
pub data Launch : Type 0 where
  installs : (from to now : String) → Launch
  boots : (running_version : String) → Launch

unfoldable pub launch : DesktopUpdateState → Launch → DesktopUpdateState
launch state (installs from to now) = mark_install_started state from to now
launch state (boots v) = (reconcile state v).0

unfoldable pub launches : DesktopUpdateState → List Launch → DesktopUpdateState
launches state [] = state
launches state (l ∷ ls) = launches (launch state l) ls

-- The attempts on record for a version.
abbrev pub attempts_of : String → Option PendingInstall → ℕ
attempts_of v none = 0
attempts_of v (some p) = if str_eq p.version v then p.attempts else 0

launch-is_quarantined :
    (state : DesktopUpdateState) (l : Launch) (v : String)
    → is_quarantined state v ≡ true
    → is_quarantined (launch state l) v ≡ true
unfolding launch is_quarantined mark_install_started reconcile
launch-is_quarantined state (installs from to now) v h = h
launch-is_quarantined state (boots r) v h = elim (Option-cases state.pending) [
  | inl e ↦ rw (e, reconcile) h
  | inr (p, e) ↦ rw (e, reconcile) (ground (arith, contains-append v p.version state.quarantined))
]

-- A quarantined version stays quarantined, whatever is installed or booted afterwards.
pub quarantine_is_permanent :
    (state : DesktopUpdateState) (ls : List Launch) (v : String)
    → is_quarantined state v ≡ true
    → is_quarantined (launches state ls) v ≡ true
unfolding launches
quarantine_is_permanent state [] v h = h
quarantine_is_permanent state (l ∷ ls) v h =
    quarantine_is_permanent (launch state l) ls v (launch-is_quarantined state l v h)

-- One boot quarantines a version exactly when it was quarantined already, or it is pending, is not
-- the version that runs, and has used up its attempts.
pub reconcile-is_quarantined :
    (state : DesktopUpdateState) (running v : String)
    → is_quarantined (reconcile state running).0 v ≡ (
        is_quarantined state v
        || (leb max_install_attempts (attempts_of v state.pending) && not (str_eq v running)))
unfolding reconcile is_quarantined
reconcile-is_quarantined state running v = elim (Option-cases state.pending) [
  | inl e ↦ rw (e, reconcile) (ground arith)
  | inr (p, e) ↦
      rw (e, reconcile)
        (ground (
          arith,
          contains-append v p.version state.quarantined,
          eq_iff p.version v,
          eq_iff p.version running,
          eq_iff v running,
        ))
]

-- The pending install of a version: nothing but its attempts and the rest of the record matters.
abbrev Pending : String → ℕ → DesktopUpdateState → Type 0
Pending v n state =
    (p : PendingInstall) × (state.pending ≡ some p) × (p.version ≡ v) × (p.attempts ≡ n)

mark_install_started-Pending :
    (state : DesktopUpdateState) (from to now : String)
    → Pending to (attempts_of to state.pending + 1) (mark_install_started state from to now)
unfolding mark_install_started
mark_install_started-Pending state from to now = elim (Option-cases state.pending) [
  | inl e ↦ rw (e, mark_install_started) (_, refl, refl, omega arith)
  | inr (p, e) ↦ elim (Bool-cases (str_eq p.version to)) [
    | inl s ↦ rw (e, s, mark_install_started) (_, refl, (eq_iff p.version to).0 s, refl)
    | inr s ↦ rw (e, s, mark_install_started) (_, refl, refl, omega arith)
  ]
]

mark_install_started-quarantined :
    (state : DesktopUpdateState) (from to now : String)
    → (mark_install_started state from to now).quarantined ≡ state.quarantined
unfolding mark_install_started
mark_install_started-quarantined state from to now = refl

-- The version that runs is another: the first attempt is kept, the second quarantines.
reconcile-first :
    (state : DesktopUpdateState) (v running : String)
    → Pending v 1 state
    → str_eq v running ≡ false
    → reconcile state running ≡ (state, some v)
unfolding reconcile
reconcile-first state v running (p, e, same, n) differs =
    ground (arith, eq_iff p.version running, eq_iff v running)

attempts_of-Pending :
    (v : String) (n : ℕ) (state : DesktopUpdateState)
    → Pending v n state
    → attempts_of v state.pending ≡ n
attempts_of-Pending v n state (p, e, same, a) = rw e (ground (arith, eq_iff p.version v))

reconcile-last :
    (state : DesktopUpdateState) (v running : String) (n : ℕ)
    → Pending v n state
    → max_install_attempts ≤ n
    → str_eq v running ≡ false
    → ((reconcile state running).1 ≡ some v)
      × (is_quarantined (reconcile state running).0 v ≡ true)
      × ((reconcile state running).0.pending ≡ none)
unfolding reconcile is_quarantined
reconcile-last state v running n (p, e, same, a) le differs =
    let d : str_eq p.version running ≡ false = rw same differs in
    let m : leb max_install_attempts p.attempts ≡ true = ground arith in
    rw (e, d, m, reconcile)
      (rw same (refl, ground (arith, contains-append v v state.quarantined, eq_iff v v), refl))

-- A version that was not pending and is not quarantined, and that fails to install twice in a row
-- while another version keeps running: the first failure is reported and the version is still
-- offered, the second is reported, quarantines it and clears the pending install.
pub two_failures_quarantine :
    (state : DesktopUpdateState) (from to now later : String)
    → attempts_of to state.pending ≡ 0
    → is_quarantined state to ≡ false
    → str_eq to from ≡ false
    → let first = reconcile (mark_install_started state from to now) from in
      let second = reconcile (mark_install_started first.0 from to later) from in
      (first.1 ≡ some to)
      × (is_quarantined first.0 to ≡ false)
      × (second.1 ≡ some to)
      × (is_quarantined second.0 to ≡ true)
      × (second.0.pending ≡ none)
unfolding is_quarantined
two_failures_quarantine state from to now later fresh clear differs =
    let marked = mark_install_started state from to now in
    let once : Pending to 1 marked = rw fresh at (mark_install_started-Pending state from to now) in
    let kept = reconcile-first marked to from once differs in
    let again = mark_install_started-Pending marked from to later in
    let (reported, quarantined, cleared) =
      reconcile-last (mark_install_started marked from to later) to from _ again
        (omega (arith, attempts_of-Pending to 1 marked once)) differs in
    rw kept (
      refl,
      rw (mark_install_started-quarantined state from to now) clear,
      reported,
      quarantined,
      cleared,
    )
