-- ===== src/Desktop/Backoff.antt =====
-- apps/desktop/src/main/backoff.ts: delays before a restart of the orchestrator.
pub mod Bounds
use brevi.Base.{ℕ, zero, suc, ◌-◌, Option, none, some, List, [], ◌∷◌, length, min, max}

abbrev pub restart_delays_ms : List ℕ
restart_delays_ms = 1000 ∷ 2000 ∷ 4000 ∷ 8000 ∷ 15000 ∷ 30000 ∷ []

-- `list[i]`: `none` is undefined.
abbrev pub get_elem? {ℓ} : {A : Type ℓ} → List A → ℕ → Option A
get_elem? [] i = none
get_elem? (x ∷ xs) zero = some x
get_elem? (x ∷ xs) (suc i) = get_elem? xs i

abbrev pub or_else {ℓ} : {A : Type ℓ} → Option A → A → A
or_else none d = d
or_else (some a) d = a

unfoldable pub restart_delay : ℕ → ℕ
restart_delay attempt =
    let index = min (max attempt 1 - 1) (length restart_delays_ms - 1) in
    let last_delay = or_else (get_elem? restart_delays_ms (length restart_delays_ms - 1)) 0 in
    or_else (get_elem? restart_delays_ms index) last_delay
