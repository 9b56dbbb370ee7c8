-- ===== src/Desktop/Backoff/Bounds.antt =====
-- The delays grow, and stay between the first and the last (`restartDelay` of backoff.ts).
use brevi.Base.{ℕ, zero, suc, ◌-◌, ◌≡◌, refl, arith, min, max, true, ◌&&◌, leb}
use brevi.Desktop.Backoff.{restart_delay}

restart_delay-late : (n : ℕ) → restart_delay (suc (suc (suc (suc (suc (suc n)))))) ≡ 30000
unfolding restart_delay
restart_delay-late n =
    let e : min (max (suc (suc (suc (suc (suc (suc n)))))) 1 - 1) 5 ≡ 5 = omega arith in rw e refl

-- Each delay is at most the next, the first is one second and none is over thirty.
pub restart_delay_bounds :
    (attempt : ℕ)
    → (leb 1000 (restart_delay attempt)
        && leb (restart_delay attempt) (restart_delay (suc attempt))
        && leb (restart_delay attempt) 30000)
      ≡ true
unfolding restart_delay
restart_delay_bounds zero = refl
restart_delay_bounds (suc zero) = refl
restart_delay_bounds (suc (suc zero)) = refl
restart_delay_bounds (suc (suc (suc zero))) = refl
restart_delay_bounds (suc (suc (suc (suc zero)))) = refl
restart_delay_bounds (suc (suc (suc (suc (suc zero))))) = refl
restart_delay_bounds (suc (suc (suc (suc (suc (suc n)))))) =
    ground (arith, restart_delay-late n, restart_delay-late (suc n))
