-- ===== src/Watermark/Drain.antt =====
-- The loop that pulls the watermark up (`#markApplied`, `#skipLeaseGap` of workers.ts).
use brevi.Base.{
  ℕ, zero, suc, ◌≤◌, ◌<◌, ◌≡◌, refl, inl, inr, true, false, ◌||◌, List, [], ◌∷◌, arith, leb, elem,
  remove, length, length-remove, elem-remove, Bool-cases,
}
use brevi.Watermark.{advance, pull_up}

-- The fuel suffices: when the loop stops, the next number is not waiting.
advance-stops :
    (fuel applied : ℕ) (ahead : List ℕ)
    → length ahead ≤ fuel
    → elem (suc (advance fuel applied ahead).0) (advance fuel applied ahead).1 ≡ false
unfolding advance
advance-stops zero applied [] h = refl
advance-stops zero applied (x ∷ xs) h = absurd (omega arith)
advance-stops (suc fuel) applied ahead h = elim (Bool-cases (elem (suc applied) ahead)) [
  | inl e ↦
      rw (e, advance)
        (advance-stops fuel (suc applied) (remove (suc applied) ahead)
          (omega (arith, length-remove (suc applied) ahead e)))
  | inr e ↦ rw (e, advance) e
]

pub pull_up-stops :
    (applied : ℕ) (ahead : List ℕ)
    → elem (suc (pull_up applied ahead).0) (pull_up applied ahead).1 ≡ false
unfolding pull_up
pull_up-stops applied ahead = advance-stops (length ahead) applied ahead (omega arith)

advance-le : (fuel applied : ℕ) (ahead : List ℕ) → applied ≤ (advance fuel applied ahead).0
unfolding advance
advance-le zero applied ahead = omega arith
advance-le (suc fuel) applied ahead =
    ground (arith, advance-le fuel (suc applied) (remove (suc applied) ahead))

-- Only what waited is stepped over.
advance_from :
    (fuel applied : ℕ) (ahead : List ℕ) (s : ℕ)
    → applied < s
    → s ≤ (advance fuel applied ahead).0
    → elem s ahead ≡ true
unfolding advance
advance_from zero applied ahead s l h = absurd (omega arith)
advance_from (suc fuel) applied ahead s l h = elim (Bool-cases (elem (suc applied) ahead)) [
  | inl e ↦
      let h' : s ≤ (advance fuel (suc applied) (remove (suc applied) ahead)).0 =
        rw (e, advance) at h in
      ground (
        arith,
        advance_from fuel (suc applied) (remove (suc applied) ahead) s,
        elem-remove s (suc applied) ahead,
      )
  | inr e ↦ let h' : s ≤ applied = rw (e, advance) at h in absurd (omega arith)
]

-- What is above the new watermark still waits, and nothing else does.
advance-elem :
    (fuel applied : ℕ) (ahead : List ℕ) (s : ℕ)
    → (advance fuel applied ahead).0 < s
    → elem s (advance fuel applied ahead).1 ≡ elem s ahead
unfolding advance
advance-elem zero applied ahead s h = refl
advance-elem (suc fuel) applied ahead s h = elim (Bool-cases (elem (suc applied) ahead)) [
  | inl e ↦
      let h' : (advance fuel (suc applied) (remove (suc applied) ahead)).0 < s =
        rw (e, advance) at h in
      rw (e, advance)
        (ground (
          arith,
          advance-elem fuel (suc applied) (remove (suc applied) ahead) s h',
          advance-le fuel (suc applied) (remove (suc applied) ahead),
          elem-remove s (suc applied) ahead,
        ))
  | inr e ↦ rw (e, advance) refl
]

-- A number at or below the new watermark, or still waiting, is one that was so before.
pub pull_up-accounted :
    (applied : ℕ) (ahead : List ℕ) (s : ℕ)
    → (leb s (pull_up applied ahead).0 || elem s (pull_up applied ahead).1)
      ≡ (leb s applied || elem s ahead)
unfolding pull_up
pull_up-accounted applied ahead s = grind (
  arith,
  advance-le (length ahead) applied ahead,
  advance_from (length ahead) applied ahead s,
  advance-elem (length ahead) applied ahead s,
)

pub pull_up-le : (applied : ℕ) (ahead : List ℕ) → applied ≤ (pull_up applied ahead).0
unfolding pull_up
pull_up-le applied ahead = advance-le (length ahead) applied ahead
