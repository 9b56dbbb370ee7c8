-- ===== src/Costs/Figures.antt =====
-- The figures of cost entries, and what merging does to their sums (`summarizeCosts` of types.ts).
use brevi.Base.{
  ◌∷◌, ℕ, ◌+◌, ◌≡◌, refl, inl, inr, arith, String, Bool, none, some, List, [], Dict, get, put,
  insert_by, sort_by, Option-cases,
}
use brevi.Costs.{
  CostEntry, CostModelTotal, CostTotals, or_zero, merged, merge_contribution, merge_all, models,
}

-- What is summed.
pub data Figure : Type 0 where
  input output cache_read cache_write cost : Figure

abbrev pub of_row : Figure → CostModelTotal → ℕ
of_row input row = row.input_tokens
of_row output row = row.output_tokens
of_row cache_read row = row.cache_read_tokens
of_row cache_write row = row.cache_write_tokens
of_row cost row = or_zero row.cost_usd

abbrev pub of_entry : Figure → CostEntry → ℕ
of_entry input e = e.input_tokens
of_entry output e = e.output_tokens
of_entry cache_read e = or_zero e.cache_read_tokens
of_entry cache_write e = or_zero e.cache_write_tokens
of_entry cost e = or_zero e.cost_usd

abbrev pub of_totals : Figure → CostTotals → ℕ
of_totals input t = t.input_tokens
of_totals output t = t.output_tokens
of_totals cache_read t = t.cache_read_tokens
of_totals cache_write t = t.cache_write_tokens
of_totals cost t = or_zero t.cost_usd

abbrev pub sum : Figure → List CostModelTotal → ℕ
sum f [] = 0
sum f (row ∷ rows) = of_row f row + sum f rows

pub sum-insert_by :
    (f : Figure) (after : CostModelTotal → CostModelTotal → Bool) (row : CostModelTotal)
    (rows : List CostModelTotal)
    → sum f (insert_by after row rows) ≡ of_row f row + sum f rows
unfolding insert_by
sum-insert_by f after row [] = refl
sum-insert_by f after row (x ∷ xs) = ground (arith, sum-insert_by f after row xs)

pub sum-sort_by :
    (f : Figure) (after : CostModelTotal → CostModelTotal → Bool) (rows : List CostModelTotal)
    → sum f (sort_by after rows) ≡ sum f rows
unfolding sort_by
sum-sort_by f after [] = refl
sum-sort_by f after (row ∷ rows) =
    omega (arith, sum-insert_by f after row (sort_by after rows), sum-sort_by f after rows)

-- Putting a row that has grown by some amount.
pub sum-put :
    (f : Figure) (k : String) (row : CostModelTotal) (m : Dict CostModelTotal)
    → sum f (models (put k row m)) + elim (get k m) [ none ↦ 0 | some old ↦ of_row f old ]
      ≡ sum f (models m) + of_row f row
sum-put f k row [] = omega arith
sum-put f k row ((j, x) ∷ m) = ground (arith, sum-put f k row m)

pub of_row-merged :
    (f : Figure) (old c : CostModelTotal) → of_row f (merged old c) ≡ of_row f old + of_row f c
of_row-merged input old c = refl
of_row-merged output old c = refl
of_row-merged cache_read old c = refl
of_row-merged cache_write old c = refl
of_row-merged cost old c = ground arith

pub merge_contribution-sum :
    (f : Figure) (c : CostModelTotal) (m : Dict CostModelTotal)
    → sum f (models (merge_contribution c m)) ≡ sum f (models m) + of_row f c
unfolding merge_contribution
merge_contribution-sum f c m = elim (Option-cases (get c.model m)) [
  | inl e ↦ rw (e, merge_contribution) (ground (arith, e, sum-put f c.model c m))
  | inr (old, e) ↦
      rw (e, merge_contribution)
        (ground (arith, e, sum-put f c.model (merged old c) m, of_row-merged f old c))
]

pub merge_all-sum :
    (f : Figure) (cs : List CostModelTotal) (m : Dict CostModelTotal)
    → sum f (models (merge_all cs m)) ≡ sum f (models m) + sum f cs
unfolding merge_all
merge_all-sum f [] m = omega arith
merge_all-sum f (c ∷ cs) m =
    omega (arith, merge_all-sum f cs (merge_contribution c m), merge_contribution-sum f c m)
