-- ===== src/Costs/Sums.antt =====
-- The rows by model add up to the totals (`summarizeCosts` of types.ts).
use brevi.Base.{
  ◌∷◌, ◌+◌, ◌≡◌, refl, sym, ◌∙◌, arith, Bool, true, false, ◌&&◌, List, [], Dict, sort_by,
}
use brevi.Costs.{
  CostEntry, CostModelTotal, CostTotals, model_contributions, merge_all, empty_totals, add_entry,
  summarize_from, costs_less, models, summarize_costs,
}
use brevi.Costs.Figures.{
  input, output, cache_read, cache_write, cost, Figure, of_entry, of_totals, sum, sum-sort_by,
  merge_all-sum,
}
use brevi.Costs.Attribution.{rolled_up, model_contributions-sum}

abbrev pub all_rolled_up : Figure → List CostEntry → Bool
all_rolled_up f [] = true
all_rolled_up f (entry ∷ entries) = rolled_up f entry && all_rolled_up f entries

-- The figures that are counts; the price is the other one.
abbrev pub counts_tokens : Figure → Bool
counts_tokens cost = false
counts_tokens _ = true

add_entry-sum :
    (f : Figure) (entry : CostEntry) (totals : CostTotals)
    → of_totals f (add_entry entry totals) ≡ of_totals f totals + of_entry f entry
unfolding add_entry
add_entry-sum input entry totals = refl
add_entry-sum output entry totals = refl
add_entry-sum cache_read entry totals = refl
add_entry-sum cache_write entry totals = refl
add_entry-sum cost entry totals = ground arith

summarize_from-sum :
    (f : Figure) (entries : List CostEntry) (totals : CostTotals) (m : Dict CostModelTotal)
    → all_rolled_up f entries ≡ true
    → sum f (models m) ≡ of_totals f totals
    → sum f (models (summarize_from entries totals m).1)
      ≡ of_totals f (summarize_from entries totals m).0
unfolding summarize_from
summarize_from-sum f [] totals m up e = e
summarize_from-sum f (entry ∷ entries) totals m up e =
    summarize_from-sum f entries (add_entry entry totals) (merge_all (model_contributions entry) m)
      (ground arith)
      (omega (
        arith,
        merge_all-sum f (model_contributions entry) m,
        model_contributions-sum f entry (ground arith),
        add_entry-sum f entry totals,
        e,
      ))

of_totals-by_model :
    (f : Figure) (totals : CostTotals) (rows : List CostModelTotal)
    → of_totals f (record totals { by_model = rows }) ≡ of_totals f totals
of_totals-by_model input totals rows = refl
of_totals-by_model output totals rows = refl
of_totals-by_model cache_read totals rows = refl
of_totals-by_model cache_write totals rows = refl
of_totals-by_model cost totals rows = refl

-- Summed over the rows by model, each of the four token figures is the total over the entries, whenever
-- every breakdown adds up to the figures of its entry.
pub by_model_adds_up :
    (f : Figure) (entries : List CostEntry)
    → counts_tokens f ≡ true
    → all_rolled_up f entries ≡ true
    → sum f (summarize_costs entries).by_model ≡ of_totals f (summarize_costs entries)
unfolding summarize_costs
by_model_adds_up f entries tokens up =
    let end = summarize_from entries empty_totals [] in
    sum-sort_by f costs_less (models end.1)
    ∙ summarize_from-sum f entries empty_totals [] up (starts_equal f)
    ∙ sym (of_totals-by_model f end.0 (sort_by costs_less (models end.1)))
  where
    starts_equal : (f : Figure) → 0 ≡ of_totals f empty_totals
    starts_equal input = refl
    starts_equal output = refl
    starts_equal cache_read = refl
    starts_equal cache_write = refl
    starts_equal cost = refl
