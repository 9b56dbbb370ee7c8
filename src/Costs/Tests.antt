-- ===== src/Costs/Tests.antt =====
-- Runs of the sums over cost entries.
use brevi.Base.{◌∷◌, ◌≡◌, refl, false, none, some, []}
use brevi.Costs.{CostModelUsage, CostEntry, summarize_costs}
use brevi.Costs.Figures.{input, of_totals, sum}
use brevi.Costs.Sums.{by_model_adds_up}

abbrev small : CostModelUsage
small = record {
  model = "small";
  input_tokens = 6;
  output_tokens = 3;
  cache_read_tokens = none;
  cache_write_tokens = none;
  cost_usd = none;
}

abbrev large : CostModelUsage
large = record {
  model = "large";
  input_tokens = 40;
  output_tokens = 2;
  cache_read_tokens = some 5;
  cache_write_tokens = none;
  cost_usd = none;
}

-- A session that has a price, whose models have none.
abbrev session : CostEntry
session = record {
  model = none;
  input_tokens = 46;
  output_tokens = 5;
  cache_read_tokens = some 5;
  cache_write_tokens = none;
  cost_usd = some 700;
  estimated = false;
  breakdown = small ∷ large ∷ [];
}

by_model_adds_up_example :
    sum input (summarize_costs (session ∷ session ∷ [])).by_model
    ≡ of_totals input (summarize_costs (session ∷ session ∷ []))
by_model_adds_up_example = by_model_adds_up input (session ∷ session ∷ []) refl refl
