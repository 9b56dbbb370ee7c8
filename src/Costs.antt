-- ===== src/Costs.antt =====
-- packages/shared/src/types.ts: the sums over the cost entries of a run (`modelContributions`,
-- `summarizeCosts`). An amount of money is a number of an exact unit; the source adds floating-point
-- dollars.
pub mod Figures
pub mod Attribution
pub mod Sums
mod Tests
use brevi.Base.{
  ◌∷◌, ℕ, zero, suc, ◌+◌, String, Bool, true, false, not, ◌&&◌, ◌||◌, Option, none, some, List, [],
  ◌++◌, if◌then◌else◌, Dict, get, put, str_eq, ltb, sort_by, map,
}

pub record CostModelUsage : Type 0 where
  pub model : String
  pub input_tokens : ℕ
  pub output_tokens : ℕ
  pub cache_read_tokens : Option ℕ
  pub cache_write_tokens : Option ℕ
  pub cost_usd : Option ℕ

-- An entry; a breakdown that is absent and one that is empty are treated alike.
pub record CostEntry : Type 0 where
  pub model : Option String
  pub input_tokens : ℕ
  pub output_tokens : ℕ
  pub cache_read_tokens : Option ℕ
  pub cache_write_tokens : Option ℕ
  pub cost_usd : Option ℕ
  pub estimated : Bool
  pub breakdown : List CostModelUsage

-- `CostModelTotal` and `ModelContribution`, which have the same fields.
pub record CostModelTotal : Type 0 where
  pub model : String
  pub input_tokens : ℕ
  pub output_tokens : ℕ
  pub cache_read_tokens : ℕ
  pub cache_write_tokens : ℕ
  pub cost_usd : Option ℕ
  pub estimated : Bool

pub record CostTotals : Type 0 where
  pub cost_usd : Option ℕ
  pub input_tokens : ℕ
  pub output_tokens : ℕ
  pub cache_read_tokens : ℕ
  pub cache_write_tokens : ℕ
  pub estimated : Bool
  pub by_model : List CostModelTotal

abbrev pub or_zero : Option ℕ → ℕ
or_zero none = 0
or_zero (some n) = n

-- `if (cost !== undefined) total = (total ?? 0) + cost`.
abbrev pub add_cost : Option ℕ → Option ℕ → Option ℕ
add_cost total none = total
add_cost total (some cost) = some (or_zero total + cost)

abbrev pub is_some {ℓ} : {A : Type ℓ} → Option A → Bool
is_some none = false
is_some (some a) = true

abbrev pub row_contribution : Bool → CostModelUsage → CostModelTotal
row_contribution estimated row = record {
  model = row.model;
  input_tokens = row.input_tokens;
  output_tokens = row.output_tokens;
  cache_read_tokens = or_zero row.cache_read_tokens;
  cache_write_tokens = or_zero row.cache_write_tokens;
  cost_usd = row.cost_usd;
  estimated = estimated;
}

abbrev pub own_contribution : CostEntry → CostModelTotal
own_contribution entry = record {
  model = elim entry.model [ none ↦ "unknown" | some m ↦ m ];
  input_tokens = entry.input_tokens;
  output_tokens = entry.output_tokens;
  cache_read_tokens = or_zero entry.cache_read_tokens;
  cache_write_tokens = or_zero entry.cache_write_tokens;
  cost_usd = entry.cost_usd;
  estimated = entry.estimated;
}

abbrev pub is_model : Option String → CostModelTotal → Bool
is_model none row = false
is_model (some m) row = str_eq row.model m

abbrev pub has_cost : List CostModelTotal → Bool
has_cost [] = false
has_cost (row ∷ rows) = is_some row.cost_usd || has_cost rows

-- `find` by the model, and the cost set on the row found.
unfoldable pub charge_model : Option String → ℕ → List CostModelTotal → Option (List CostModelTotal)
charge_model model cost [] = none
charge_model model cost (row ∷ rows) =
    let rest = charge_model model cost rows in
    if is_model model row
    then some (record row { cost_usd = some cost } ∷ rows)
    else elim rest [ none ↦ none | some charged ↦ some (row ∷ charged) ]

abbrev pub tokens : CostModelTotal → ℕ
tokens row = row.input_tokens + row.output_tokens

-- The most tokens of the rows: `reduce` keeps the first row that reaches it.
unfoldable pub most_tokens : List CostModelTotal → ℕ
most_tokens [] = 0
most_tokens (row ∷ rows) =
    let rest = most_tokens rows in if ltb (tokens row) rest then rest else tokens row

-- The cost set on the first row with the most tokens.
unfoldable pub charge_largest : ℕ → List CostModelTotal → List CostModelTotal
unfolding most_tokens
charge_largest cost [] = []
charge_largest cost (row ∷ rows) =
    let rest = charge_largest cost rows in
    if ltb (tokens row) (most_tokens rows)
    then row ∷ rest
    else record row { cost_usd = some cost } ∷ rows

-- The session's price, attributed once if no row has a price.
unfoldable pub attribute : Option String → ℕ → List CostModelTotal → List CostModelTotal
unfolding charge_model charge_largest
attribute model cost rows = if has_cost rows then rows else elim (charge_model model cost rows) [
  | some charged ↦ charged
  | none ↦ charge_largest cost rows
]

unfoldable pub contributions_of : CostEntry → List CostModelUsage → List CostModelTotal
unfolding attribute
contributions_of entry [] = own_contribution entry ∷ []
contributions_of entry (row ∷ rows) =
    let contributions = map (row_contribution entry.estimated) (row ∷ rows) in
    elim entry.cost_usd [
      | none ↦ contributions
      | some cost ↦ attribute entry.model cost contributions
    ]

unfoldable pub model_contributions : CostEntry → List CostModelTotal
unfolding contributions_of
model_contributions entry = contributions_of entry entry.breakdown

-- A contribution added to the row of its model.
abbrev pub merged : CostModelTotal → CostModelTotal → CostModelTotal
merged existing c = record existing {
  input_tokens = existing.input_tokens + c.input_tokens;
  output_tokens = existing.output_tokens + c.output_tokens;
  cache_read_tokens = existing.cache_read_tokens + c.cache_read_tokens;
  cache_write_tokens = existing.cache_write_tokens + c.cache_write_tokens;
  cost_usd = add_cost existing.cost_usd c.cost_usd;
  estimated = existing.estimated || c.estimated;
}

-- `byModel` takes a contribution in.
unfoldable pub merge_contribution : CostModelTotal → Dict CostModelTotal → Dict CostModelTotal
merge_contribution c by_model = elim (get c.model by_model) [
  | none ↦ put c.model c by_model
  | some existing ↦ put c.model (merged existing c) by_model
]

unfoldable pub merge_all : List CostModelTotal → Dict CostModelTotal → Dict CostModelTotal
unfolding merge_contribution
merge_all [] by_model = by_model
merge_all (c ∷ cs) by_model = merge_all cs (merge_contribution c by_model)

abbrev pub empty_totals : CostTotals
empty_totals = record {
  cost_usd = none;
  input_tokens = 0;
  output_tokens = 0;
  cache_read_tokens = 0;
  cache_write_tokens = 0;
  estimated = false;
  by_model = [];
}

unfoldable pub add_entry : CostEntry → CostTotals → CostTotals
add_entry entry totals = record totals {
  cost_usd = add_cost totals.cost_usd entry.cost_usd;
  input_tokens = totals.input_tokens + entry.input_tokens;
  output_tokens = totals.output_tokens + entry.output_tokens;
  cache_read_tokens = totals.cache_read_tokens + or_zero entry.cache_read_tokens;
  cache_write_tokens = totals.cache_write_tokens + or_zero entry.cache_write_tokens;
  estimated = totals.estimated || entry.estimated;
}

-- The loop of `summarizeCosts`.
unfoldable pub summarize_from :
    List CostEntry → CostTotals → Dict CostModelTotal → CostTotals × Dict CostModelTotal
unfolding add_entry merge_all model_contributions
summarize_from [] totals by_model = (totals, by_model)
summarize_from (entry ∷ entries) totals by_model =
    summarize_from entries (add_entry entry totals) (merge_all (model_contributions entry) by_model)

-- Whether the comparison of the models is above 0.
unfoldable pub costs_less : CostModelTotal → CostModelTotal → Bool
costs_less a b = elim a.cost_usd [
  | some x ↦ elim b.cost_usd [ some y ↦ ltb x y | none ↦ false ]
  | none ↦ elim b.cost_usd [ some y ↦ true | none ↦ ltb (tokens a) (tokens b) ]
]

abbrev pub models : Dict CostModelTotal → List CostModelTotal
models [] = []
models ((k, row) ∷ m) = row ∷ models m

unfoldable pub summarize_costs : List CostEntry → CostTotals
unfolding summarize_from costs_less
summarize_costs entries =
    let (totals, by_model) = summarize_from entries empty_totals [] in
    record totals { by_model = sort_by costs_less (models by_model) }
