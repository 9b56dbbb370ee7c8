-- ===== src/Costs/Attribution.antt =====
-- The contributions of an entry add up to its figures (`modelContributions` of types.ts).
use brevi.Base.{
  ◌∷◌, ℕ, ◌≡◌, refl, ◌∙◌, inl, inr, arith, String, Bool, true, false, not, ◌&&◌, ◌||◌, ◌==◌, Option,
  none, some, List, [], map, Bool-cases, Option-cases,
}
use brevi.Costs.{
  CostModelUsage, CostEntry, CostModelTotal, row_contribution, own_contribution, is_model, has_cost,
  charge_model, most_tokens, charge_largest, attribute, contributions_of, model_contributions,
}
use brevi.Costs.Figures.{
  input, output, cache_read, cache_write, cost, Figure, of_row, of_entry, sum,
}

abbrev pub is_cost : Figure → Bool
is_cost cost = true
is_cost _ = false

pub no_cost-sum : (rows : List CostModelTotal) → has_cost rows ≡ false → sum cost rows ≡ 0
no_cost-sum [] h = refl
no_cost-sum (row ∷ rows) h = ground (arith, no_cost-sum rows)

pub charge_model-sum :
    (model : Option String) (c : ℕ) (rows charged : List CostModelTotal)
    → has_cost rows ≡ false
    → charge_model model c rows ≡ some charged
    → sum cost charged ≡ c
unfolding charge_model
charge_model-sum model c [] charged h e = ground arith
charge_model-sum model c (row ∷ rows) charged h e = elim (Bool-cases (is_model model row)) [
  | inl t ↦ ground (arith, no_cost-sum rows)
  | inr t ↦ elim (Option-cases (charge_model model c rows)) [
    | inl f ↦ ground (arith, f)
    | inr (r, f) ↦ ground (arith, f, charge_model-sum model c rows r (ground arith) f)
  ]
]

pub charge_largest-sum :
    (c : ℕ) (row : CostModelTotal) (rows : List CostModelTotal)
    → has_cost (row ∷ rows) ≡ false
    → sum cost (charge_largest c (row ∷ rows)) ≡ c
unfolding charge_largest most_tokens
charge_largest-sum c row [] h = ground arith
charge_largest-sum c row (x ∷ xs) h =
    ground (arith, charge_largest-sum c x xs, no_cost-sum (x ∷ xs))

pub of_row-charged :
    (f : Figure) (c : ℕ) (row : CostModelTotal)
    → is_cost f ≡ false
    → of_row f (record row { cost_usd = some c }) ≡ of_row f row
of_row-charged input c row n = refl
of_row-charged output c row n = refl
of_row-charged cache_read c row n = refl
of_row-charged cache_write c row n = refl
of_row-charged cost c row n = ground arith

pub charge_model-other :
    (f : Figure) (model : Option String) (c : ℕ) (rows charged : List CostModelTotal)
    → is_cost f ≡ false
    → charge_model model c rows ≡ some charged
    → sum f charged ≡ sum f rows
unfolding charge_model
charge_model-other f model c [] charged n e = ground arith
charge_model-other f model c (row ∷ rows) charged n e = elim (Bool-cases (is_model model row)) [
  | inl t ↦ ground (arith, of_row-charged f c row n)
  | inr t ↦ elim (Option-cases (charge_model model c rows)) [
    | inl g ↦ ground (arith, g)
    | inr (r, g) ↦ ground (arith, g, charge_model-other f model c rows r n g)
  ]
]

pub charge_largest-other :
    (f : Figure) (c : ℕ) (rows : List CostModelTotal)
    → is_cost f ≡ false
    → sum f (charge_largest c rows) ≡ sum f rows
unfolding charge_largest
charge_largest-other f c [] n = refl
charge_largest-other f c (row ∷ rows) n =
    ground (arith, of_row-charged f c row n, charge_largest-other f c rows n)

-- Whether the figures of an entry are the sums over its breakdown, as its producers make them; a
-- breakdown may carry no prices at all.
abbrev pub rolled_up_rows : Figure → CostEntry → List CostModelUsage → Bool
rolled_up_rows f entry [] = true
rolled_up_rows f entry (row ∷ rows) =
    let contributions = map (row_contribution entry.estimated) (row ∷ rows) in
    sum f contributions == of_entry f entry || (is_cost f && not (has_cost contributions))

abbrev pub rolled_up : Figure → CostEntry → Bool
rolled_up f entry = rolled_up_rows f entry entry.breakdown

pub own_contribution-sum :
    (f : Figure) (entry : CostEntry) → of_row f (own_contribution entry) ≡ of_entry f entry
own_contribution-sum input entry = refl
own_contribution-sum output entry = refl
own_contribution-sum cache_read entry = refl
own_contribution-sum cache_write entry = refl
own_contribution-sum cost entry = refl

pub attribute-cost :
    (model : Option String) (c : ℕ) (r : CostModelTotal) (rs : List CostModelTotal)
    → has_cost (r ∷ rs) ≡ false
    → sum cost (attribute model c (r ∷ rs)) ≡ c
unfolding attribute
attribute-cost model c r rs h = elim (Option-cases (charge_model model c (r ∷ rs))) [
  | inl f ↦ rw (h, f, attribute) (charge_largest-sum c r rs h)
  | inr (charged, f) ↦ rw (h, f, attribute) (charge_model-sum model c (r ∷ rs) charged h f)
]

pub attribute-other :
    (f : Figure) (model : Option String) (c : ℕ) (rows : List CostModelTotal)
    → (is_cost f && not (has_cost rows)) ≡ false
    → sum f (attribute model c rows) ≡ sum f rows
unfolding attribute
attribute-other f model c rows n = elim (Bool-cases (has_cost rows)) [
  | inl h ↦ rw (h, attribute) refl
  | inr h ↦
      let other : is_cost f ≡ false = ground arith in
      elim (Option-cases (charge_model model c rows)) [
        | inl g ↦ rw (h, g, attribute) (charge_largest-other f c rows other)
        | inr (charged, g) ↦
            rw (h, g, attribute) (charge_model-other f model c rows charged other g)
      ]
]

abbrev pub priced : CostEntry → List CostModelTotal → List CostModelTotal
priced entry rows = elim entry.cost_usd [ none ↦ rows | some c ↦ attribute entry.model c rows ]

pub unpriced-sum :
    (f : Figure) (entry : CostEntry) (r : CostModelTotal) (rs : List CostModelTotal)
    → is_cost f ≡ true
    → has_cost (r ∷ rs) ≡ false
    → sum f (priced entry (r ∷ rs)) ≡ of_entry f entry
unpriced-sum cost entry r rs is h = elim (Option-cases entry.cost_usd) [
  | inl e ↦ rw e (no_cost-sum (r ∷ rs) h)
  | inr (c, e) ↦ rw e (attribute-cost entry.model c r rs h)
]
unpriced-sum input entry r rs is h = ground arith
unpriced-sum output entry r rs is h = ground arith
unpriced-sum cache_read entry r rs is h = ground arith
unpriced-sum cache_write entry r rs is h = ground arith

pub attribute-any :
    (f : Figure) (entry : CostEntry) (rows : List CostModelTotal)
    → (is_cost f && not (has_cost rows)) ≡ false
    → sum f (priced entry rows) ≡ sum f rows
attribute-any f entry rows u = elim (Option-cases entry.cost_usd) [
  | inl e ↦ rw e refl
  | inr (c, e) ↦ rw e (attribute-other f entry.model c rows u)
]

pub priced-sum :
    (f : Figure) (entry : CostEntry) (r : CostModelTotal) (rs : List CostModelTotal)
    → (sum f (r ∷ rs) == of_entry f entry || (is_cost f && not (has_cost (r ∷ rs)))) ≡ true
    → sum f (priced entry (r ∷ rs)) ≡ of_entry f entry
priced-sum f entry r rs up = elim (Bool-cases (is_cost f && not (has_cost (r ∷ rs)))) [
  | inl u ↦ unpriced-sum f entry r rs (ground arith) (ground arith)
  | inr u ↦
      let same : sum f (r ∷ rs) ≡ of_entry f entry = ground arith in
      attribute-any f entry (r ∷ rs) u ∙ same
]

pub contributions_of-sum :
    (f : Figure) (entry : CostEntry) (rows : List CostModelUsage)
    → rolled_up_rows f entry rows ≡ true
    → sum f (contributions_of entry rows) ≡ of_entry f entry
unfolding contributions_of
contributions_of-sum f entry [] up = omega (arith, own_contribution-sum f entry)
contributions_of-sum f entry (row ∷ rows) up =
    priced-sum f entry (row_contribution entry.estimated row)
      (map (row_contribution entry.estimated) rows) up

pub model_contributions-sum :
    (f : Figure) (entry : CostEntry)
    → rolled_up f entry ≡ true
    → sum f (model_contributions entry) ≡ of_entry f entry
unfolding model_contributions
model_contributions-sum f entry up = contributions_of-sum f entry entry.breakdown up
