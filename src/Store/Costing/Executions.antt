-- ===== src/Store/Costing/Executions.antt =====
-- One cost entry for each execution: what the entries of a run are, described by slots without
-- indices, and that the indices of packages/orchestrator/src/state.ts keep to it.
use brevi.Base.{
  ◌∷◌, ℕ, ◌≤◌, ◌≡◌, refl, sym, ap, ◌∙◌, inl, inr, arith, String, true, false, Option, none, some,
  List, [], ◌++◌, Dict, get, put, delete, length, str_eq, eq_iff, get-put, get-delete, Bool-cases,
  Option-cases,
}
use brevi.Costs.{CostEntry}
use brevi.Store.Costing.{
  CostState, replace_at, append_entry, interim_index, upsert_at, upsert, forget, final_entry,
  sample,
}
use brevi.Store.Costing.Slots.{
  Slot, settle_slot, CostCall, after_call, cost_call, after_calls, cost_calls, entries, slot_of,
  open_slots, length-entries, entries-append, slot_of-lt, settle-replaces, settle-appends,
  slot_of-append, settle-other, settle-kept, settle-closed, open_slots-append, open-none, sampled,
  ended,
}

-- What holds of a state and the slots that describe it.
record Describes (slots : List Slot) (state : CostState) : Type 0 where
  same_costs : state.costs ≡ entries slots
  same_index : (e : String) → get e state.interim ≡ slot_of e slots
  one_open : (e : String) → open_slots e slots ≤ 1

upsert-found :
    (e : String) (entry : CostEntry) (slots : List Slot) (state : CostState) (i : ℕ)
    → Describes slots state
    → slot_of e slots ≡ some i
    → upsert (some e) entry state ≡ record state { costs = replace_at i entry state.costs }
unfolding upsert upsert_at interim_index
upsert-found e entry slots state i d h =
    rw (d.same_index e, h)
      (ground (arith, d.same_costs, length-entries slots, slot_of-lt e slots i h))

upsert-new :
    (e : String) (entry : CostEntry) (slots : List Slot) (state : CostState)
    → Describes slots state
    → slot_of e slots ≡ none
    → upsert (some e) entry state ≡ append_entry (some e) entry state
unfolding upsert upsert_at interim_index
upsert-new e entry slots state d h = rw (d.same_index e, h) refl

sample-Describes :
    (e : String) (entry : CostEntry) (slots : List Slot) (state : CostState)
    → Describes slots state
    → Describes (after_call (sampled e entry) slots) (sample e entry state)
unfolding sample append_entry
sample-Describes e entry slots state d = elim (Option-cases (slot_of e slots)) [
  | inr (i, h) ↦ rw (upsert-found e entry slots state i d h) (record {
    same_costs = ap (replace_at i entry) d.same_costs ∙ sym (settle-replaces e slot slots i h);
    same_index = λ k. elim (Bool-cases (str_eq e k)) [
      | inl q ↦ ground (arith, d.same_index k, settle-kept e slot slots i same h, eq_iff e k)
      | inr n ↦ ground (arith, d.same_index k, settle-other e k slot slots n n)
    ];
    one_open = λ k. elim (Bool-cases (str_eq e k)) [
      | inl q ↦ ground (arith, d.one_open k, settle-kept e slot slots i same h, eq_iff e k)
      | inr n ↦ ground (arith, d.one_open k, settle-other e k slot slots n n)
    ];
  })
  | inl h ↦
      rw (upsert-new e entry slots state d h, settle-appends e slot slots h)
        (record {
          same_costs =
              ap (λ xs. xs ++ entry ∷ []) d.same_costs ∙ sym (entries-append slots (slot ∷ []));
          same_index = λ k. ground (
            arith,
            get-put k e (length state.costs) state.interim,
            d.same_index k,
            slot_of-append k slots slot,
            eq_iff e k,
            length-entries slots,
            d.same_costs,
          );
          one_open = λ k. ground (
            arith,
            d.one_open k,
            open_slots-append k slots slot,
            eq_iff e k,
            open-none e slots h,
          );
        })
]
  where
    slot : Slot
    slot = record { open_for = some e; entry = entry }

    same : str_eq e e ≡ true
    same = ground (arith, eq_iff e e)

final-Describes :
    (execution : Option String) (entry : CostEntry) (slots : List Slot) (state : CostState)
    → Describes slots state
    → Describes (after_call (ended execution entry) slots) (final_entry execution entry state)
unfolding final_entry forget upsert upsert_at interim_index append_entry
final-Describes none entry slots state d = record {
  same_costs = ap (λ xs. xs ++ entry ∷ []) d.same_costs ∙ sym (entries-append slots (closed ∷ []));
  same_index = λ k. ground (arith, d.same_index k, slot_of-append k slots closed);
  one_open = λ k. ground (arith, d.one_open k, open_slots-append k slots closed);
}
  where
    closed : Slot
    closed = record { open_for = none; entry = entry }
final-Describes (some e) entry slots state d = elim (Option-cases (slot_of e slots)) [
  | inr (i, h) ↦ rw (upsert-found e entry slots state i d h) (record {
    same_costs = ap (replace_at i entry) d.same_costs ∙ sym (settle-replaces e closed slots i h);
    same_index = indices state.interim (λ k n. d.same_index k);
    one_open = counts;
  })
  | inl h ↦ rw (upsert-new e entry slots state d h) (record {
    same_costs =
        ap (λ xs. xs ++ entry ∷ []) d.same_costs
        ∙ sym (entries-append slots (closed ∷ []))
        ∙ ap entries (sym (settle-appends e closed slots h));
    same_index =
        indices (put e (length state.costs) state.interim)
          (λ k n. ground (arith, get-put k e (length state.costs) state.interim, d.same_index k));
    one_open = counts;
  })
]
  where
    closed : Slot
    closed = record { open_for = none; entry = entry }

    counts : (k : String) → open_slots k (settle_slot e closed slots) ≤ 1
    counts k = elim (Bool-cases (str_eq e k)) [
      | inl q ↦ ground (arith, settle-closed e closed slots refl (d.one_open e), eq_iff e k)
      | inr n ↦ ground (arith, d.one_open k, settle-other e k closed slots n refl)
    ]

    indices :
        (m : Dict ℕ)
        → ((k : String) → str_eq e k ≡ false → get k m ≡ slot_of k slots)
        → (k : String) → get k (delete e m) ≡ slot_of k (settle_slot e closed slots)
    indices m same k = elim (Bool-cases (str_eq e k)) [
      | inl q ↦
          ground
            (arith, get-delete k e m, settle-closed e closed slots refl (d.one_open e), eq_iff e k)
      | inr n ↦ ground (arith, get-delete k e m, same k n, settle-other e k closed slots n refl)
    ]

call-Describes :
    (c : CostCall) (slots : List Slot) (state : CostState)
    → Describes slots state
    → Describes (after_call c slots) (cost_call c state)
unfolding cost_call
call-Describes (sampled e entry) slots state d = sample-Describes e entry slots state d
call-Describes (ended execution entry) slots state d = final-Describes execution entry slots state d

calls-Describes :
    (calls : List CostCall) (slots : List Slot) (state : CostState)
    → Describes slots state
    → Describes (after_calls calls slots) (cost_calls calls state)
unfolding cost_calls
calls-Describes [] slots state d = d
calls-Describes (c ∷ calls) slots state d =
    calls-Describes calls (after_call c slots) (cost_call c state) (call-Describes c slots state d)

-- After any calls on a run's costs, interim samples and final entries of any executions in any
-- order, its entries are those of the slots: a sample or the final entry of an execution replaces
-- the entry that an earlier sample of it left, wherever that stands, and everything else is appended.
pub one_entry_per_execution :
    (calls : List CostCall)
    → (cost_calls calls (record { costs = []; interim = [] })).costs
      ≡ entries (after_calls calls [])
one_entry_per_execution calls =
    let start : Describes [] (record { costs = []; interim = [] }) = record {
      same_costs = refl;
      same_index = λ e. refl;
      one_open = λ e. omega arith;
    } in
    let end = calls-Describes calls [] (record { costs = []; interim = [] }) start in end.same_costs
