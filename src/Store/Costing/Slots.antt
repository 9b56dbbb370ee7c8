-- ===== src/Store/Costing/Slots.antt =====
-- The entries of a run as slots: an entry, and the execution that may still replace it
-- (packages/orchestrator/src/state.ts).
use brevi.Base.{
  ◌∷◌, ℕ, suc, ◌+◌, ◌≤◌, ◌<◌, ◌≡◌, refl, ap, inl, inr, arith, String, Bool, true, false, Option,
  none, some, List, [], ◌++◌, if◌then◌else◌, length, str_eq, eq_iff, Option-cases,
}
use brevi.Costs.{CostEntry}
use brevi.Store.Costing.{CostState, replace_at, final_entry, sample}

-- An entry, with the execution that may still replace it.
pub record Slot : Type 0 where
  pub open_for : Option String
  pub entry : CostEntry

abbrev pub is_execution : String → Option String → Bool
is_execution e none = false
is_execution e (some execution) = str_eq execution e

abbrev pub is_open : String → Slot → Bool
is_open e slot = is_execution e slot.open_for

-- The first open slot of the execution takes the entry; without one there is a new slot.
abbrev pub settle_slot : String → Slot → List Slot → List Slot
settle_slot e slot [] = slot ∷ []
settle_slot e slot (s ∷ ss) =
    let rest = settle_slot e slot ss in if is_open e s then slot ∷ ss else s ∷ rest

pub data CostCall : Type 0 where
  sampled : String → CostEntry → CostCall
  ended : Option String → CostEntry → CostCall

abbrev pub after_call : CostCall → List Slot → List Slot
after_call (sampled e entry) slots =
    settle_slot e (record { open_for = some e; entry = entry }) slots
after_call (ended none entry) slots = slots ++ record { open_for = none; entry = entry } ∷ []
after_call (ended (some e) entry) slots =
    settle_slot e (record { open_for = none; entry = entry }) slots

unfoldable pub cost_call : CostCall → CostState → CostState
unfolding sample final_entry
cost_call (sampled e entry) state = sample e entry state
cost_call (ended execution entry) state = final_entry execution entry state

abbrev pub after_calls : List CostCall → List Slot → List Slot
after_calls [] slots = slots
after_calls (c ∷ cs) slots = after_calls cs (after_call c slots)

unfoldable pub cost_calls : List CostCall → CostState → CostState
unfolding cost_call
cost_calls [] state = state
cost_calls (c ∷ cs) state = cost_calls cs (cost_call c state)

abbrev pub entries : List Slot → List CostEntry
entries [] = []
entries (s ∷ ss) = s.entry ∷ entries ss

abbrev pub one_more : Option ℕ → Option ℕ
one_more none = none
one_more (some i) = some (suc i)

-- Where the first open slot of the execution is.
abbrev pub slot_of : String → List Slot → Option ℕ
slot_of e [] = none
slot_of e (s ∷ ss) = let rest = slot_of e ss in if is_open e s then some 0 else one_more rest

abbrev pub open_slots : String → List Slot → ℕ
open_slots e [] = 0
open_slots e (s ∷ ss) = let rest = open_slots e ss in if is_open e s then suc rest else rest

pub length-entries : (slots : List Slot) → length (entries slots) ≡ length slots
length-entries [] = refl
length-entries (s ∷ ss) = ap suc (length-entries ss)

pub entries-append : (ss ts : List Slot) → entries (ss ++ ts) ≡ entries ss ++ entries ts
entries-append [] ts = refl
entries-append (s ∷ ss) ts = ap (λ xs. s.entry ∷ xs) (entries-append ss ts)

pub slot_of-lt :
    (e : String) (slots : List Slot) (i : ℕ) → slot_of e slots ≡ some i → i < length slots
slot_of-lt e [] i h = ground arith
slot_of-lt e (s ∷ ss) i h = elim (Option-cases (slot_of e ss)) [
  | inl n ↦ ground arith
  | inr (j, f) ↦ ground (arith, slot_of-lt e ss j f)
]

pub settle-replaces :
    (e : String) (slot : Slot) (slots : List Slot) (i : ℕ)
    → slot_of e slots ≡ some i
    → entries (settle_slot e slot slots) ≡ replace_at i slot.entry (entries slots)
unfolding replace_at
settle-replaces e slot [] i h = ground arith
settle-replaces e slot (s ∷ ss) i h = elim (Option-cases (slot_of e ss)) [
  | inl n ↦ ground arith
  | inr (j, f) ↦ ground (arith, settle-replaces e slot ss j f)
]

pub settle-appends :
    (e : String) (slot : Slot) (slots : List Slot)
    → slot_of e slots ≡ none
    → settle_slot e slot slots ≡ slots ++ slot ∷ []
settle-appends e slot [] h = refl
settle-appends e slot (s ∷ ss) h = elim (Option-cases (slot_of e ss)) [
  | inl n ↦ ground (arith, settle-appends e slot ss n)
  | inr (j, f) ↦ ground arith
]

pub slot_of-append :
    (e : String) (slots : List Slot) (slot : Slot)
    → slot_of e (slots ++ slot ∷ []) ≡ (elim (slot_of e slots) [
      | some i ↦ some i
      | none ↦ if is_open e slot then some (length slots) else none
    ])
slot_of-append e [] slot = ground arith
slot_of-append e (s ∷ ss) slot = elim (Option-cases (slot_of e ss)) [
  | inl n ↦ ground (arith, slot_of-append e ss slot)
  | inr (j, f) ↦ ground (arith, slot_of-append e ss slot)
]

pub none-open : (e : String) (slots : List Slot) → open_slots e slots ≡ 0 → slot_of e slots ≡ none
none-open e [] h = refl
none-open e (s ∷ ss) h = ground (arith, none-open e ss)

pub one_execution :
    (e d : String) (o : Option String)
    → is_execution e o ≡ true
    → str_eq e d ≡ false
    → is_execution d o ≡ false
one_execution e d none h g = refl
one_execution e d (some k) h g = ground (arith, eq_iff k e, eq_iff k d, eq_iff e d)

-- Only the slots open for one of the two executions change.
pub settle-other :
    (e d : String) (slot : Slot) (slots : List Slot)
    → str_eq e d ≡ false
    → is_open d slot ≡ false
    → (slot_of d (settle_slot e slot slots) ≡ slot_of d slots)
      × (open_slots d (settle_slot e slot slots) ≡ open_slots d slots)
settle-other e d slot [] h g = ground arith
settle-other e d slot (s ∷ ss) h g =
    ground (arith, settle-other e d slot ss h g, one_execution e d s.open_for)

pub settle-kept :
    (e : String) (slot : Slot) (slots : List Slot) (i : ℕ)
    → is_open e slot ≡ true
    → slot_of e slots ≡ some i
    → (slot_of e (settle_slot e slot slots) ≡ some i)
      × (open_slots e (settle_slot e slot slots) ≡ open_slots e slots)
settle-kept e slot [] i g h = ground arith
settle-kept e slot (s ∷ ss) i g h = elim (Option-cases (slot_of e ss)) [
  | inl n ↦ ground arith
  | inr (j, f) ↦ ground (arith, settle-kept e slot ss j g f)
]

pub settle-closed :
    (e : String) (slot : Slot) (slots : List Slot)
    → is_open e slot ≡ false
    → open_slots e slots ≤ 1
    → (slot_of e (settle_slot e slot slots) ≡ none) × (open_slots e (settle_slot e slot slots) ≡ 0)
settle-closed e slot [] g h = ground arith
settle-closed e slot (s ∷ ss) g h = ground (arith, settle-closed e slot ss g, none-open e ss)

pub open_slots-append :
    (e : String) (slots : List Slot) (slot : Slot)
    → open_slots e (slots ++ slot ∷ []) ≡ open_slots e slots + (if is_open e slot then 1 else 0)
open_slots-append e [] slot = ground arith
open_slots-append e (s ∷ ss) slot = ground (arith, open_slots-append e ss slot)

pub open-none : (e : String) (slots : List Slot) → slot_of e slots ≡ none → open_slots e slots ≡ 0
open-none e [] h = refl
open-none e (s ∷ ss) h = elim (Option-cases (slot_of e ss)) [
  | inl n ↦ ground (arith, open-none e ss n)
  | inr (j, f) ↦ ground arith
]
