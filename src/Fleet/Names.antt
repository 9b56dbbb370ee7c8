-- ===== src/Fleet/Names.antt =====
-- The names of enrolled workers (`sanitizeWorkerName`, `#nameFor`, `#nameTaken` of fleet.ts).
use brevi.Base.{
  ℕ, zero, suc, ◌+◌, ◌≤◌, ◌<◌, ◌≡◌, refl, ◌∙◌, sym, inl, inr, String, true, false, ◌&&◌, Option,
  none, some, [], ◌∷◌, arith, if◌then◌else◌, Dict, str_eq, eq_iff, length, Bool-cases,
}
use brevi.Fleet.{
  WorkerRecord, FleetStore, Platform, name_taken, first_free, name_for, sanitize_worker_name,
  is_control, is_space, strip_control, trim_start, trim_end, all_space, slice_to,
  max_worker_name_chars,
}

-- The workers that do not go by a name.
without : String → Dict WorkerRecord → Dict WorkerRecord
without name [] = []
without name ((k, w) ∷ ws) =
    let rest = without name ws in if str_eq w.name name then rest else (k, w) ∷ rest

length-without-le : (name : String) (ws : Dict WorkerRecord) → length (without name ws) ≤ length ws
unfolding without
length-without-le name [] = omega arith
length-without-le name ((k, w) ∷ ws) = ground (arith, length-without-le name ws)

length-without :
    (name : String) (ws : Dict WorkerRecord)
    → name_taken name ws ≡ true
    → length (without name ws) < length ws
unfolding without
length-without name [] h = ground arith
length-without name ((k, w) ∷ ws) h =
    ground (arith, length-without name ws, length-without-le name ws)

name_taken-without :
    (other name : String) (ws : Dict WorkerRecord)
    → str_eq other name ≡ false
    → name_taken other (without name ws) ≡ name_taken other ws
unfolding without
name_taken-without other name [] h = refl
name_taken-without other name ((k, w) ∷ ws) h = ground (
  arith,
  name_taken-without other name ws h,
  eq_iff w.name name,
  eq_iff w.name other,
  eq_iff other name,
)

module _ (candidate : ℕ → String) where
  first_free-le : (fuel n : ℕ) (ws : Dict WorkerRecord) → n ≤ first_free fuel candidate n ws
  unfolding first_free
  first_free-le zero n ws = omega arith
  first_free-le (suc fuel) n ws = ground (arith, first_free-le fuel (n + 1) ws)

  module _ (distinct : (m n : ℕ) → m < n → str_eq (candidate n) (candidate m) ≡ false) where
    -- Workers by the name of an earlier candidate do not matter.
    first_free-without :
        (fuel n m : ℕ) (ws : Dict WorkerRecord)
        → m < n
        → first_free fuel candidate n (without (candidate m) ws) ≡ first_free fuel candidate n ws
    unfolding first_free
    first_free-without zero n m ws h = refl
    first_free-without (suc fuel) n m ws h =
        rw (first_free, name_taken-without (candidate n) (candidate m) ws (distinct m n h))
          (ground (arith, first_free-without fuel (n + 1) m ws (omega arith)))

    -- With more rounds than workers the search ends at a name that nobody has.
    pub first_free_is_free :
        (fuel n : ℕ) (ws : Dict WorkerRecord)
        → length ws < fuel
        → name_taken (candidate (first_free fuel candidate n ws)) ws ≡ false
    unfolding first_free
    first_free_is_free zero n ws h = absurd (omega arith)
    first_free_is_free (suc fuel) n ws h = elim (Bool-cases (name_taken (candidate n) ws)) [
      | inr e ↦ rw (e, first_free) e
      | inl e ↦
          let rest = without (candidate n) ws in
          let found = first_free fuel candidate (n + 1) ws in
          let same = first_free-without fuel (n + 1) n ws (omega arith) in
          let ih =
            first_free_is_free fuel (n + 1) rest
              (omega (arith, length-without (candidate n) ws e)) in
          let later = first_free-le fuel (n + 1) ws in
          rw (e, first_free)
            (sym (
                name_taken-without (candidate found) (candidate n) ws
                  (distinct n found (omega arith)))
              ∙ (rw same at ih))
    ]

-- The name given to a new worker is one that no enrolled worker has, if the texts built from
-- different numbers differ.
pub name_for_is_free :
    (platform : Platform) (requested : Option String) (store : FleetStore)
    → ((clean : String) (m n : ℕ)
        → m < n
        → str_eq (platform.numbered_name clean n) (platform.numbered_name clean m) ≡ false)
    → ((m n : ℕ) → m < n → str_eq (platform.worker_name n) (platform.worker_name m) ≡ false)
    → name_taken (name_for platform requested store) store.workers ≡ false
unfolding name_for
name_for_is_free platform requested store apart apart' =
    given (elim requested [ none ↦ "" | some r ↦ r ])
  where
    size : ℕ
    size = length store.workers

    given :
        (raw : String)
        → name_taken
            (if str_eq (sanitize_worker_name raw) ""
              then platform.worker_name
                  (first_free (size + 1) platform.worker_name (size + 1) store.workers)
              else if name_taken (sanitize_worker_name raw) store.workers
              then platform.numbered_name (sanitize_worker_name raw) (
                  first_free
                    (size + 1)
                    (platform.numbered_name (sanitize_worker_name raw))
                    2
                    store.workers)
              else sanitize_worker_name raw)
            store.workers
          ≡ false
    given raw =
        let clean = sanitize_worker_name raw in
        ground (
          arith,
          first_free_is_free platform.worker_name apart' (size + 1) (size + 1) store.workers
              (omega arith),
          first_free_is_free (platform.numbered_name clean) (apart clean) (size + 1) 2 store.workers
              (omega arith),
        )

abbrev pub char_count : String → ℕ
char_count String.[] = 0
char_count (String.◌∷◌ c s) = suc (char_count s)

abbrev pub AllPrintable : String → Type 0
AllPrintable String.[] = Unit
AllPrintable (String.◌∷◌ c s) = (is_control c ≡ false) × AllPrintable s

strip_control-AllPrintable : (s : String) → AllPrintable (strip_control s)
unfolding strip_control
strip_control-AllPrintable String.[] = tt
strip_control-AllPrintable (String.◌∷◌ c s) = elim (Bool-cases (is_control c)) [
  | inl e ↦ rw (e, strip_control) (strip_control-AllPrintable s)
  | inr e ↦ rw (e, strip_control) (e, strip_control-AllPrintable s)
]

trim_start-AllPrintable : (s : String) → AllPrintable s → AllPrintable (trim_start s)
unfolding trim_start
trim_start-AllPrintable String.[] h = tt
trim_start-AllPrintable (String.◌∷◌ c s) h = elim (Bool-cases (is_space c)) [
  | inl e ↦ rw (e, trim_start) (trim_start-AllPrintable s h.1)
  | inr e ↦ rw (e, trim_start) h
]

trim_end-AllPrintable : (s : String) → AllPrintable s → AllPrintable (trim_end s)
unfolding trim_end
trim_end-AllPrintable String.[] h = tt
trim_end-AllPrintable (String.◌∷◌ c s) h = elim (Bool-cases (is_space c && all_space s)) [
  | inl e ↦ rw (e, trim_end) tt
  | inr e ↦ rw (e, trim_end) (h.0, trim_end-AllPrintable s h.1)
]

slice_to-bounds :
    (n : ℕ) (s : String)
    → AllPrintable s
    → (char_count (slice_to n s) ≤ n) × AllPrintable (slice_to n s)
unfolding slice_to
slice_to-bounds zero s h = (omega arith, tt)
slice_to-bounds (suc n) String.[] h = (omega arith, tt)
slice_to-bounds (suc n) (String.◌∷◌ c s) h =
    let (short, printable) = slice_to-bounds n s h.1 in (omega arith, (h.0, printable))

-- Whatever text a worker or an operator supplies, the cleaned name has at most 60 characters and
-- no control character.
pub sanitize_worker_name_bounds :
    (raw : String)
    → (char_count (sanitize_worker_name raw) ≤ max_worker_name_chars)
      × AllPrintable (sanitize_worker_name raw)
unfolding sanitize_worker_name
sanitize_worker_name_bounds raw =
    slice_to-bounds max_worker_name_chars (trim_end (trim_start (strip_control raw))) (
      trim_end-AllPrintable (trim_start (strip_control raw))
        (trim_start-AllPrintable (strip_control raw) (strip_control-AllPrintable raw)))
