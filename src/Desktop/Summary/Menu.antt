-- ===== src/Desktop/Summary/Menu.antt =====
-- Which runs the tray's menu shows, and in what order (`menuRuns` of summary.ts).
use brevi.Base.{
  ℕ, zero, suc, ◌+◌, ◌≤◌, ◌≡◌, refl, sym, ap, ◌∙◌, Bool, true, not, ◌&&◌, List, [], ◌∷◌, ◌++◌,
  arith, length, keep, min, if◌then◌else◌, Bool-cases, inl, inr, length-append,
}
use brevi.Desktop.Summary.{
  MenuRun, is_active, after_active, after_finished, insert_run, sort_runs, take, menu_runs,
}

-- How many of the runs pass a test.
abbrev pub count : (MenuRun → Bool) → List MenuRun → ℕ
count p [] = 0
count p (r ∷ rs) = (if p r then 1 else 0) + count p rs

abbrev pub active_run : MenuRun → Bool
active_run r = is_active r.status

abbrev pub finished_run : MenuRun → Bool
finished_run r = not (is_active r.status)

count-append :
    (p : MenuRun → Bool) (xs ys : List MenuRun) → count p (xs ++ ys) ≡ count p xs + count p ys
count-append p [] ys = omega arith
count-append p (x ∷ xs) ys = omega (arith, count-append p xs ys)

count-insert_run :
    (p : MenuRun → Bool) (after : MenuRun → MenuRun → Bool) (r : MenuRun) (xs : List MenuRun)
    → count p (insert_run after r xs) ≡ (if p r then 1 else 0) + count p xs
unfolding insert_run
count-insert_run p after r [] = omega arith
count-insert_run p after r (x ∷ xs) = ground (arith, count-insert_run p after r xs)

count-sort_runs :
    (p : MenuRun → Bool) (after : MenuRun → MenuRun → Bool) (xs : List MenuRun)
    → count p (sort_runs after xs) ≡ count p xs
unfolding sort_runs
count-sort_runs p after [] = refl
count-sort_runs p after (x ∷ xs) =
    omega (arith, count-insert_run p after x (sort_runs after xs), count-sort_runs p after xs)

length-count : (xs : List MenuRun) → count (λ r. true) xs ≡ length xs
length-count [] = refl
length-count (x ∷ xs) = omega (arith, length-count xs)

count-keep :
    (p q : MenuRun → Bool) (xs : List MenuRun) → count p (keep q xs) ≡ count (λ r. q r && p r) xs
count-keep p q [] = refl
count-keep p q (x ∷ xs) = ground (arith, count-keep p q xs)

count-le : (p : MenuRun → Bool) (xs : List MenuRun) → count p xs ≤ length xs
count-le p [] = omega arith
count-le p (x ∷ xs) = ground (arith, count-le p xs)

-- A prefix of a list whose first part all passes a test and whose second part never does.
count-take-split :
    (p : MenuRun → Bool) (limit : ℕ) (xs ys : List MenuRun)
    → count p xs ≡ length xs
    → count p ys ≡ 0
    → count p (take limit (xs ++ ys)) ≡ min limit (length xs)
count-take-split p zero xs ys hx hy = omega arith
count-take-split p (suc n) [] [] hx hy = omega arith
count-take-split p (suc n) [] (y ∷ ys) hx hy = ground (arith, count-take-split p n [] ys refl)
count-take-split p (suc n) (x ∷ xs) ys hx hy = elim (Bool-cases (p x)) [
  | inl e ↦
      let rest : count p xs ≡ length xs = ground arith in
      ground (arith, count-take-split p n xs ys rest hy)
  | inr e ↦ ground (arith, count-le p xs)
]

length-take {ℓ} : {A : Type ℓ} (n : ℕ) (xs : List A) → length (take n xs) ≡ min n (length xs)
length-take zero xs = omega arith
length-take (suc n) [] = omega arith
length-take (suc n) (x ∷ xs) = omega (arith, length-take n xs)

none-active : (xs : List MenuRun) → count active_run (keep finished_run xs) ≡ 0
none-active [] = refl
none-active (x ∷ xs) = ground (arith, none-active xs)

all-active : (xs : List MenuRun) → count active_run (keep active_run xs) ≡ count active_run xs
all-active [] = refl
all-active (x ∷ xs) = ground (arith, all-active xs)

length-active : (xs : List MenuRun) → length (keep active_run xs) ≡ count active_run xs
length-active [] = refl
length-active (x ∷ xs) = ground (arith, length-active xs)

length-parts :
    (xs : List MenuRun) → length (keep active_run xs) + length (keep finished_run xs) ≡ length xs
length-parts [] = refl
length-parts (x ∷ xs) = ground (arith, length-parts xs)

length-sort_runs :
    (after : MenuRun → MenuRun → Bool) (xs : List MenuRun) → length (sort_runs after xs) ≡ length xs
length-sort_runs after xs =
    sym (length-count (sort_runs after xs)) ∙ count-sort_runs (λ r. true) after xs ∙ length-count xs

-- The menu shows as many active runs as there are and fit: a finished run never takes the place of
-- an active one.
pub menu_prefers_active :
    (runs : List MenuRun) (limit : ℕ)
    → count active_run (menu_runs runs limit) ≡ min limit (count active_run runs)
unfolding menu_runs
menu_prefers_active runs limit =
    let active = sort_runs after_active (keep active_run runs) in
    let finished = sort_runs after_finished (keep finished_run runs) in
    let size = length-sort_runs after_active (keep active_run runs) in
    let inside = count-sort_runs active_run after_active (keep active_run runs) in
    let outside = count-sort_runs active_run after_finished (keep finished_run runs) in
    let all = all-active runs in
    let measure = length-active runs in
    let same : count active_run active ≡ length active = inside ∙ all ∙ sym measure ∙ sym size in
    count-take-split active_run limit active finished same (outside ∙ none-active runs)
    ∙ ap (min limit) (size ∙ measure)

-- The menu is as long as the limit and the number of runs allow.
pub length-menu_runs :
    (runs : List MenuRun) (limit : ℕ) → length (menu_runs runs limit) ≡ min limit (length runs)
unfolding menu_runs
length-menu_runs runs limit =
    let active = sort_runs after_active (keep active_run runs) in
    let finished = sort_runs after_finished (keep finished_run runs) in
    length-take limit (active ++ finished)
    ∙ ap (min limit) (
        omega (
          arith,
          length-append active finished,
          length-sort_runs after_active (keep active_run runs),
          length-sort_runs after_finished (keep finished_run runs),
          length-parts runs,
        ))
