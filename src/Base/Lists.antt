-- ===== src/Base/Lists.antt =====
-- Lists measured by native numbers, predicates over lists, and sets of numbers: a JavaScript
-- `Set<number>` as a list without repetition, its order left open.
use Prim.Native.Nat.{ℕ, suc, ◌+◌, ◌≤◌, ◌<◌}
use mathlib.Core.Path.{◌≡◌, refl}
use mathlib.Core.Bool.{Bool, true, false, not, ◌&&◌, ◌||◌}
use mathlib.Core.List.{List, [], ◌∷◌, ◌++◌}
use mathlib.Core.Option.{Option, none, some}
use native.Mathlib.Omega.{arith}
use brevi.Base.Tests.{◌==◌, if◌then◌else◌}

module _ {ℓ} {A : Type ℓ} where
  abbrev pub length : List A → ℕ
  length [] = 0
  length (x ∷ xs) = suc (length xs)

  pub length-append : (xs ys : List A) → length (xs ++ ys) ≡ length xs + length ys
  length-append [] ys = omega arith
  length-append (x ∷ xs) ys = omega (arith, length-append xs ys)

  -- Array.prototype.filter with a Boolean test.
  abbrev pub keep : (A → Bool) → List A → List A
  keep p [] = []
  keep p (x ∷ xs) = let rest = keep p xs in if p x then x ∷ rest else rest

  pub length-keep : (p : A → Bool) (xs : List A) → length (keep p xs) ≤ length xs
  length-keep p [] = omega arith
  length-keep p (x ∷ xs) = ground (arith, length-keep p xs)

  abbrev pub All {κ} : (A → Type κ) → List A → Type κ
  All P [] = Unit
  All P (x ∷ xs) = P x × All P xs

  pub All-append {κ} : (P : A → Type κ) (xs ys : List A) → All P xs → All P ys → All P (xs ++ ys)
  All-append P [] ys hx hy = hy
  All-append P (x ∷ xs) ys hx hy = (hx.0, All-append P xs ys hx.1 hy)

  pub All-keep {κ} : (P : A → Type κ) (p : A → Bool) (xs : List A) → All P xs → All P (keep p xs)
  All-keep P p [] h = tt
  All-keep P p (x ∷ xs) h = ground (arith, All-keep P p xs h.1)

-- Set.has, Set.add and Set.delete.
abbrev pub elem : ℕ → List ℕ → Bool
elem n [] = false
elem n (x ∷ xs) = x == n || elem n xs

abbrev pub remove : ℕ → List ℕ → List ℕ
remove n [] = []
remove n (x ∷ xs) = let rest = remove n xs in if x == n then rest else x ∷ rest

abbrev pub add_elem : ℕ → List ℕ → List ℕ
add_elem n xs = if elem n xs then xs else n ∷ xs

pub elem-remove : (m n : ℕ) (xs : List ℕ) → elem m (remove n xs) ≡ (not (n == m) && elem m xs)
elem-remove m n [] = ground arith
elem-remove m n (x ∷ xs) = ground (arith, elem-remove m n xs)

pub elem-add_elem : (m n : ℕ) (xs : List ℕ) → elem m (add_elem n xs) ≡ (n == m || elem m xs)
elem-add_elem m n xs = ground arith

pub length-remove-le : (n : ℕ) (xs : List ℕ) → length (remove n xs) ≤ length xs
length-remove-le n [] = omega arith
length-remove-le n (x ∷ xs) = ground (arith, length-remove-le n xs)

pub length-remove : (n : ℕ) (xs : List ℕ) → elem n xs ≡ true → length (remove n xs) < length xs
length-remove n [] h = ground arith
length-remove n (x ∷ xs) h = ground (arith, length-remove n xs, length-remove-le n xs)

pub elem-keep : (p : ℕ → Bool) (m : ℕ) (xs : List ℕ) → elem m (keep p xs) ≡ (p m && elem m xs)
elem-keep p m [] = ground arith
elem-keep p m (x ∷ xs) = ground (arith, elem-keep p m xs)

-- Array.prototype.sort, which is stable: insertion from the right, before what is not smaller.
-- `after a b` is a comparison above 0.
module _ {ℓ} {A : Type ℓ} where
  unfoldable pub insert_by : (A → A → Bool) → A → List A → List A
  insert_by after r [] = r ∷ []
  insert_by after r (x ∷ xs) = if after r x then x ∷ insert_by after r xs else r ∷ x ∷ xs

  unfoldable pub sort_by : (A → A → Bool) → List A → List A
  unfolding insert_by
  sort_by after [] = []
  sort_by after (r ∷ rs) = insert_by after r (sort_by after rs)

-- What a value that may be missing is for, and what is done without it.
abbrev pub if_found {ℓ κ} : {A : Type ℓ} {B : Type κ} → B → Option A → (A → B) → B
if_found b none f = b
if_found b (some a) f = f a

-- What holds of both cases of a test holds of the whole.
pub if_found_ind {ℓ κ μ} :
    {A : Type ℓ} {B : Type κ} (P : B → Type μ) (b : B) (o : Option A) (f : A → B)
    → (o ≡ none → P b)
    → ((a : A) → o ≡ some a → P (f a))
    → P (if_found b o f)
if_found_ind P b none f p h = p refl
if_found_ind P b (some a) f p h = h a refl

pub if_ind {ℓ κ} :
    {A : Type ℓ} (P : A → Type κ) (c : Bool) (x y : A)
    → (c ≡ true → P x)
    → (c ≡ false → P y)
    → P (if c then x else y)
if_ind P true x y h g = h refl
if_ind P false x y h g = g refl
