-- ===== src/Base/Maps.antt =====
-- A JavaScript `Map` with string keys as a list of pairs in insertion order (setting a key that is
-- there keeps its place), and a `Set` of strings as a list without repetition.
use Prim.Native.String.{String}
use mathlib.Core.Path.{◌≡◌, refl}
use mathlib.Core.Bool.{Bool, false, not, ◌&&◌, ◌||◌}
use mathlib.Core.Option.{Option, none, some}
use mathlib.Core.List.{List, [], ◌∷◌, ◌++◌}
use native.Mathlib.Omega.{arith}
pub use text.Mathlib.Text.{◌==◌ as str_eq}
pub use text.Mathlib.TextEquality.{eq_iff}
use brevi.Base.Tests.{if◌then◌else◌}

-- A map from strings.
abbrev pub Dict {ℓ} : Type ℓ → Type ℓ
Dict V = List (String × V)

module _ {ℓ} {V : Type ℓ} where
  abbrev pub get : String → List (String × V) → Option V
  get k [] = none
  get k ((j, v) ∷ m) = if str_eq j k then some v else get k m

  abbrev pub put : String → V → List (String × V) → List (String × V)
  put k v [] = (k, v) ∷ []
  put k v ((j, w) ∷ m) = if str_eq j k then (j, v) ∷ m else (j, w) ∷ put k v m

  abbrev pub delete : String → List (String × V) → List (String × V)
  delete k [] = []
  delete k ((j, v) ∷ m) = let rest = delete k m in if str_eq j k then rest else (j, v) ∷ rest

  pub get-put :
      (j k : String) (v : V) (m : List (String × V))
      → get j (put k v m) ≡ (if str_eq k j then some v else get j m)
  get-put j k v [] = refl
  get-put j k v ((i, w) ∷ m) = ground (arith, eq_iff k j, eq_iff i k, eq_iff i j, get-put j k v m)

  pub get-delete :
      (j k : String) (m : List (String × V))
      → get j (delete k m) ≡ (if str_eq k j then none else get j m)
  get-delete j k [] = ground arith
  get-delete j k ((i, w) ∷ m) = ground (arith, eq_iff k j, eq_iff i k, eq_iff i j, get-delete j k m)

abbrev pub contains : String → List String → Bool
contains s [] = false
contains s (x ∷ xs) = str_eq x s || contains s xs

abbrev pub add_key : String → List String → List String
add_key s xs = if contains s xs then xs else xs ++ s ∷ []

abbrev pub remove_key : String → List String → List String
remove_key s [] = []
remove_key s (x ∷ xs) = let rest = remove_key s xs in if str_eq x s then rest else x ∷ rest

pub contains-append :
    (s t : String) (xs : List String) → contains s (xs ++ t ∷ []) ≡ (contains s xs || str_eq t s)
contains-append s t [] = ground arith
contains-append s t (x ∷ xs) = ground (arith, contains-append s t xs)

pub contains-add_key :
    (s t : String) (xs : List String) → contains s (add_key t xs) ≡ (contains s xs || str_eq t s)
contains-add_key s t xs = ground (arith, contains-append s t xs, eq_iff t s)

pub contains-remove_key :
    (s t : String) (xs : List String)
    → contains s (remove_key t xs) ≡ (not (str_eq t s) && contains s xs)
contains-remove_key s t [] = ground arith
contains-remove_key s t (x ∷ xs) =
    ground (arith, eq_iff x t, eq_iff t s, eq_iff x s, contains-remove_key s t xs)
