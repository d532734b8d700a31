-- ===== src/Prelude/Maps.antt =====
-- Go's `map[string]V` as an association list. The order of the entries stands for the order in
-- which a `range` loop meets them, which Go leaves open; a theorem over all lists covers each.
use Prim.Native.String.{String, compare}
use mathlib.Core.Path.{◌≡◌, refl}
use mathlib.Core.Bool.{Bool, true, false}
use mathlib.Core.Option.{Option, none, some}
use mathlib.Core.List.{List, [], ◌∷◌, map}
use native.Mathlib.Omega.{arith}
use text.Mathlib.Text.{◌==◌ as str_eq, is_le}
use text.Mathlib.TextEquality.{eq_iff}
use migra_go.Prelude.Tests.{if◌then◌else◌, if_ind}
use migra_go.Prelude.Lists.{All}

abbrev pub Map {ℓ} : Type ℓ → Type ℓ
Map V = List (String × V)

module _ {ℓ} {V : Type ℓ} where
  -- m[k], with the `ok` of `v, ok := m[k]`
  unfoldable pub get : String → Map V → Option V
  get k [] = none
  get k ((j, v) ∷ m) = if str_eq j k then some v else get k m

  -- m[k] = v
  unfoldable pub put : String → V → Map V → Map V
  put k v [] = (k, v) ∷ []
  put k v ((j, w) ∷ m) = let rest = put k v m in if str_eq j k then (j, v) ∷ m else (j, w) ∷ rest

  -- delete(m, k)
  unfoldable pub delete : String → Map V → Map V
  delete k [] = []
  delete k ((j, w) ∷ m) = let rest = delete k m in if str_eq j k then rest else (j, w) ∷ rest

  abbrev pub is_some : Option V → Bool
  is_some none = false
  is_some (some v) = true

  -- _, exists := m[k]
  unfoldable pub has : String → Map V → Bool
  unfolding get
  has k m = is_some (get k m)

  unfoldable pub keys : Map V → List String
  keys m = map (λ e. e.0) m

  pub get-put :
      (k j : String) (v : V) (m : Map V)
      → get j (put k v m) ≡ (if str_eq k j then some v else get j m)
  unfolding get put
  get-put k j v [] = refl
  get-put k j v ((i, w) ∷ m) = ground (arith, eq_iff k j, eq_iff i k, eq_iff i j, get-put k j v m)

  pub get-delete :
      (k j : String) (m : Map V) → get j (delete k m) ≡ (if str_eq k j then none else get j m)
  unfolding get delete
  get-delete k j [] = ground arith
  get-delete k j ((i, w) ∷ m) = ground (arith, eq_iff k j, eq_iff i k, eq_iff i j, get-delete k j m)

pub ruleset map_laws = (get-put, get-delete)

-- `sort.Strings`: byte order.
str_insert : String → List String → List String
str_insert s [] = s ∷ []
str_insert s (t ∷ ts) =
    let rest = str_insert s ts in if is_le (compare s t) then s ∷ t ∷ ts else t ∷ rest

unfoldable pub sort_strings : List String → List String
unfolding str_insert
sort_strings [] = []
sort_strings (s ∷ ss) = str_insert s (sort_strings ss)

All-insert :
    (P : String → Type 0) (s : String) (l : List String) → P s → All P l → All P (str_insert s l)
unfolding str_insert
All-insert P s [] h k = (h, tt)
All-insert P s (t ∷ l) h k =
    if_ind (All P) (is_le (compare s t)) (λ _. (h, k)) (λ _. (k.0, All-insert P s l h k.1))

pub All-sort : (P : String → Type 0) (l : List String) → All P l → All P (sort_strings l)
unfolding sort_strings
All-sort P [] h = tt
All-sort P (s ∷ l) h = All-insert P s (sort_strings l) h.0 (All-sort P l h.1)
