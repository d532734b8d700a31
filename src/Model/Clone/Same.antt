-- ===== src/Model/Clone/Same.antt =====
-- About the copies of values in internal/model/clone.go.
use migra_go.Prelude.{String, Option, none, some, List, [], ◌∷◌, ◌≡◌, refl, ap, Map}
use migra_go.Model.Objects.{PrimaryKey, IndexElem, Constraint, Index, EnumType}
use migra_go.Model.Clone.Values.{
  map_values, clone_strings_slice, clone_index_elem, clone_index_elems, clone_primary_key,
  clone_enum_type, clone_constraint, clone_index,
}

pub map_values-same {ℓ} :
    {V : Type ℓ} (f : V → V) (m : Map V) → ((v : V) → f v ≡ v) → map_values f m ≡ m
unfolding map_values
map_values-same f [] h = refl
map_values-same f ((name, v) ∷ m) h = rw (h v, map_values-same f m h) refl

clone_strings_slice-same : (l : List String) → clone_strings_slice l ≡ l
unfolding clone_strings_slice
clone_strings_slice-same [] = refl
clone_strings_slice-same (s ∷ l) = ap (λ t. s ∷ t) (clone_strings_slice-same l)

clone_index_elems-same : (l : List IndexElem) → clone_index_elems l ≡ l
unfolding clone_index_elems clone_index_elem
clone_index_elems-same [] = refl
clone_index_elems-same (e ∷ l) = ap (λ t. e ∷ t) (clone_index_elems-same l)

pub clone_primary_key-same : (pk : Option PrimaryKey) → clone_primary_key pk ≡ pk
unfolding clone_primary_key
clone_primary_key-same none = refl
clone_primary_key-same (some pk) = rw (clone_strings_slice-same pk.columns) refl

pub clone_enum_type-same : (e : EnumType) → clone_enum_type e ≡ e
unfolding clone_enum_type
clone_enum_type-same e = rw (clone_strings_slice-same e.labels) refl

pub clone_constraint-same : (c : Constraint) → clone_constraint c ≡ c
unfolding clone_constraint
clone_constraint-same c =
    rw (clone_strings_slice-same c.columns, clone_strings_slice-same c.ref_columns) refl

pub clone_index-same : (idx : Index) → clone_index idx ≡ idx
unfolding clone_index
clone_index-same idx =
    rw (clone_strings_slice-same idx.columns, clone_index_elems-same idx.elements) refl
