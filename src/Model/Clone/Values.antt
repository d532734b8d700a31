-- ===== src/Model/Clone/Values.antt =====
-- internal/model/clone.go: what needs no store, for objects that are values here: a copy field by
-- field of a value is the value, so sharing of these objects is not expressed.
use migra_go.Prelude.{String, Option, none, some, List, [], ◌∷◌, Map}
use migra_go.Model.Objects.{
  PrimaryKey, IndexElem, Constraint, Index, EnumType, View, Sequence, Extension,
}

-- for name, v := range m { c[name] = v.Clone() }
unfoldable pub map_values {ℓ} : {V : Type ℓ} → (V → V) → Map V → Map V
map_values f [] = []
map_values f ((name, v) ∷ m) = (name, f v) ∷ map_values f m

unfoldable pub clone_strings_slice : List String → List String
clone_strings_slice [] = []
clone_strings_slice (s ∷ l) = s ∷ clone_strings_slice l

unfoldable pub clone_index_elem : IndexElem → IndexElem
clone_index_elem e = e

unfoldable pub clone_index_elems : List IndexElem → List IndexElem
unfolding clone_index_elem
clone_index_elems [] = []
clone_index_elems (e ∷ l) = clone_index_elem e ∷ clone_index_elems l

unfoldable pub clone_view : View → View
clone_view v = v

unfoldable pub clone_sequence : Sequence → Sequence
clone_sequence s = s

unfoldable pub clone_extension : Extension → Extension
clone_extension e = e

unfoldable pub clone_primary_key : Option PrimaryKey → Option PrimaryKey
unfolding clone_strings_slice
clone_primary_key none = none
clone_primary_key (some pk) =
    some (record { name = pk.name; columns = clone_strings_slice pk.columns })

unfoldable pub clone_enum_type : EnumType → EnumType
unfolding clone_strings_slice
clone_enum_type e = record { name = e.name; labels = clone_strings_slice e.labels }

unfoldable pub clone_constraint : Constraint → Constraint
unfolding clone_strings_slice
clone_constraint c = record {
  name = c.name;
  type = c.type;
  definition = c.definition;
  table = c.table;
  columns = clone_strings_slice c.columns;
  ref_schema = c.ref_schema;
  ref_table = c.ref_table;
  ref_columns = clone_strings_slice c.ref_columns;
  expression = c.expression;
  on_delete = c.on_delete;
  on_update = c.on_update;
}

unfoldable pub clone_index : Index → Index
unfolding clone_strings_slice clone_index_elems
clone_index idx = record {
  name = idx.name;
  table = idx.table;
  columns = clone_strings_slice idx.columns;
  elements = clone_index_elems idx.elements;
  unique = idx.unique;
  method = idx.method;
  primary = idx.primary;
  is_constraint = idx.is_constraint;
  where_clause = idx.where_clause;
  definition = idx.definition;
  concurrent = idx.concurrent;
  if_not_exists = idx.if_not_exists;
}
