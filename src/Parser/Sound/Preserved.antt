-- ===== src/Parser/Sound/Preserved.antt =====
-- Soundness and `Apply` of every mutation of internal/parser.
use migra_go.Model.Store.{ColumnRef, allocate_text, write_text}
use migra_go.Prelude.{
  ℕ, String, true, false, not, ◌&&◌, Option, none, some, ◌≡◌, refl, has, str_eq, if_ind, get,
}
use migra_go.Model.Store.{Store, State, new_schema, get_or_create_namespace}
use migra_go.Model.Store.Find.{find_table, resolve_column}
use migra_go.Parser.Mutation.{
  Mutation, create_table_mutation, add_column_mutation, create_enum_type_mutation,
  drop_column_mutation, alter_column_type_mutation, set_not_null_mutation, drop_not_null_mutation,
  set_default_mutation, drop_default_mutation, add_constraint_mutation, drop_constraint_mutation,
  rename_column_mutation, create_index_mutation, create_schema_mutation, create_view_mutation,
  create_sequence_mutation, create_extension_mutation,
}
use migra_go.Parser.Apply.{apply}
use migra_go.Parser.Apply.Column.{
  change_at, set_default_at, retype_at, apply_alter_column_type, apply_set_not_null,
  apply_drop_not_null, apply_set_default, apply_drop_default,
}
use migra_go.Parser.Apply.Named.{
  apply_create_enum_type, apply_create_schema, apply_create_view, apply_create_sequence,
  apply_create_extension,
}
use migra_go.Parser.Sound.{IsSound}
use migra_go.Parser.Sound.Steps.{assign-IsSound, same_tables-IsSound}
use migra_go.Parser.Sound.Tables.{
  LeavesSound, create_table-IsSound, add_constraint-IsSound, drop_constraint-IsSound,
  create_index-IsSound,
}
use migra_go.Parser.Sound.Columns.{add_column-IsSound, drop_column-IsSound, rename_column-IsSound}

change_at-IsSound :
    (f : ColumnRef → ColumnRef) (s : State) (o : Option ℕ)
    → ((c : ColumnRef) → (f c).name ≡ c.name)
    → IsSound s
    → LeavesSound (change_at f s o)
change_at-IsSound f s none names h = h
change_at-IsSound f s (some p) names h = assign-IsSound f s p names h

text-IsSound :
    (default_expr : String) (s : State)
    → IsSound s
    → IsSound (record s { store = allocate_text default_expr s.store })
unfolding resolve_column find_table allocate_text write_text
text-IsSound default_expr s h = record { named = h.named; bounded = h.bounded; owned = h.owned }

set_default_at-IsSound :
    (default_expr : String) (s : State) (o : Option ℕ)
    → IsSound s
    → LeavesSound (set_default_at default_expr s o)
set_default_at-IsSound default_expr s none h = h
set_default_at-IsSound default_expr s (some p) h =
    assign-IsSound (λ c. record c { default_expr = some s.store.next_text })
      (record s { store = allocate_text default_expr s.store }) p (λ c. refl)
      (text-IsSound default_expr s h)

retype_at-IsSound :
    (from_type to_type : String) (s : State) (o : Option ℕ)
    → IsSound s
    → LeavesSound (retype_at from_type to_type s o)
retype_at-IsSound from_type to_type s none h = h
retype_at-IsSound from_type to_type s (some p) h =
    if_ind LeavesSound
      (not (str_eq from_type "") && not (str_eq (s.store.cell p).data_type from_type)) (λ _. h)
      (λ _. assign-IsSound (λ c. record c { data_type = to_type }) s p (λ c. refl) h)

-- A new schema finds nothing.
pub new_schema-IsSound : (st : Store) → IsSound (new_schema st)
unfolding new_schema resolve_column find_table get
new_schema-IsSound st = record {
  named = λ schema table column p e. absurd (cc e);
  bounded = λ schema table column p e. absurd (cc e);
  owned = λ schema table column schema' table' column' p e e'. absurd (cc e);
}

-- Whatever a mutation returns, error and panic included: if the columns that the schema finds have
-- the names they are found under and no two tables share one, this also holds of the schema that it
-- leaves.
pub apply-IsSound : (m : Mutation) (s : State) → IsSound s → IsSound (apply m s).1
unfolding apply apply_alter_column_type apply_set_not_null apply_drop_not_null apply_set_default
    apply_drop_default apply_create_enum_type apply_create_schema apply_create_view
    apply_create_sequence apply_create_extension
apply-IsSound (create_table_mutation schema name cols pk cs) s h =
    create_table-IsSound schema name cols pk cs s h
apply-IsSound (add_column_mutation schema table col) s h = add_column-IsSound schema table col s h
apply-IsSound (create_enum_type_mutation schema name labels) s h =
    if_ind LeavesSound (has name (get_or_create_namespace schema s).types) (λ _. h)
      (λ _. same_tables-IsSound schema _ s refl h)
apply-IsSound (drop_column_mutation schema table column) s h =
    drop_column-IsSound schema table column s h
apply-IsSound (alter_column_type_mutation schema table column from_type to_type _) s h =
    retype_at-IsSound from_type to_type s _ h
apply-IsSound (set_not_null_mutation schema table column) s h =
    change_at-IsSound (λ c. record c { is_nullable = false }) s _ (λ c. refl) h
apply-IsSound (drop_not_null_mutation schema table column) s h =
    change_at-IsSound (λ c. record c { is_nullable = true }) s _ (λ c. refl) h
apply-IsSound (set_default_mutation schema table column default_expr) s h =
    set_default_at-IsSound default_expr s _ h
apply-IsSound (drop_default_mutation schema table column) s h =
    change_at-IsSound (λ c. record c { default_expr = none }) s _ (λ c. refl) h
apply-IsSound (add_constraint_mutation schema table c) s h =
    add_constraint-IsSound schema table c s h
apply-IsSound (drop_constraint_mutation schema table name) s h =
    drop_constraint-IsSound schema table name s h
apply-IsSound (rename_column_mutation schema table old_name new_name) s h =
    rename_column-IsSound schema table old_name new_name s h
apply-IsSound (create_index_mutation schema index) s h = create_index-IsSound schema index s h
apply-IsSound (create_schema_mutation schema) s h = same_tables-IsSound schema _ s refl h
apply-IsSound (create_view_mutation schema view) s h = same_tables-IsSound schema _ s refl h
apply-IsSound (create_sequence_mutation schema sequence) s h = same_tables-IsSound schema _ s refl h
apply-IsSound (create_extension_mutation schema extension) s h =
    same_tables-IsSound schema _ s refl h
