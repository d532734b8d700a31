-- ===== src/Diff/Tables/Columns.antt =====
-- internal/diff/diff_tables.go: the columns of a table that both namespaces have. A column that only
-- the source has and one that only the target has are taken for a rename if their signatures agree.
use Prim.Native.String.{◌++◌ as append}
use migra_go.Prelude.{
  String, Bool, true, false, not, ◌&&◌, Option, none, some, List, [], ◌∷◌, Map, get, put, has, keys,
  keep_if, sort_strings, str_eq, if◌then◌else◌,
}
use migra_go.Model.Objects.{Column, Table}
use migra_go.Diff.Context.{Statement, ◌>>◌, skip, check_cancelled, add_op, for_each, with_entry}
use migra_go.Diff.Columns.{diff_column, same_default}
use migra_go.Diff.Create.{new_rename_column_op, new_add_column_op, new_drop_column_op}
use migra_go.Diff.Names.{only_in, for_names}

abbrev default_text : Option String → String
default_text none = ""
default_text (some e) = e

unfoldable pub column_signature : Column → String
column_signature col = append col.data_type (
    append "|" (
      append (if col.is_nullable then "true" else "false")
        (append "|" (append (default_text col.default_expr) (append "|" col.collation)))))

-- `isColumnRenameCandidate`, which the loop below does not call.
unfoldable pub is_column_rename_candidate : Column → Column → Bool
unfolding same_default
is_column_rename_candidate src tgt =
    str_eq src.data_type tgt.data_type
    && (if src.is_nullable then tgt.is_nullable else not tgt.is_nullable)
    && same_default src.default_expr tgt.default_expr
    && str_eq src.collation tgt.collation

abbrev enter_signature : String → Option Column → Map String → Map String
enter_signature name none sigs = sigs
enter_signature name (some col) sigs = put (column_signature col) name sigs

-- targetBySig: of two columns with one signature the later name stays.
unfoldable pub index_signatures : List String → Map Column → Map String → Map String
index_signatures [] columns sigs = sigs
index_signatures (name ∷ names) columns sigs =
    index_signatures names columns (enter_signature name (get name columns) sigs)

-- The local maps `renamedSource` and `renamedTarget`.
pub record Renamed : Type 0 where
  pub renamed_source : Map Bool
  pub renamed_target : Map Bool

-- m[k], which is false for a missing key
abbrev pub flag : String → Map Bool → Bool
flag k m = elim (get k m) [ none ↦ false | some b ↦ b ]

-- The target column that the source column is taken to be renamed to.
unfoldable pub rename_target : Map String → Map Bool → Option Column → Option String
rename_target sigs taken none = none
rename_target sigs taken (some col) = elim (get (column_signature col) sigs) [
  | none ↦ none
  | some name ↦ if flag name taken then none else some name
]

unfoldable pub mark_renamed : String → Option String → Renamed → Renamed
mark_renamed src none r = r
mark_renamed src (some tgt) r = record {
  renamed_source = put src true r.renamed_source;
  renamed_target = put tgt true r.renamed_target;
}

module _ (schema : String) (source target : Table) where
  abbrev pub emit_rename : String → Option String → Statement
  emit_rename src none = skip
  emit_rename src (some tgt) = add_op (new_rename_column_op schema target.name src tgt)

  -- The loop over the source's names, and what follows it.
  unfoldable pub rename_columns :
      Map String → List String → Renamed → (Renamed → Statement) → Statement
  rename_columns sigs [] r rest = rest r
  rename_columns sigs (src ∷ names) r rest =
      let tgt = rename_target sigs r.renamed_target (get src source.column_by_name) in
      check_cancelled
      >> emit_rename src tgt
      >> rename_columns sigs names (mark_renamed src tgt r) rest

  -- Phases 2 to 4. Phase 3 goes through the map in Go's order, which is no fixed one.
  unfoldable pub add_drop_compare : List String → Renamed → Statement
  add_drop_compare target_only r = do
    for_names (sort_strings (keep_if (λ name. not (flag name r.renamed_target)) target_only))
        target.column_by_name (λ name col. add_op (new_add_column_op schema target.name col))
    for_each
        (keep_if (λ name. not (has name target.column_by_name) && not (flag name r.renamed_source))
          (keys source.column_by_name))
        (λ name. add_op (new_drop_column_op schema source.name name))
    for_each target.columns (λ col.
        check_cancelled
        >> with_entry (get col.name source.column_by_name)
            (λ src. diff_column schema target.name src col))

  unfoldable pub diff_table_columns : Statement
  diff_table_columns =
      let source_only = only_in source.column_by_name target.column_by_name in
      let target_only = only_in target.column_by_name source.column_by_name in
      rename_columns (index_signatures target_only target.column_by_name []) source_only
        (record { renamed_source = []; renamed_target = [] }) (add_drop_compare target_only)
